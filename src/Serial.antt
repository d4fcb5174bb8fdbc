-- ===== src/Serial.antt =====
-- src/pwr/serialize.h: the byte buffer `SerialBuf` and the operators that push values on it and
-- pull them off its end. The head of a list is the back of the vector of bytes.
pub mod Words
pub mod Vectors
use pwrapi.Prelude.{
  ℕ, zero, suc, ◌+◌, ◌*◌, ◌/◌, ◌%◌, ◌^◌, ◌<◌, ◌≡◌, Option, none, some, List, [], ◌∷◌, bit_or, ltb,
  length, if◌then◌else◌, ◌>>=◌,
}

abbrev pub Buf : Type 0
Buf = List ℕ

-- The rounds left, and the loop's `i`.
unfoldable pub out_loop : ℕ → ℕ → ℕ → Buf → Buf
out_loop zero i tmp buf = buf
out_loop (suc n) i tmp buf = out_loop n (i + 1) tmp ((tmp / 2 ^ (8 * i) % 256) ∷ buf)

-- `SerialBuf::out`: the lowest byte first.
unfoldable pub out_bytes : ℕ → ℕ → Buf → Buf
out_bytes tmp len buf = out_loop len 0 tmp buf

-- The loop counts `i` down to 0; `back()` of an empty vector is undefined, and a fault here.
in_loop : ℕ → ℕ → Buf → Option (ℕ × Buf)
in_loop zero tmp buf = some (tmp, buf)
in_loop (suc i) tmp [] = none
in_loop (suc i) tmp (c ∷ buf) = in_loop i (bit_or tmp (c * 2 ^ (8 * i) % 2 ^ 64)) buf

-- `SerialBuf::in`: the highest byte first.
pub in_bytes : ℕ → Buf → Option (ℕ × Buf)
in_bytes len buf = in_loop len 0 buf

-- The overloads of `<<` and `>>` at one type, and the values that they carry faithfully.
pub record Codec (A : Type 0) : Type 1 where
  pub push : A → Buf → Buf
  pub pull : Buf → Option (A × Buf)
  pub Fits : A → Type 0
  pub pull-push : (a : A) (buf : Buf) → Fits a → pull (push a buf) ≡ some (a, buf)

module _ {A : Type 0} (c : Codec A) where
  unfoldable pub push_items : List A → Buf → Buf
  push_items [] buf = buf
  push_items (x ∷ xs) buf = push_items xs (c.push x buf)

  -- `operator<<( const std::vector<T>& )`: the items, and then their number as a `size_t`. The
  -- loop's `unsigned int i` passes 2 ^ 32 items never, so longer vectors are not meant.
  unfoldable pub push_vector : List A → Buf → Buf
  push_vector xs buf = out_bytes (length xs) 8 (push_items xs buf)

  -- From the last item to the first.
  pull_items : ℕ → List A → Buf → Option (List A × Buf)
  pull_items zero xs buf = some (xs, buf)
  pull_items (suc i) xs buf = do (x, rest) ← c.pull buf; pull_items i (x ∷ xs) rest

  -- `operator>>( std::vector<T>& )`. A length of 2 ^ 32 or more, which no vector of that side has
  -- sent, is a fault.
  pub pull_vector : Buf → Option (List A × Buf)
  pull_vector buf = do
    (len, rest) ← in_bytes 8 buf
    if ltb len (2 ^ 32) then pull_items len [] rest else none

-- `str[ i ] = buf.back(); buf.pop_back();`
pub pull_char : Buf → Option (ℕ × Buf)
pull_char [] = none
pull_char (c ∷ buf) = some (c, buf)
