-- ===== src/Serial/Vectors.antt =====
-- The operators of `std::vector` and `std::string`, given those of the items.
use native.Mathlib.Nat.{mod-eq_of_lt}
use pwrapi.Prelude.{
  ℕ, suc, ◌+◌, ◌*◌, ◌^◌, ◌<◌, ◌≡◌, refl, ap, ◌∙◌, some, List, [], ◌∷◌, ◌++◌, append-nil, arith,
  length, All, lt→ltb,
}
use pwrapi.Serial.{Buf, Codec, push_items, push_vector, pull_items, pull_vector, pull_char}
use pwrapi.Serial.Words.{in_bytes-out_bytes, word_codec, length-push_word}

module _ {A : Type 0} (c : Codec A) where
  abbrev pub FitsVector : List A → Type 0
  FitsVector xs = (length xs < 2 ^ 32) × All c.Fits xs

  -- The items come off in the opposite order, and go in front of those that came off before.
  pull_items-push_items :
      (xs : List A) (m k : ℕ) (acc : List A) (buf : Buf)
      → k ≡ length xs + m
      → All c.Fits xs
      → pull_items c k acc (push_items c xs buf) ≡ pull_items c m (xs ++ acc) buf
  unfolding pull_items push_items
  pull_items-push_items [] m k acc buf e fits = let same : k ≡ m = omega arith in rw same
  pull_items-push_items (x ∷ xs) m k acc buf e fits =
      pull_items-push_items xs (suc m) k acc (c.push x buf) (omega arith) fits.1
      ∙ rw (c.pull-push x buf fits.0)

  -- A vector of less than 2 ^ 32 items, each within its type, that is pushed is pulled again, with
  -- what lay under it.
  pub pull_vector-push_vector :
      (xs : List A) (buf : Buf)
      → FitsVector xs
      → pull_vector c (push_vector c xs buf) ≡ some (xs, buf)
  unfolding pull_vector push_vector
  pull_vector-push_vector xs buf fits =
      rw (in_bytes-out_bytes 8 (length xs) (push_items c xs buf) (omega arith)) (
        rw (mod-eq_of_lt small) (
          rw (lt→ltb (length xs) (2 ^ 32) fits.0) (
            pull_items-push_items xs 0 (length xs) [] buf (omega arith) fits.1
            ∙ unfold pull_items in ap (λ (ys : List A). some (ys, buf)) (append-nil xs))))
    where
      small : length xs < 2 ^ (8 * 8)
      small = omega arith

-- `std::vector<T>` for the codec of `T`.
abbrev pub vector_codec : {A : Type 0} → Codec A → Codec (List A)
vector_codec c = record {
  push = push_vector c;
  pull = pull_vector c;
  Fits = FitsVector c;
  pull-push = pull_vector-push_vector c;
}

pub pull_char-push : (a : ℕ) (buf : Buf) → Unit {0} → pull_char (a ∷ buf) ≡ some (a, buf)
unfolding pull_char
pull_char-push a buf _ = refl

-- `buf.push_back( str[i] )`, with no call of `out`.
abbrev pub char_codec : Codec ℕ
char_codec = record {
  push = λ a buf. a ∷ buf;
  pull = pull_char;
  Fits = λ a. Unit {0};
  pull-push = pull_char-push;
}

-- `std::string`, a list of bytes: the same loops as for a vector, over the characters.
abbrev pub string_codec : Codec (List ℕ)
string_codec = vector_codec char_codec

-- The types of the events' fields: `uint32_t`, `int32_t` and the enums; `uint64_t`, `int64_t` and
-- `double` by its bits.
unfoldable pub u32 : Codec ℕ
unfolding word_codec
u32 = word_codec 4 (omega arith)

unfoldable pub u64 : Codec ℕ
unfolding word_codec
u64 = word_codec 8 (omega arith)

unfoldable pub byte : Codec ℕ
unfolding word_codec
byte = word_codec 1 (omega arith)

pub length-push_u32 : (v : ℕ) (buf : Buf) → length (u32.push v buf) ≡ 4 + length buf
unfolding u32
length-push_u32 v buf = length-push_word 4 (omega arith) v buf

pub length-push_u64 : (v : ℕ) (buf : Buf) → length (u64.push v buf) ≡ 8 + length buf
unfolding u64
length-push_u64 v buf = length-push_word 8 (omega arith) v buf
