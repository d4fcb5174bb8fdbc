-- ===== src/Serial/Words.antt =====
-- `in( len )` takes off what `out( v, len )` put on, for words of up to eight bytes.
use native.Mathlib.Nat.{mod-add-div, div-div-eq-div-mul, one-le-pow, mod-eq_of_lt, mul_comm}
use native.Mathlib.Nat.{pow-le-pow_right, le_trans}
use native.Mathlib.Numerals.{towards_suc}
use pwrapi.Prelude.{
  ℕ, zero, suc, ◌+◌, ◌*◌, ◌/◌, ◌%◌, ◌^◌, ◌≤◌, ◌<◌, ◌≡◌, ap, ◌∙◌, some, ◌∷◌, bit_or, arith, length,
}
use pwrapi.Prelude.Bits.{bit_or-fields}
use pwrapi.Serial.{Buf, out_loop, out_bytes, in_loop, in_bytes, Codec}

-- The byte that the last round of `out` pushes.
abbrev byte_at : ℕ → ℕ → ℕ
byte_at v i = v / 2 ^ (8 * i) % 256

out_loop-suc :
    (n i j v : ℕ) (buf : Buf)
    → j ≡ n + i
    → out_loop (suc n) i v buf ≡ byte_at v j ∷ out_loop n i v buf
unfolding out_loop
out_loop-suc zero i j v buf e = let same : j ≡ i = omega arith in rw same
out_loop-suc (suc n) i j v buf e = out_loop-suc n (i + 1) j v (byte_at v i ∷ buf) (omega arith)

pow_byte : (i : ℕ) → 2 ^ (8 * suc i) ≡ 256 * 2 ^ (8 * i)
pow_byte i = let e : 8 * suc i ≡ 8 * i + 8 = omega arith in rw e (simp towards_suc (omega arith))

split_sums :
    (v p d q r m t : ℕ) → m + p * d ≡ v → r + 256 * q ≡ d → t + 256 * p * q ≡ v → t ≡ r * p + m
split_sums v p d q r m t e₁ e₂ e₃ = omega (arith, ap (λ (x : ℕ). p * x) e₂)

-- `v % (256 * p)` by its top byte and the rest.
split_byte : (v p : ℕ) → v % (256 * p) ≡ v / p % 256 * p + v % p
split_byte v p =
    split_sums v p (v / p) (v / p / 256) (v / p % 256) (v % p) (v % (256 * p)) (mod-add-div v p)
      (mod-add-div (v / p) 256)
      (rw div-div-eq-div-mul (rw (mul_comm p 256) (mod-add-div v (256 * p))))

below_field : (c p u : ℕ) → c < 256 → u ≡ 256 * p → 1 ≤ p → c * p < u
below_field c p u lt e pos = grind arith

-- `tmp |= c << (8 * i)` adds the byte `c`, where `tmp` has its bits above it.
or_byte :
    (i t q c : ℕ)
    → suc i ≤ 8
    → t ≡ q * 2 ^ (8 * suc i)
    → c < 256
    → bit_or t (c * 2 ^ (8 * i) % 2 ^ 64) ≡ t + c * 2 ^ (8 * i)
or_byte i t q c le e lt =
    let fits : c * 2 ^ (8 * i) < 2 ^ (8 * suc i) =
      below_field c (2 ^ (8 * i)) (2 ^ (8 * suc i)) lt (pow_byte i)
        (one-le-pow (8 * i) 2 (omega arith)) in
    let small : c * 2 ^ (8 * i) < 2 ^ 64 =
      le_trans fits
        (pow-le-pow_right {n = 2} (omega arith) {i = 8 * suc i} {j = 64} (omega arith)) in
    rw (mod-eq_of_lt small) (rw e (bit_or-fields (8 * suc i) q (c * 2 ^ (8 * i)) fits))

-- The rest of `in`, from a `tmp` whose bits below the bytes to come are 0.
in_loop-out_loop :
    (n t q v : ℕ) (buf : Buf)
    → n ≤ 8
    → t ≡ q * 2 ^ (8 * n)
    → in_loop n t (out_loop n 0 v buf) ≡ some (t + v % 2 ^ (8 * n), buf)
unfolding in_loop out_loop
in_loop-out_loop zero t q v buf le e = ap (λ (x : ℕ). some (x, buf)) (omega arith)
in_loop-out_loop (suc n) t q v buf le e =
    let c : ℕ = byte_at v n in
    let grown : t + c * 2 ^ (8 * n) ≡ (q * 256 + c) * 2 ^ (8 * n) =
      omega (arith, e, ap (λ (x : ℕ). q * x) (pow_byte n)) in
    let whole : t + c * 2 ^ (8 * n) + v % 2 ^ (8 * n) ≡ t + v % 2 ^ (8 * suc n) =
      rw (pow_byte n) (omega (arith, split_byte v (2 ^ (8 * n)))) in
    rw (out_loop-suc n 0 n v buf (omega arith)) (
      rw (or_byte n t q c le e (omega arith)) (
        in_loop-out_loop n (t + c * 2 ^ (8 * n)) (q * 256 + c) v buf (omega arith) grown
        ∙ ap (λ (x : ℕ). some (x, buf)) whole))

-- A word of at most 8 bytes that is pushed is pulled again, with what lay under it: the low bytes of
-- the value.
pub in_bytes-out_bytes :
    (len v : ℕ) (buf : Buf)
    → len ≤ 8
    → in_bytes len (out_bytes v len buf) ≡ some (v % 2 ^ (8 * len), buf)
unfolding in_bytes out_bytes
in_bytes-out_bytes len v buf le =
    in_loop-out_loop len 0 0 v buf le (omega arith) ∙ ap (λ (x : ℕ). some (x, buf)) (omega arith)

-- A word of `w` bytes: the operators of the integers and enums, and of `double` by its bits.
unfoldable pub word_codec : (w : ℕ) → w ≤ 8 → Codec ℕ
word_codec w le = record {
  push = λ v. out_bytes v w;
  pull = in_bytes w;
  Fits = λ v. v < 2 ^ (8 * w);
  pull-push = λ v buf fits.
      in_bytes-out_bytes w v buf le ∙ ap (λ (x : ℕ). some (x, buf)) (mod-eq_of_lt fits);
}

length-out_loop : (n i v : ℕ) (buf : Buf) → length (out_loop n i v buf) ≡ n + length buf
unfolding out_loop
length-out_loop zero i v buf = omega arith
length-out_loop (suc n) i v buf = omega (arith, length-out_loop n (i + 1) v (byte_at v i ∷ buf))

-- A word of `w` bytes adds `w` bytes.
pub length-push_word :
    (w : ℕ) (le : w ≤ 8) (v : ℕ) (buf : Buf)
    → length ((word_codec w le).push v buf) ≡ w + length buf
unfolding word_codec out_bytes
length-push_word w le v buf = length-out_loop w 0 v buf
