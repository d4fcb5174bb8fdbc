-- ===== src/Prelude/Bits.antt =====
-- `|` of a value and a byte (or any value) that lies below its lowest set bit is their sum.
use Prim.Native.Nat.{
  ℕ, zero, suc, ◌+◌, ◌*◌, ◌/◌, ◌^◌, ◌≤◌, ◌<◌, max, bit_or, digits, bit_or-bitwise,
}
use mathlib.Core.Path.{◌≡◌, refl, ap}
use native.Mathlib.Nat.{pow-suc}
use native.Mathlib.Omega.{arith}

-- The native operation stands for `digits`, a recursion on binary digits with a count of digits.
abbrev or_digits : ℕ → ℕ → ℕ → ℕ
or_digits n a b = digits (λ y. y) max n a b

or_digits-zero : (n a : ℕ) → a ≤ n → or_digits n a 0 ≡ a
or_digits-zero zero a h = omega arith
or_digits-zero (suc n) zero h = refl
or_digits-zero (suc n) (suc a) h = omega (arith, or_digits-zero n (suc a / 2) (omega arith))

double_field : (k q : ℕ) → q * 2 ^ suc k ≡ 2 * (q * 2 ^ k)
double_field k q = omega (arith, ap (λ (t : ℕ). q * t) (pow-suc 2 k))

or_digits_fields : (k n a q r : ℕ) → a ≡ q * 2 ^ k → r < 2 ^ k → a ≤ n → or_digits n a r ≡ a + r
or_digits_fields zero n a q zero e lt le = omega (arith, or_digits-zero n a le)
or_digits_fields zero n a q (suc r) e lt le = absurd (omega arith)
or_digits_fields (suc k) zero a q r e lt le = omega arith
or_digits_fields (suc k) (suc n) zero q r e lt le = omega arith
or_digits_fields (suc k) (suc n) (suc a) q r e lt le =
    let half : suc a / 2 ≡ q * 2 ^ k = omega (arith, double_field k q) in
    omega (
      arith,
      double_field k q,
      pow-suc 2 k,
      or_digits_fields k n (suc a / 2) q (r / 2) half (omega (arith, pow-suc 2 k)) (omega arith),
    )

-- `(q << k) | r` with `r` below bit `k`.
pub bit_or-fields : (k q r : ℕ) → r < 2 ^ k → bit_or (q * 2 ^ k) r ≡ q * 2 ^ k + r
bit_or-fields k q r lt =
    simp bit_or-bitwise (or_digits_fields k (q * 2 ^ k) (q * 2 ^ k) q r refl lt (omega arith))
