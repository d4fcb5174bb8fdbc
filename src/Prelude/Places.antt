-- ===== src/Prelude/Places.antt =====
-- Lists read and written at a place.
use Prim.Native.Nat.{ℕ, zero, suc, ◌<◌, ◌≤◌}
use mathlib.Core.Path.{◌≡◌, refl, subst}
use mathlib.Core.Logic.{◌⊎◌}
use mathlib.Core.List.{List, [], ◌∷◌, ◌++◌}
use mathlib.Core.Option.{none, some, some-injective}
use native.Mathlib.Omega.{arith}
use pwrapi.Prelude.Lists.{length, get_elem?, set, All}

module _ {A : Type 0} (P : A → Type 0) where
  pub All-get_elem? : (xs : List A) (i : ℕ) (x : A) → All P xs → get_elem? xs i ≡ some x → P x
  All-get_elem? [] i x h e = ground (arith, e)
  All-get_elem? (y ∷ xs) zero x (p, h) e = subst P (some-injective y x e) p
  All-get_elem? (y ∷ xs) (suc i) x (p, h) e = All-get_elem? xs i x h e

  pub All-set : (xs : List A) (i : ℕ) (x : A) → All P xs → P x → All P (set xs i x)
  All-set [] i x h p = h
  All-set (y ∷ xs) zero x (q, h) p = (p, h)
  All-set (y ∷ xs) (suc i) x (q, h) p = (q, All-set xs i x h p)

  pub All-push : (xs : List A) (x : A) → All P xs → P x → All P (xs ++ x ∷ [])
  All-push [] x h p = (p, tt)
  All-push (y ∷ xs) x (q, h) p = (q, All-push xs x h p)

module _ {A : Type 0} where
  pub get_elem?-lt : (xs : List A) (i : ℕ) → i < length xs → (x : A) × (get_elem? xs i ≡ some x)
  get_elem?-lt [] i lt = absurd (omega arith)
  get_elem?-lt (x ∷ xs) zero lt = (x, refl)
  get_elem?-lt (x ∷ xs) (suc i) lt = get_elem?-lt xs i (omega arith)

  pub lt-get_elem? : (xs : List A) (i : ℕ) (x : A) → get_elem? xs i ≡ some x → i < length xs
  lt-get_elem? [] i x e = ground (arith, e)
  lt-get_elem? (y ∷ xs) zero x e = omega arith
  lt-get_elem? (y ∷ xs) (suc i) x e = omega (arith, lt-get_elem? xs i x e)

  pub get_elem?-past : (xs : List A) (i : ℕ) → length xs ≤ i → get_elem? xs i ≡ none
  get_elem?-past [] i le = refl
  get_elem?-past (x ∷ xs) zero le = absurd (omega arith)
  get_elem?-past (x ∷ xs) (suc i) le = get_elem?-past xs i (omega arith)

-- A value is in a list.
abbrev pub Among : {A : Type 0} → A → List A → Type 0
Among x [] = ⊥
Among x (y ∷ ys) = (x ≡ y) ⊎ Among x ys
