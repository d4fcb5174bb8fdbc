-- ===== src/Objects/Samples.antt =====
-- `Object::attrGetSamples` of src/pwr/object.cc: the samples of the one device of an attribute are
-- added to what the caller's array holds. A device leaves samples at the places of an array: a
-- function, which is read at as many places as were asked for.
use pwrapi.Prelude.{
  ℕ, zero, suc, ◌+◌, ◌%◌, ◌^◌, ◌≤◌, ltb, ◌≡◌, refl, ap, Option, none, some, List, [], ◌∷◌,
  if◌then◌else◌, length, get_elem?, ◌>>=◌, arith,
}
use mathlib.Core.Option.{some-injective}
use pwrapi.Prelude.Int.{ℤ, eq_ℤ}
use pwrapi.Objects.{success, failure, Object, is_valid}

-- `((uint64_t*)buf)[i] += data[i]` for each place, from `i` on. `none` is a write out of bounds.
pub add_samples : ℕ → ℕ → (ℕ → ℕ) → List ℕ → Option (List ℕ)
add_samples zero i at buf = some buf
add_samples (suc n) i at [] = none
add_samples (suc n) i at (v ∷ buf) =
    add_samples n (suc i) at buf >>= (λ (rest : List ℕ). some ((v + at i) % 2 ^ 64 ∷ rest))

module _ {World Dev : Type 0}
    (read_samples : Dev → ℕ → ℕ → ℕ → World → (ℤ × ℕ × (ℕ → ℕ)) × World) where
  -- What the device has answered: the code, the start and the array.
  take_samples : ℕ → ℕ → List ℕ → ℤ × ℕ × (ℕ → ℕ) → Option (ℤ × ℕ × List ℕ)
  take_samples count start buf (ret, t, at) =
      let rest = add_samples count 0 at buf >>= (λ (buf' : List ℕ). some (ret, t, buf')) in
      if eq_ℤ ret success then rest else some (ret, start, buf)

  -- The loop over the devices, of which there is at most one.
  pub device_samples : List Dev → ℕ → ℕ → ℕ → ℕ → List ℕ → World → Option ((ℤ × ℕ × List ℕ) × World)
  device_samples [] name start period count buf w = some ((success, start, buf), w)
  device_samples (d ∷ []) name start period count buf w =
      let (got, w') = read_samples d name period count w in
      take_samples count start buf got >>= (λ (r : ℤ × ℕ × List ℕ). some (r, w'))
  device_samples (d ∷ e ∷ ds) name start period count buf w = none

  -- `Object::attrGetSamples`: the code, the start and the array.
  pub attr_get_samples :
      Object Dev → ℕ → ℕ → ℕ → ℕ → List ℕ → World → Option ((ℤ × ℕ × List ℕ) × World)
  attr_get_samples o name start period count buf w =
      let info = o.attr_info name in
      let run = device_samples info.devices name start period count buf w in
      if is_valid info then run else some ((failure, start, buf), w)

entry_cons :
    (n i : ℕ) (at : ℕ → ℕ) (x : ℕ) (buf out : List ℕ)
    → ((k v : ℕ)
        → get_elem? buf k ≡ some v
        → get_elem? out k ≡ some (if ltb k n then (v + at (suc i + k)) % 2 ^ 64 else v))
    → (k v : ℕ) → get_elem? (x ∷ buf) k ≡ some v
    → get_elem? ((x + at i) % 2 ^ 64 ∷ out) k
      ≡ some (if ltb k (suc n) then (v + at (i + k)) % 2 ^ 64 else v)
entry_cons n i at x buf out entry zero v e =
    let here : i + 0 ≡ i = omega arith in
    let same : x ≡ v = some-injective x v e in rw (here, same) (ground arith)
entry_cons n i at x buf out entry (suc k) v e =
    let there : i + suc k ≡ suc i + k = omega arith in rw (there) (ground (arith, entry k v e))

-- The samples are added, entry by entry and modulo 2^64, to the first entries of the array, and the
-- others stay.
pub get_elem?-add_samples :
    (n i : ℕ) (at : ℕ → ℕ) (buf : List ℕ)
    → n ≤ length buf
    → (out : List ℕ) × (add_samples n i at buf ≡ some out)
      × (length out ≡ length buf)
      × ((k v : ℕ)
          → get_elem? buf k ≡ some v
          → get_elem? out k ≡ some (if ltb k n then (v + at (i + k)) % 2 ^ 64 else v))
unfolding add_samples
get_elem?-add_samples zero i at buf le = (buf, refl, refl, λ k v e. ground (arith, e))
get_elem?-add_samples (suc n) i at [] le = absurd (omega arith)
get_elem?-add_samples (suc n) i at (x ∷ buf) le =
    let (out, run, len, entry) = get_elem?-add_samples n (suc i) at buf (omega arith) in
    ((x + at i) % 2 ^ 64 ∷ out, rw (run) refl, ap suc len, entry_cons n i at x buf out entry)
