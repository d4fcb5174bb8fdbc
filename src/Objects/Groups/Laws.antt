-- ===== src/Objects/Groups/Laws.antt =====
-- A group has no object twice.
use pwrapi.Prelude.{
  ℕ, ◌≡◌, ◌⊎◌, inl, inr, refl, true, false, Bool-cases, [], ◌∷◌, ◌++◌, ◌==◌, ==_iff, ==_self,
  if◌then◌else◌, arith,
}
use pwrapi.Objects.{success, failure, Object}
use pwrapi.Objects.Groups.{Grp, has, add, erase_first, remove}

-- No object is twice in the group.
unfoldable pub Distinct : {Dev : Type 0} → Grp Dev → Type 0
Distinct [] = Unit
Distinct (o ∷ g) = (has o.id g ≡ false) × Distinct g

module _ {Dev : Type 0} where
  has-append :
      (id : ℕ) (g : Grp Dev) (o : Object Dev)
      → has id (g ++ o ∷ []) ≡ (if o.id == id then true else has id g)
  unfolding has
  has-append id [] o = ground arith
  has-append id (p ∷ g) o = ground (arith, has-append id g o)

  Distinct-append :
      (g : Grp Dev) (o : Object Dev) → Distinct g → has o.id g ≡ false → Distinct (g ++ o ∷ [])
  unfolding Distinct has
  Distinct-append [] o d new = (refl, tt)
  Distinct-append (p ∷ g) o (once, d) new = (
    ground (arith, has-append p.id g o, once, new, ==_iff o.id p.id, ==_iff p.id o.id),
    Distinct-append g o d (ground (arith, new)),
  )

  erase_first-append :
      (g : Grp Dev) (o : Object Dev) → has o.id g ≡ false → erase_first o.id (g ++ o ∷ []) ≡ g
  unfolding erase_first has
  erase_first-append [] o new = ground (arith, ==_self o.id)
  erase_first-append (p ∷ g) o new = ground (arith, new, erase_first-append g o)

  has-erase_first : (id : ℕ) (g : Grp Dev) → Distinct g → has id (erase_first id g) ≡ false
  unfolding erase_first has Distinct
  has-erase_first id [] d = refl
  has-erase_first id (p ∷ g) (once, d) =
      ground (arith, once, ==_iff p.id id, has-erase_first id g d)

  -- `add` puts a new object at the end of the group, refuses one that is there, and leaves no object
  -- twice in a group that had none; `remove` after an `add` that succeeded gives the group back.
  pub add-Distinct :
      (o : Object Dev) (g : Grp Dev)
      → Distinct g
      → Distinct (add o g).1
        × ((add o g ≡ (success, g ++ o ∷ [])) × ((remove o.id (add o g).1).1 ≡ g)
            ⊎ (add o g ≡ (failure, g)) × (has o.id g ≡ true))
  unfolding add remove
  add-Distinct o g d = elim (Bool-cases (has o.id g)) [
    | inl there ↦ (rw (there) d, inr (rw (there) refl, there))
    | inr new ↦ (
      rw (new) (Distinct-append g o d new),
      inl (rw (new) refl, rw (new) (erase_first-append g o new)),
    )
  ]

  -- After `remove`, the object is not in a group that had no object twice.
  pub remove-has : (id : ℕ) (g : Grp Dev) → Distinct g → has id (remove id g).1 ≡ false
  unfolding remove
  remove-has id g d = has-erase_first id g d
