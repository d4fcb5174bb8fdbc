-- ===== src/Objects/Groups.antt =====
-- src/pwr/group.h: `Grp`, a list of objects without repetition. Its loops over the attributes, which
-- `DistGrp` overrides, are those of Dist/Group.
pub mod Laws
use pwrapi.Prelude.{
  ℕ, Option, none, some, Bool, true, false, List, [], ◌∷◌, ◌++◌, ◌==◌, if◌then◌else◌,
}
use pwrapi.Prelude.Int.{ℤ, eq_ℤ}
use pwrapi.Objects.{
  success, failure, Status, is_empty, add_error, DeviceOps, Object, Slot, attr_get_values,
  attr_set_values, attr_set_value,
}

abbrev pub Grp : Type 0 → Type 0
Grp Dev = List (Object Dev)

-- The loop of `add` for a duplicate.
unfoldable pub has : {Dev : Type 0} → ℕ → Grp Dev → Bool
has id [] = false
has id (o ∷ g) = let rest = has id g in if o.id == id then true else rest

-- `Grp::add`.
unfoldable pub add : {Dev : Type 0} → Object Dev → Grp Dev → ℤ × Grp Dev
add o g = if has o.id g then (failure, g) else (success, g ++ o ∷ [])

-- `Grp::remove`: the first that is the object.
unfoldable pub erase_first : {Dev : Type 0} → ℕ → Grp Dev → Grp Dev
erase_first id [] = []
erase_first id (o ∷ g) = let rest = erase_first id g in if o.id == id then g else o ∷ rest

unfoldable pub remove : {Dev : Type 0} → ℕ → Grp Dev → ℤ × Grp Dev
remove id g = (success, erase_first id g)
