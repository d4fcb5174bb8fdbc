-- ===== src/XmlConfig/Location.antt =====
-- The location of an object is its own, or that of the nearest object above it that has one.
use pwrapi.Prelude.{
  ℕ, zero, suc, ◌<◌, ◌≡◌, ◌↔◌, inl, inr, refl, ◌∙◌, subst, none, some, true, false, Bool-cases,
  Option-cases, [], length, >>=-eq-some, arith,
}
use mathlib.Core.Option.{some-injective}
use pwrapi.Chars.{codes, Text}
use pwrapi.Context.{no_names}
use pwrapi.XmlConfig.{Dom, find_parent, get_object, locate, find_obj_location}
use pwrapi.XmlConfig.Paths.{find_parent_shorter}

module _ {Node : Type 0} (dom : Dom Node) (system : Node) where
  -- The place of an object: its own, else that of the object above; the empty text at the top.
  pub data IsAt : Text → Text → Type 0 where
    own :
        {name l : Text} (elm : Node)
        → get_object dom system name ≡ some elm
        → dom.attribute elm (codes "location") ≡ some l
        → IsAt name l
    inherited :
        {name l : Text} (elm : Node)
        → get_object dom system name ≡ some elm
        → dom.attribute elm (codes "location") ≡ none
        → no_names (find_parent name) ≡ false
        → IsAt (find_parent name) l
        → IsAt name l
    nowhere :
        {name : Text} (elm : Node)
        → get_object dom system name ≡ some elm
        → dom.attribute elm (codes "location") ≡ none
        → no_names (find_parent name) ≡ true
        → IsAt name []

  IsAt-locate :
      (fuel : ℕ) (name l : Text)
      → length name < fuel
      → IsAt name l
      → locate dom system fuel name ≡ some l
  unfolding locate
  IsAt-locate zero name l lt at = absurd (omega arith)
  IsAt-locate (suc fuel) name l lt (own elm found here) = rw (found, here) refl
  IsAt-locate (suc fuel) name l lt (inherited elm found missing below at) =
      rw (found, missing, below)
        (IsAt-locate fuel (find_parent name) l (omega (arith, find_parent_shorter name below)) at)
  IsAt-locate (suc fuel) name l lt (nowhere elm found missing top) = rw (found, missing, top) refl

  locate-IsAt : (fuel : ℕ) (name l : Text) → locate dom system fuel name ≡ some l → IsAt name l
  unfolding locate
  locate-IsAt zero name l h = absurd (ground (arith, h))
  locate-IsAt (suc fuel) name l h =
      let (elm, found, rest) = >>=-eq-some (get_object dom system name) _ h in
      elim (Option-cases (dom.attribute elm (codes "location"))) [
        | inr (l', here) ↦ own elm found (here ∙ (rw (here) at rest))
        | inl missing ↦ elim (Bool-cases (no_names (find_parent name))) [
          | inl top ↦
              subst (IsAt name) (some-injective _ _ (rw (missing, top) at rest))
                (nowhere elm found missing top)
          | inr below ↦
              inherited elm found missing below
                (locate-IsAt fuel (find_parent name) l (rw (missing, below) at rest))
        ]
      ]

  -- `findObjLocation` returns a text exactly when the text is the object's own location, or else that
  -- of the nearest object above it by name that has one, or else empty, and all of the objects on the
  -- way are there.
  pub find_obj_location-IsAt :
      (name l : Text) → (find_obj_location dom system name ≡ some l) ↔ IsAt name l
  unfolding find_obj_location
  find_obj_location-IsAt name l =
      (locate-IsAt (suc (length name)) name l, IsAt-locate (suc (length name)) name l (omega arith))
