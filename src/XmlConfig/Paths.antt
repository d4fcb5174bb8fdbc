-- ===== src/XmlConfig/Paths.antt =====
-- The name of an object is that of the object above it, a dot, and its own.
use pwrapi.Prelude.{
  ℕ, zero, suc, ◌+◌, ◌≤◌, ◌<◌, ◌≡◌, ◌⊎◌, inl, inr, refl, sym, subst, ap, ◌∙◌, Option, some, Bool,
  true, false, Bool-cases, List, [], ◌∷◌, ◌==◌, ==_iff, if◌then◌else◌, length, take, Among,
  >>=-eq-some, arith,
}
use mathlib.Core.Option.{some-injective}
use pwrapi.Prelude.Map.{text_beq, text_beq_iff}
use pwrapi.Chars.{codes, Text, npos, find_last_from}
use pwrapi.Chars.Fields.{Without, find_last_from-append, take-append}
use pwrapi.Context.{no_names}
use pwrapi.XmlConfig.{
  Dom, dotted, find_parent, assert, children_from, find_children, no_nodes, find_with, get_object,
  find_object, find_nodes1st_child,
}

-- A hit is inside the text.
find_last_from_bounds :
    (i last c : ℕ) (s : Text)
    → (find_last_from i last c s ≡ last) ⊎ (find_last_from i last c s < i + length s)
unfolding find_last_from
find_last_from_bounds i last c [] = inl refl
find_last_from_bounds i last c (x ∷ s) =
    ground (arith, find_last_from_bounds (i + 1) (if x == c then i else last) c s)

length-take : (n : ℕ) (s : Text) → length (take n s) ≤ n
length-take zero s = omega arith
length-take (suc n) [] = omega arith
length-take (suc n) (x ∷ s) = omega (arith, length-take n s)

-- The object above has a shorter name.
pub find_parent_shorter :
    (name : Text) → no_names (find_parent name) ≡ false → length (find_parent name) < length name
unfolding find_parent no_names
find_parent_shorter name h =
    let pos = find_last_from 0 npos b'.' name in
    elim (Bool-cases (pos == npos)) [
      | inl none_ ↦ absurd (ground (arith, h, none_))
      | inr dot ↦ ground (
        arith,
        dot,
        find_last_from_bounds 0 npos b'.' name,
        length-take pos name,
        ==_iff pos npos,
      )
    ]

-- A child's own name has no dot: the name that it has below an object leads back to the object.
pub find_parent-dotted :
    (name child : Text)
    → Without b'.' child
    → length name < npos
    → find_parent (dotted name child) ≡ name
unfolding find_parent
find_parent-dotted name child plain short =
    let e : find_last_from 0 npos b'.' (dotted name child) ≡ length name =
      find_last_from-append 0 npos b'.' name child plain ∙ omega arith in
    let inside : (length name == npos) ≡ false = ground (arith, short) in
    rw (e, inside) (take-append name (b'.' ∷ child))

pub assert-eq-some :
    {A : Type 0} (b : Bool) (m : Option A) {a : A} → assert b m ≡ some a → (b ≡ true) × (m ≡ some a)
unfolding assert
assert-eq-some true m h = (refl, h)
assert-eq-some false m h = cc

module _ {Node : Type 0} (dom : Dom Node) where
  -- The own names of some nodes have no dot.
  abbrev pub PlainNames : List Node → Type 0
  PlainNames ns =
      (n : Node) (x : Text) → Among n ns → dom.attribute n (codes "name") ≡ some x → Without b'.' x

  children_from-parent :
      (name : Text) (ns : List Node) (cs : List Text)
      → PlainNames ns
      → length name < npos
      → children_from dom name ns ≡ some cs
      → (c : Text) → Among c cs
      → find_parent c ≡ name
  unfolding children_from
  children_from-parent name [] cs plain short h c at =
      absurd (subst (Among c) (sym (some-injective _ _ h)) at)
  children_from-parent name (n ∷ ns) cs plain short h c at =
      let (is_child, named) = assert-eq-some (text_beq (dom.name n) (codes "child")) _ h in
      let (child, has_name, more) = >>=-eq-some (dom.attribute n (codes "name")) _ named in
      let (rest, others, last) = >>=-eq-some (children_from dom name ns) _ more in
      elim (subst (Among c) (sym (some-injective _ _ last)) at) [
        | inl e ↦
            let own = plain n child (inl refl) has_name in
            ap find_parent e ∙ find_parent-dotted name child own short
        | inr below ↦
            children_from-parent name ns rest (λ m x b. plain m x (inr b)) short others c below
      ]

  -- What is found by an attribute has it.
  pub find_with-some :
      (attr value : Text) (ns : List Node) (n : Node)
      → find_with dom attr value ns ≡ some (some n)
      → Among n ns × (dom.attribute n attr ≡ some value)
  unfolding find_with
  find_with-some attr value [] n h = absurd (ground (arith, h))
  find_with-some attr value (m ∷ ns) n h =
      let (v, has_attr, found) = >>=-eq-some (dom.attribute m attr) _ h in
      elim (Bool-cases (text_beq value v)) [
        | inl same ↦
            let e : m ≡ n = some-injective _ _ (some-injective _ _ (rw (same) at found)) in
            (
              inl (sym e),
              ap (λ (k : Node). dom.attribute k attr) (sym e)
                  ∙ has_attr
                  ∙ ap some (sym ((text_beq_iff value v).0 same)),
            )
        | inr other ↦
            let (there, has) = find_with-some attr value ns n (rw (other) at found) in
            (inr there, has)
      ]

  -- The text that is put before the children's names, if there are any.
  abbrev Prefixed : List Node → Text → Option Text → Type 0
  Prefixed ns below name = (if no_nodes ns then some [] else name) ≡ some below

  prefix-name :
      (name below : Text) (ns : List Node) (cs : List Text)
      → Prefixed ns below (some name)
      → children_from dom below ns ≡ some cs
      → children_from dom name ns ≡ some cs
  unfolding children_from no_nodes
  prefix-name name below [] cs e h = h
  prefix-name name below (n ∷ ns) cs e h =
      ap (λ (t : Text). children_from dom t (n ∷ ns)) (some-injective _ _ e) ∙ h

  module _ (system : Node) where
    -- `findObject` gives an object of that name.
    pub get_object-name :
        (name : Text) (obj : Node)
        → get_object dom system name ≡ some obj
        → dom.attribute obj (codes "name") ≡ some name
    unfolding get_object find_object
    get_object-name name obj h =
        let (found, looked, is_found) = >>=-eq-some (find_object dom system name) _ h in
        (find_with-some (codes "name") name _ obj (looked ∙ ap some is_found)).1

    -- The names that `findChildren` gives for an object lead back to it by `findParent`, if the
    -- children's own names have no dot.
    pub find_parent-find_children :
        (name : Text) (obj : Node) (cs : List Text)
        → get_object dom system name ≡ some obj
        → PlainNames (find_nodes1st_child dom (codes "children") (dom.children obj))
        → length name < npos
        → find_children dom system name ≡ some cs
        → (c : Text) → Among c cs
        → find_parent c ≡ name
    unfolding find_children
    find_parent-find_children name obj cs found plain short h c at =
        let nodes = find_nodes1st_child dom (codes "children") (dom.children obj) in
        let (below, prefix, all) =
          >>=-eq-some (if no_nodes nodes then some [] else dom.attribute obj (codes "name")) _
            (rw (found) at h) in
        let own = subst (Prefixed nodes below) (get_object-name name obj found) prefix in
        children_from-parent name nodes cs plain short (prefix-name name below nodes cs own all) c
          at
