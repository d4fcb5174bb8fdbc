-- ===== src/Context/Grouped.antt =====
-- The group of the objects of a type.
use pwrapi.Prelude.{
  ℕ, zero, suc, ◌<◌, ◌≤◌, ◌≢◌, ◌++◌, subst, ◌≡◌, inl, inr, refl, sym, ap, ◌∙◌, Option, none, some,
  Bool-cases, Option-cases, List, [], ◌∷◌, >>=-eq-some, arith,
}
use mathlib.Core.Option.{some-injective}
use pwrapi.Prelude.Map.{nat_eq, text_eq, lookup, insert}
use pwrapi.Events.{Text}
use pwrapi.Names.{ObjType}
use pwrapi.Context.{
  ObjConfig, Context, find_object, find_object_at, create_object, with_object, each_name, in_list,
  add_to, new_grp, create_grp, get_grp_by_name, same_type, find_all_obj_type, kept, keep_grp,
  grp_name, get_grp, get_grp_at,
}

-- A step that leaves the names of the groups as they are, and gives out no address again.
abbrev KeepsNames : (Context → Option Context) → Type 0
KeepsNames f =
    (st st' : Context) → f st ≡ some st' → (st'.group_map ≡ st.group_map) × (st.next ≤ st'.next)

KeepsNames-trans :
    (a b c : Context)
    → (b.group_map ≡ a.group_map) × (a.next ≤ b.next)
    → (c.group_map ≡ b.group_map) × (b.next ≤ c.next)
    → (c.group_map ≡ a.group_map) × (a.next ≤ c.next)
KeepsNames-trans a b c h k = (k.0 ∙ h.0, omega (arith, h.1, k.1))

KeepsNames-same : (a b : Context) → a ≡ b → (b.group_map ≡ a.group_map) × (a.next ≤ b.next)
KeepsNames-same a b e =
    subst (λ (c : Context). (c.group_map ≡ a.group_map) × (a.next ≤ c.next)) e (refl, omega arith)

each_name-KeepsNames :
    (step : Text → Context → Option Context) (xs : List Text)
    → ((x : Text) → KeepsNames (step x))
    → KeepsNames (each_name step xs)
unfolding each_name
each_name-KeepsNames step [] f st st' h = KeepsNames-same st st' (some-injective _ _ h)
each_name-KeepsNames step (x ∷ xs) f st st' h =
    let (st₁, first, rest) = >>=-eq-some (step x st) _ h in
    KeepsNames-trans st st₁ st' (f x st st₁ first) (each_name-KeepsNames step xs f st₁ st' rest)

module _ (cfg : ObjConfig) where
  find_object_at-kept :
      (found : Option ℕ) (type : ObjType) (name : Text) (st : Context)
      → ((find_object_at found type name st).1.group_map ≡ st.group_map)
        × (st.next ≤ (find_object_at found type name st).1.next)
  unfolding find_object_at create_object
  find_object_at-kept (some a) type name st = (refl, omega arith)
  find_object_at-kept none type name st = (ground arith, ground arith)

  with_object-KeepsNames :
      (f : ℕ → Context → Option Context) (name : Text)
      → ((a : ℕ) → KeepsNames (f a))
      → KeepsNames (with_object cfg f name)
  unfolding with_object find_object
  with_object-KeepsNames f name keeps st st' h =
      let (a, found, rest) = >>=-eq-some (find_object cfg name st).0 _ h in
      KeepsNames-trans st (find_object cfg name st).1 st'
        (find_object_at-kept (lookup name st.obj_map) (cfg.obj_type name) name st)
        (keeps a (find_object cfg name st).1 st' rest)

  add_to-KeepsNames : (g a : ℕ) → KeepsNames (add_to g a)
  unfolding add_to
  add_to-KeepsNames g a st st' h =
      let (os, at, rest) = >>=-eq-some (lookup g st.groups) _ h in
      elim (Bool-cases (in_list a os)) [
        | inl there ↦ KeepsNames-same st st' (some-injective _ _ (rw (there) at rest))
        | inr new ↦
            KeepsNames-same (record st { groups = insert g (os ++ a ∷ []) st.groups }) st'
              (some-injective _ _ (rw (new) at rest))
      ]

  find_all-KeepsNames :
      (depth : ℕ) (type : ObjType) (g a : ℕ) → KeepsNames (find_all_obj_type cfg depth type g a)
  unfolding find_all_obj_type
  find_all-KeepsNames zero type g a st st' h = absurd (ground (arith, h))
  find_all-KeepsNames (suc depth) type g a st st' h =
      let (o, live, rest) = >>=-eq-some (lookup a st.objects) _ h in
      elim (Bool-cases (same_type o.type type)) [
        | inl same ↦ add_to-KeepsNames g a st st' (rw (same) at rest)
        | inr other ↦
            each_name-KeepsNames (with_object cfg (find_all_obj_type cfg depth type g))
              (cfg.find_children o.name)
              (λ x.
                with_object-KeepsNames (find_all_obj_type cfg depth type g) x
                  (λ b. find_all-KeepsNames depth type g b))
              st st' (rw (other) at rest)
      ]

  kept-some :
      (g h : ℕ) (os : List ℕ) (st st' : Context)
      → kept g os st ≡ (some h, st')
      → (g ≡ h) × (st ≡ st')
  unfolding kept
  kept-some g h [] st st' e = absurd (ground (arith, ap (λ (r : Option ℕ × Context). r.0) e))
  kept-some g h (o ∷ os) st st' e = (
    some-injective _ _ (ap (λ (r : Option ℕ × Context). r.0) e),
    ap (λ (r : Option ℕ × Context). r.1) e,
  )

  get_grp_at-new :
      (depth : ℕ) (type : ObjType) (name : Text) (g : ℕ) (st st' : Context)
      → get_grp_at cfg (lookup name st.group_map) depth type name st ≡ some (some g, st')
      → (lookup name st'.group_map ≡ none) × (g ≡ st.next) × (st.next < st'.next)
  unfolding get_grp_at create_grp new_grp keep_grp
  get_grp_at-new depth type name g st st' h = elim (Option-cases (lookup name st.group_map)) [
    | inr (g', there) ↦
        let refused = rw (there) at h in
        absurd (ground (arith, ap (λ (r : Option ℕ × Context). r.0) (some-injective _ _ refused)))
    | inl new ↦
        let (st₂, all, rest) =
          >>=-eq-some (find_all_obj_type cfg depth type st.next st.root (new_grp st).1) _
            (rw (new) at h) in
        let (os, live, last) = >>=-eq-some (lookup st.next st₂.groups) _ rest in
        let (same, end_) = kept-some st.next g os st₂ st' (some-injective _ _ last) in
        let steps = find_all-KeepsNames depth type st.next st.root (new_grp st).1 st₂ all in
        (
          ap (λ (s : Context). lookup name s.group_map) (sym end_) ∙ ap (lookup name) steps.0 ∙ new,
          sym same,
          subst (λ (s : Context). st.next < s.next) end_ (omega (arith, steps.1)),
        )
  ]

  -- A group that `getGrp` gives is not found by its name, and asking for the type again, when it
  -- gives a group, gives another one.
  pub get_grp_again :
      (depth depth' : ℕ) (type : ObjType) (g h : ℕ) (st st' st'' : Context)
      → get_grp cfg depth type st ≡ some (some g, st')
      → get_grp cfg depth' type st' ≡ some (some h, st'')
      → (get_grp_by_name (grp_name type) st' ≡ none) × (h ≢ g)
  unfolding get_grp get_grp_by_name
  get_grp_again depth depth' type g h st st' st'' first second =
      let (unnamed, at, more) = get_grp_at-new depth type (grp_name type) g st st' first in
      let (_, at', _) = get_grp_at-new depth' type (grp_name type) h st' st'' second in
      (unnamed, λ e. absurd (omega (arith, at, at', more, e)))
