-- ===== src/Context/Named.antt =====
-- The objects of a context by their names.
use pwrapi.Prelude.{
  ℕ, suc, ◌<◌, ◌≡◌, ◌⊎◌, inl, inr, refl, ap, ◌∙◌, subst, none, some, true, Bool-cases, Option-cases,
  ◌==◌, ==_iff, arith,
}
use mathlib.Core.Option.{some-injective}
use pwrapi.Prelude.Map.{
  nat_eq, text_eq, text_beq, text_beq_iff, lookup, insert, lookup-insert, lookup-insert_self,
  beq_self,
}
use pwrapi.Events.{Text}
use pwrapi.Names.{obj_invalid}
use pwrapi.Context.{Obj, ObjConfig, Context, same_type, create_object, find_object, find_object_at}

-- Every name of `m_objMap` is that of a live object with the type that the configuration has for the
-- name, and the next address is not taken.
pub record IsKept (cfg : ObjConfig) (st : Context) : Type 0 where
  pub named :
      (name : Text) (a : ℕ)
      → lookup name st.obj_map ≡ some a
      → lookup a st.objects ≡ some (record { name = name; type = cfg.obj_type name })
  pub fresh : (a : ℕ) (o : Obj) → lookup a st.objects ≡ some o → a < st.next

module _ (cfg : ObjConfig) where
  -- Where an object of some context is kept, it is kept after another is created.
  pub create_object-keeps :
      (name : Text) (st : Context) (a : ℕ) (o : Obj)
      → IsKept cfg st
      → lookup a st.objects ≡ some o
      → lookup a (create_object name (cfg.obj_type name) st).objects ≡ some o
  unfolding create_object
  create_object-keeps name st a o k at = ground (
    arith,
    at,
    k.fresh a o at,
    lookup-insert st.next a (record { name = name; type = cfg.obj_type name }) st.objects,
    ==_iff st.next a,
  )

  abbrev made : Text → Obj
  made name = record { name = name; type = cfg.obj_type name }

  -- The new object has the next address.
  create_object-named :
      (name x : Text) (st : Context) (a : ℕ)
      → text_beq name x ≡ true
      → lookup x (create_object name (cfg.obj_type name) st).obj_map ≡ some a
      → lookup a (create_object name (cfg.obj_type name) st).objects ≡ some (made x)
  unfolding create_object
  create_object-named name x st a same at =
      let e : name ≡ x = (text_beq_iff name x).0 same in
      let here : st.next ≡ a =
        some-injective _ _ (rw (lookup-insert name x st.next st.obj_map, same) at at) in
      subst (λ b. lookup b (insert st.next (made name) st.objects) ≡ some (made x)) here
        (lookup-insert_self st.next (made name) st.objects ∙ ap (λ y. some (made y)) e)

  create_object-fresh :
      (name : Text) (st : Context) (a : ℕ) (o : Obj)
      → IsKept cfg st
      → lookup a (create_object name (cfg.obj_type name) st).objects ≡ some o
      → a < suc st.next
  unfolding create_object
  create_object-fresh name st a o k at = elim (Bool-cases (st.next == a)) [
    | inl same ↦ omega (arith, (==_iff st.next a).0 same)
    | inr other ↦
        omega
          (arith, k.fresh a o (rw (lookup-insert st.next a (made name) st.objects, other) at at))
  ]

  create_object-IsKept :
      (name : Text) (st : Context)
      → IsKept cfg st
      → IsKept cfg (create_object name (cfg.obj_type name) st)
  unfolding create_object
  create_object-IsKept name st k = record {
    named = λ x a at. elim (Bool-cases (text_beq name x)) [
      | inl same ↦ create_object-named name x st a same at
      | inr other ↦
          create_object-keeps name st a (made x) k
            (k.named x a (rw (lookup-insert name x st.next st.obj_map, other) at at))
    ];
    fresh = λ a o at. create_object-fresh name st a o k at;
  }

  -- A name is found as an object of that name with the type of the configuration, or not at all
  -- where the configuration has no type for it; the names of the context stay those of live
  -- objects, and the name is found again as the same.
  pub find_object-IsKept :
      (name : Text) (st : Context)
      → IsKept cfg st
      → let (found, st') = find_object cfg name st in
        IsKept cfg st'
        × (((a : ℕ) × (found ≡ some a) × (lookup a st'.objects ≡ some (made name)))
            ⊎ (found ≡ none) × (same_type (cfg.obj_type name) obj_invalid ≡ true))
        × (find_object cfg name st' ≡ (found, st'))
  unfolding find_object find_object_at create_object
  find_object-IsKept name st k = elim (Option-cases (lookup name st.obj_map)) [
    | inr (a, at) ↦
        (rw (at) k, inl (a, rw (at) refl, rw (at) (k.named name a at)), rw (at) (rw (at) refl))
    | inl missing ↦ elim (Bool-cases (same_type (cfg.obj_type name) obj_invalid)) [
      | inl invalid ↦ (
        rw (missing, invalid) k,
        inr (rw (missing, invalid) refl, invalid),
        rw (missing, invalid) (rw (missing, invalid) refl),
      )
      | inr valid ↦
          let at = lookup-insert_self name st.next st.obj_map in
          (
            rw (missing, valid) (create_object-IsKept name st k),
            inl (
              st.next,
              rw (missing, valid) refl,
              rw (missing, valid) (create_object-named name name st st.next (beq_self name) at),
            ),
            rw (missing, valid) (rw (at) refl),
          )
    ]
  ]
