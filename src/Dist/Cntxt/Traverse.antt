-- ===== src/Dist/Cntxt/Traverse.antt =====
-- What a traversal finds, and that it comes to an end.
use pwrapi.Prelude.{
  ℕ, zero, suc, ◌≡◌, ◌≢◌, ◌⊎◌, ◌↔◌, inl, inr, refl, sym, ap, ◌∙◌, subst, Option, none, some, true,
  false, Bool-cases, List, [], ◌∷◌, Among, >>=-eq-some, arith,
}
use mathlib.Core.Option.{some-injective}
use pwrapi.Prelude.Map.{nat_eq, text_eq, lookup, text_beq_iff}
use pwrapi.Events.{Text}
use pwrapi.Dist.Cntxt.{
  Config, ObjDev, SysDev, Found, insert_name, each, init_device, dev_ops, entries, open_at, add_dev,
  add_devs, is_remote, traverse,
}

insert_name-Among :
    (x y : Text) (ys : List Text) → Among x (insert_name y ys) ↔ (x ≡ y) ⊎ Among x ys
unfolding insert_name
insert_name-Among x y [] = ground arith
insert_name-Among x y (z ∷ ys) = ground (arith, text_beq_iff y z, insert_name-Among x y ys)

open_at-remote :
    (found : Option ℕ) (ops : ℕ) (name : Text) (st : Found)
    → (open_at found ops name st).1.remote ≡ st.remote
unfolding open_at
open_at-remote none ops name st = refl
open_at-remote (some d) ops name st = refl

module _ (cfg : Config) (init : Text → Text → Option ℕ) (root : Text) (attr : ℕ) where
  -- An object with a server that is not the one that is here.
  abbrev pub Elsewhere : Text → Type 0
  Elsewhere x = (cfg.has_server x ≡ true) × (x ≢ root)

  -- An object that another server has, below an object and reached through objects of this one.
  pub data Serves : Text → Text → Type 0 where
    itself : {x : Text} → Elsewhere x → Serves x x
    below :
        {p x : Text} (c : Text)
        → ¬ Elsewhere p
        → Among c (cfg.find_attr_children p attr)
        → Serves c x
        → Serves p x

  is_remote-Elsewhere : (x : Text) → is_remote cfg init root x ≡ true → Elsewhere x
  unfolding is_remote
  is_remote-Elsewhere x far = ground (arith, far, text_beq_iff x root)

  Elsewhere-is_remote : (x : Text) → Elsewhere x → is_remote cfg init root x ≡ true
  unfolding is_remote
  Elsewhere-is_remote x (served, other) = ground (arith, served, other, text_beq_iff x root)

  not_remote : (x : Text) → is_remote cfg init root x ≡ false → ¬ Elsewhere x
  not_remote x near e = absurd (ground (arith, near, Elsewhere-is_remote x e))

  init_device-remote :
      (name : Text) (devs : List SysDev) (st : Found) (ops : ℕ) (st' : Found)
      → init_device cfg init name devs st ≡ some (ops, st')
      → st'.remote ≡ st.remote
  unfolding init_device
  init_device-remote name [] st ops st' h = absurd (ground (arith, h))
  init_device-remote name (dev ∷ devs) st ops st' h =
      ground (arith, h, init_device-remote name devs st ops st')

  dev_ops-remote :
      (found : Option ℕ) (name : Text) (st : Found) (ops : ℕ) (st' : Found)
      → dev_ops cfg init found name st ≡ some (ops, st')
      → st'.remote ≡ st.remote
  unfolding dev_ops
  dev_ops-remote none name st ops st' h = init_device-remote name cfg.find_sys_devs st ops st' h
  dev_ops-remote (some o) name st ops st' h = ground (arith, h)

  add_dev-remote :
      (dev : ObjDev) (st st' : Found) → add_dev cfg init dev st ≡ some st' → st'.remote ≡ st.remote
  unfolding add_dev dev_ops open_at
  add_dev-remote dev st st' h =
      let ((ops, st₁), first, rest) =
        >>=-eq-some (dev_ops cfg init (lookup dev.device st.dev_map) dev.device st) _ h in
      let at = lookup dev.open_string (entries (lookup ops st₁.device_map)) in
      sym (ap (λ (s : Found). s.remote) (some-injective _ _ rest))
      ∙ open_at-remote at ops dev.open_string st₁
      ∙ dev_ops-remote _ dev.device st ops st₁ first

  add_devs-remote :
      (devs : List ObjDev) (st st' : Found)
      → add_devs cfg init devs st ≡ some st'
      → st'.remote ≡ st.remote
  unfolding add_devs
  add_devs-remote [] st st' h = ground (arith, h)
  add_devs-remote (dev ∷ devs) st st' h =
      let (st₁, first, rest) = >>=-eq-some (add_dev cfg init dev st) _ h in
      add_devs-remote devs st₁ st' rest ∙ add_dev-remote dev st st₁ first

  -- What is remote below one of some objects.
  abbrev ServesOne : List Text → Text → Type 0
  ServesOne xs x = (c : Text) × Among c xs × Serves c x

  each-Serves :
      (step : Text → Found → Option Found)
      → ((name : Text) (st st' : Found)
          → step name st ≡ some st'
          → (x : Text) → Among x st'.remote ↔ (Among x st.remote ⊎ Serves name x))
      → (xs : List Text) (st st' : Found) → each step xs st ≡ some st'
      → (x : Text) → Among x st'.remote ↔ (Among x st.remote ⊎ ServesOne xs x)
  unfolding each
  each-Serves step ih [] st st' h x =
      let same : st'.remote ≡ st.remote = ground (arith, h) in
      (
        λ a. inl (subst (Among x) same a),
        λ a. elim a [ inl b ↦ subst (Among x) (sym same) b | inr (c, none_, s) ↦ absurd none_ ],
      )
  each-Serves step ih (y ∷ ys) st st' h x =
      let (st₁, first, rest) = >>=-eq-some (step y st) _ h in
      let (to, from) = ih y st st₁ first x in
      let (to', from') = each-Serves step ih ys st₁ st' rest x in
      (
        λ a. elim (to' a) [
          | inl b ↦ elim (to b) [ inl c ↦ inl c | inr s ↦ inr (y, inl refl, s) ]
          | inr (c, at, s) ↦ inr (c, inr at, s)
        ],
        λ a. elim a [
          | inl b ↦ from' (inl (from (inl b)))
          | inr (c, inl e, s) ↦ from' (inl (from (inr (subst (λ z. Serves z x) e s))))
          | inr (c, inr at, s) ↦ from' (inr (c, at, s))
        ],
      )

  Serves-itself : (name x : Text) → is_remote cfg init root name ≡ true → Serves name x → x ≡ name
  Serves-itself name x far (itself _) = refl
  Serves-itself name x far (below c near at s) = absurd (near (is_remote-Elsewhere name far))

  Serves-below :
      (name x : Text)
      → is_remote cfg init root name ≡ false
      → Serves name x
      → ServesOne (cfg.find_attr_children name attr) x
  Serves-below name x near (itself far) = absurd (not_remote name near far)
  Serves-below name x near (below c _ at s) = (c, at, s)

  -- The remote objects that a traversal adds are those that other servers have, on the way down from
  -- the object to the first such one, and no others.
  pub traverse-Serves :
      (depth : ℕ) (name : Text) (st st' : Found)
      → traverse cfg init depth root attr name st ≡ some st'
      → (x : Text) → Among x st'.remote ↔ (Among x st.remote ⊎ Serves name x)
  unfolding traverse
  traverse-Serves zero name st st' h x = absurd (ground (arith, h))
  traverse-Serves (suc depth) name st st' h x = elim (Bool-cases (is_remote cfg init root name)) [
    | inl far ↦
        let e : st'.remote ≡ insert_name name st.remote = ground (arith, h, far) in
        let (to, from) = insert_name-Among x name st.remote in
        (
          λ a. elim (to (subst (Among x) e a)) [
            | inl q ↦
                inr (subst (λ z. Serves name z) (sym q) (itself (is_remote-Elsewhere name far)))
            | inr b ↦ inl b
          ],
          λ a.
              subst (Among x) (sym e)
                (from (elim a [ inl b ↦ inr b | inr s ↦ inl (Serves-itself name x far s) ])),
        )
    | inr near ↦
        let down = rw (near) at h in
        let (st₁, devs, rest) =
          >>=-eq-some (add_devs cfg init (cfg.find_obj_devs name attr) st) _ down in
        let e : st₁.remote ≡ st.remote = add_devs-remote _ st st₁ devs in
        let (to, from) =
          each-Serves (traverse cfg init depth root attr) (traverse-Serves depth)
            (cfg.find_attr_children name attr) st₁ st' rest x in
        (
          λ a. elim (to a) [
            | inl b ↦ inl (subst (Among x) e b)
            | inr (c, at, s) ↦ inr (below c (not_remote name near) at s)
          ],
          λ a. elim a [
            | inl b ↦ from (inl (subst (Among x) (sym e) b))
            | inr s ↦ from (inr (Serves-below name x near s))
          ],
        )
  ]
