-- ===== src/Dist/Cntxt/Ends.antt =====
-- A traversal of a tree comes to an end.
use pwrapi.Prelude.{
  ℕ, zero, suc, ◌<◌, ◌≡◌, inl, inr, refl, Option, some, Bool-cases, List, [], ◌∷◌, Among, arith,
}
use pwrapi.Events.{Text}
use pwrapi.Dist.Cntxt.{
  Config, ObjDev, Found, insert_name, each, add_dev, add_devs, is_remote, traverse,
}

module _ (cfg : Config) (init : Text → Text → Option ℕ) (root : Text) (attr : ℕ) where
  opens_all :
      (devs : List ObjDev) (st : Found)
      → ((dev : ObjDev) (s : Found)
          → Among dev devs
          → (s' : Found) × (add_dev cfg init dev s ≡ some s'))
      → (st' : Found) × (add_devs cfg init devs st ≡ some st')
  unfolding add_devs
  opens_all [] st f = (st, refl)
  opens_all (dev ∷ devs) st f =
      let (st₁, first) = f dev st (inl refl) in
      let (st₂, rest) = opens_all devs st₁ (λ d s at. f d s (inr at)) in (st₂, rw (first) rest)

  each_all :
      (step : Text → Found → Option Found) (xs : List Text) (st : Found)
      → ((c : Text) (s : Found) → Among c xs → (s' : Found) × (step c s ≡ some s'))
      → (st' : Found) × (each step xs st ≡ some st')
  unfolding each
  each_all step [] st f = (st, refl)
  each_all step (x ∷ xs) st f =
      let (st₁, first) = f x st (inl refl) in
      let (st₂, rest) = each_all step xs st₁ (λ c s at. f c s (inr at)) in (st₂, rw (first) rest)

  -- A traversal ends without a failed assertion when the children of an object have a lower rank
  -- than it has, the devices of the objects can be opened, and the depth is more than the rank of
  -- the object.
  pub traverse_total :
      (rank : Text → ℕ)
      → ((p c : Text) → Among c (cfg.find_attr_children p attr) → rank c < rank p)
      → ((p : Text) (dev : ObjDev) (st : Found)
          → Among dev (cfg.find_obj_devs p attr)
          → (st' : Found) × (add_dev cfg init dev st ≡ some st'))
      → (depth : ℕ) (name : Text) (st : Found) → rank name < depth
      → (st' : Found) × (traverse cfg init depth root attr name st ≡ some st')
  unfolding traverse
  traverse_total rank falls opens zero name st lt = absurd (omega arith)
  traverse_total rank falls opens (suc depth) name st lt =
      let (st₁, devs) = opens_all (cfg.find_obj_devs name attr) st (opens name) in
      let (st₂, down) =
        each_all (traverse cfg init depth root attr) (cfg.find_attr_children name attr) st₁
          (λ c s at. traverse_total rank falls opens depth c s (omega (arith, falls name c at))) in
      elim (Bool-cases (is_remote cfg init root name)) [
        | inl far ↦ (record st { remote = insert_name name st.remote }, rw (far) refl)
        | inr near ↦ (st₂, rw (near, devs) down)
      ]
