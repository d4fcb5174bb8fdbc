-- ===== src/Dist/Request/Wait.antt =====
-- `DistRequest::wait` refines a set of outstanding parts from which each event takes one.
use pwrapi.Prelude.{
  ℕ, suc, ◌≡◌, ◌≢◌, ◌↔◌, ◌⊎◌, inl, inr, refl, sym, ap, ◌∙◌, subst, Option, some, Bool, true, false,
  Bool-cases, List, [], ◌∷◌, map, ◌==◌, ==_iff, if◌then◌else◌, Among, take, drop, ◌>>=◌,
  >>=-eq-some, arith,
}
use pwrapi.Prelude.Int.{ℤ}
use pwrapi.Prelude.Map.{nat_eq, lookup, insert}
use pwrapi.Objects.{success}
use pwrapi.Events.{Text}
use pwrapi.Events.Message.{Message}
use pwrapi.Dist.{DistRequest, Ctx}
use pwrapi.Dist.Request.{ret_ipc, finished, no_reqs, exec_callback, drop_req, process, wait}
use pwrapi.Dist.Request.Parts.{Owned, id_of, Owned-drop_req, Owned-same, process-comm_reqs}

-- Every event of a list is processed, one after another.
unfoldable pub process_all : (Text → ℕ) → List Message → Ctx → Option Ctx
process_all get_obj [] ctx = some ctx
process_all get_obj (m ∷ ms) ctx = process get_obj m ctx >>= process_all get_obj ms

-- The abstract wait: whether all of the parts are answered by events with the ids, and by how many.
unfoldable pub await : List ℕ → List ℕ → Bool × ℕ
await [] ids = (true, 0)
await (x ∷ xs) [] = (false, 0)
await (x ∷ xs) (i ∷ ids) = let (done, n) = await (drop_req i (x ∷ xs)) ids in (done, suc n)

module _ (get_obj : Text → ℕ) where
  -- What `wait` does, when it takes `n` events and the parts are done or not.
  abbrev pub Waited : ℕ → List Message → Ctx → Bool × ℕ → Type 0
  Waited a ms ctx (done, n) =
      (ctx₁ : Ctx) × (r₁ : DistRequest) × (process_all get_obj (take n ms) ctx ≡ some ctx₁)
      × (lookup a ctx₁.requests ≡ some r₁)
      × (finished r₁ ≡ done)
      × (wait get_obj a ms ctx
          ≡ some (
            if done then success else ret_ipc,
            drop n ms,
            if done
                then record ctx₁ { requests = insert a (exec_callback r₁) ctx₁.requests }
                else ctx₁,
          ))

  step-Waited :
      (m : Message) (ms : List Message) (ctx ctx₁ : Ctx) (a : ℕ) (r : DistRequest) (out : Bool × ℕ)
      → lookup a ctx.requests ≡ some r
      → finished r ≡ false
      → process get_obj m ctx ≡ some ctx₁
      → Waited a ms ctx₁ out
      → Waited a (m ∷ ms) ctx (out.0, suc out.1)
  unfolding wait process_all
  step-Waited m ms ctx ctx₁ a r (done, n) at more step (ctx₂, r₂, run, at₂, end, result) =
      (ctx₂, r₂, rw (step) run, at₂, end, rw (at, more, step) result)

  wait-parts :
      (xs : List ℕ) (ms : List Message) (ctx ctx' : Ctx) (a : ℕ) (r : DistRequest)
      → r.comm_reqs ≡ xs
      → process_all get_obj ms ctx ≡ some ctx'
      → lookup a ctx.requests ≡ some r
      → Owned ctx a xs
      → Waited a ms ctx (await xs (map id_of ms))
  unfolding await finished no_reqs process_all wait
  wait-parts [] [] ctx ctx' a r e h at own = (ctx, r, refl, at, rw (e) refl, rw (at, e) refl)
  wait-parts [] (m ∷ ms) ctx ctx' a r e h at own = (ctx, r, refl, at, rw (e) refl, rw (at, e) refl)
  wait-parts (x ∷ xs) [] ctx ctx' a r e h at own = (ctx, r, refl, at, rw (e) refl, rw (at, e) refl)
  wait-parts (x ∷ xs) (m ∷ ms) ctx ctx' a r e h at own =
      let (ctx₁, step, rest) = >>=-eq-some (process get_obj m ctx) _ h in
      let (r', at', left, table) =
        process-comm_reqs get_obj m ctx ctx₁ a r step at (subst (Owned ctx a) (sym e) own) in
      step-Waited m ms ctx ctx₁ a r _ at (rw (e) refl) step (
        wait-parts (drop_req (id_of m) (x ∷ xs)) ms ctx₁ ctx' a r'
          (left ∙ ap (drop_req (id_of m)) e) rest at'
          (Owned-same get_obj ctx ctx₁ a _ table
            (Owned-drop_req get_obj ctx a (id_of m) (x ∷ xs) own)))

  -- `wait` refines `await`: if every event that comes is processed without a fault, and the request's
  -- parts are its own, then `wait` takes as many events as `await` counts, and processes them. If
  -- `await` finds every part answered, it returns success with the request finished, after a call of
  -- the callback, if there is one; if not, it returns PWR_RET_IPC and the request is not finished.
  pub wait-await :
      (ms : List Message) (ctx ctx' : Ctx) (a : ℕ) (r : DistRequest)
      → process_all get_obj ms ctx ≡ some ctx'
      → lookup a ctx.requests ≡ some r
      → Owned ctx a r.comm_reqs
      → Waited a ms ctx (await r.comm_reqs (map id_of ms))
  wait-await ms ctx ctx' a r h at own = wait-parts r.comm_reqs ms ctx ctx' a r refl h at own

drop_req-Among : (i x : ℕ) (xs : List ℕ) → Among x (drop_req i xs) ↔ (Among x xs × (x ≢ i))
unfolding drop_req
drop_req-Among i x [] = ground arith
drop_req-Among i x (y ∷ ys) = ground (arith, ==_iff y i, drop_req-Among i x ys)

-- Every part is answered exactly if each of them is among the ids.
await-Among : (xs ids : List ℕ) → ((await xs ids).0 ≡ true) ↔ ((x : ℕ) → Among x xs → Among x ids)
unfolding await
await-Among [] ids = (λ e x h. absurd h, λ f. refl)
await-Among (x ∷ xs) [] = (λ e. cc, λ f. absurd (f x (inl refl)))
await-Among (x ∷ xs) (i ∷ ids) =
    let (to, back) = await-Among (drop_req i (x ∷ xs)) ids in
    (
      λ e y h. elim (Bool-cases (y == i)) [
        | inl same ↦ inl ((==_iff y i).0 same)
        | inr other ↦ inr (to e y ((drop_req-Among i y (x ∷ xs)).1 (h, ground (arith, ==_iff y i))))
      ],
      λ f. back (λ y h.
          let (there, ne) = (drop_req-Among i y (x ∷ xs)).0 h in
          elim (f y there) [ inl same ↦ absurd (ne same) | inr later ↦ later ]),
    )

code_of :
    (done : Bool)
    → (((if done then success else ret_ipc) ≡ success) ↔ (done ≡ true))
      × (((if done then success else ret_ipc) ≡ success)
          ⊎ ((if done then success else ret_ipc) ≡ ret_ipc))
code_of true = ((λ e. refl, λ e. refl), inl refl)
code_of false = ((λ e. ground arith, λ e. ground arith), inr refl)

module _ (get_obj : Text → ℕ) where
  -- `wait` comes to an end, and returns success exactly if each part that the request waits for is
  -- the id of an event that comes, in whatever order and among whatever others; else it returns
  -- PWR_RET_IPC. The events are processed without a fault, and the request's parts are its own.
  pub wait-Among :
      (ms : List Message) (ctx ctx' : Ctx) (a : ℕ) (r : DistRequest)
      → process_all get_obj ms ctx ≡ some ctx'
      → lookup a ctx.requests ≡ some r
      → Owned ctx a r.comm_reqs
      → (ret : ℤ) × (rest : List Message) × (ctx₁ : Ctx) × (wait get_obj a ms ctx
          ≡ some (ret, rest, ctx₁))
        × ((ret ≡ success) ↔ ((x : ℕ) → Among x r.comm_reqs → Among x (map id_of ms)))
        × ((ret ≡ success) ⊎ (ret ≡ ret_ipc))
  wait-Among ms ctx ctx' a r h at own =
      let (ctx₁, r₁, run, at₁, end, result) = wait-await get_obj ms ctx ctx' a r h at own in
      let all = await-Among r.comm_reqs (map id_of ms) in
      let (code, either) = code_of (await r.comm_reqs (map id_of ms)).0 in
      (_, _, _, result, (λ e. all.0 (code.0 e), λ f. code.1 (all.1 f)), either)
