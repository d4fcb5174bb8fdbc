-- ===== src/Dist/Request/Parts.antt =====
-- What a response does to the parts that a request waits for.
use pwrapi.Prelude.{
  ℕ, ◌≡◌, ◌≢◌, inl, inr, refl, sym, ap, ◌∙◌, some, Bool-cases, List, [], ◌∷◌, ◌==◌, ==_iff, All,
  >>=-eq-some, arith,
}
use mathlib.Core.Option.{some-injective}
use pwrapi.Prelude.Map.{nat_eq, lookup, insert, lookup-insert}
use pwrapi.Events.{Text}
use pwrapi.Events.Responses.{CommRespEvent}
use pwrapi.Events.Message.{Message, event_of}
use pwrapi.Dist.{
  Kind, dist_get, dist_set, dist_start_log, dist_stop_log, dist_get_samples, DistCommReq,
  DistRequest, Ctx,
}
use pwrapi.Dist.Request.{
  drop_req, get_value, set_value, set_retval, get_samples, on_resp, on_log_resp, on_samples_resp,
  respond, process,
}

-- The parts of a request are live, and are its own.
abbrev pub Owned : Ctx → ℕ → List ℕ → Type 0
Owned ctx a xs =
    All (λ x. (k : Kind) × (lookup x ctx.comm_reqs ≡ some (record { kind = k; req = a }))) xs

unfoldable pub id_of : Message → ℕ
id_of m = (event_of m).id

module _ (get_obj : Text → ℕ) where
  get_value-comm_reqs :
      (id : ℕ) (ev : CommRespEvent) (r r' : DistRequest)
      → get_value get_obj id ev r ≡ some r'
      → r'.comm_reqs ≡ drop_req id r.comm_reqs
  unfolding get_value
  get_value-comm_reqs id ev r r' h = ground arith

  pub respond-comm_reqs :
      (k : Kind) (id : ℕ) (m : Message) (r r' : DistRequest)
      → respond get_obj k id m r ≡ some r'
      → r'.comm_reqs ≡ drop_req id r.comm_reqs
  unfolding respond on_resp on_log_resp on_samples_resp get_value set_value set_retval get_samples
  respond-comm_reqs dist_get id m r r' h = ground arith
  respond-comm_reqs dist_set id m r r' h = ground arith
  respond-comm_reqs dist_start_log id m r r' h = ground arith
  respond-comm_reqs dist_stop_log id m r r' h = ground arith
  respond-comm_reqs dist_get_samples id m r r' h = ground arith

  drop_req-other :
      (ctx : Ctx) (a id : ℕ) (c : DistCommReq) (xs : List ℕ)
      → Owned ctx a xs
      → lookup id ctx.comm_reqs ≡ some c
      → c.req ≢ a
      → drop_req id xs ≡ xs
  unfolding drop_req
  drop_req-other ctx a id c [] own at ne = refl
  drop_req-other ctx a id c (x ∷ xs) ((k, mine), own) at ne =
      let rest : drop_req id xs ≡ xs = drop_req-other ctx a id c xs own at ne in
      elim (Bool-cases (x == id)) [
        | inl same ↦
            let e : x ≡ id = (==_iff x id).0 same in
            let l : lookup id ctx.comm_reqs ≡ some (record { kind = k; req = a }) =
              rw (e) at mine in
            absurd (ne (ground (arith, l, at)))
        | inr other ↦ rw (other, rest) refl
      ]

  pub Owned-drop_req :
      (ctx : Ctx) (a id : ℕ) (xs : List ℕ) → Owned ctx a xs → Owned ctx a (drop_req id xs)
  unfolding drop_req
  Owned-drop_req ctx a id [] own = own
  Owned-drop_req ctx a id (x ∷ xs) (mine, own) = elim (Bool-cases (x == id)) [
    | inl same ↦ rw (same) (Owned-drop_req ctx a id xs own)
    | inr other ↦ rw (other) (mine, Owned-drop_req ctx a id xs own)
  ]

  pub Owned-same :
      (ctx ctx' : Ctx) (a : ℕ) (xs : List ℕ)
      → ctx'.comm_reqs ≡ ctx.comm_reqs
      → Owned ctx a xs
      → Owned ctx' a xs
  Owned-same ctx ctx' a [] e own = own
  Owned-same ctx ctx' a (x ∷ xs) e ((k, mine), own) =
      ((k, ap (lookup x) e ∙ mine), Owned-same ctx ctx' a xs e own)

  -- What a response does to the parts of a request, whose part it may be or not.
  put-comm_reqs :
      (id : ℕ) (m : Message) (ctx : Ctx) (a : ℕ) (c : DistCommReq) (r r₁ r₂ : DistRequest)
      → lookup id ctx.comm_reqs ≡ some c
      → lookup c.req ctx.requests ≡ some r₁
      → respond get_obj c.kind id m r₁ ≡ some r₂
      → lookup a ctx.requests ≡ some r
      → Owned ctx a r.comm_reqs
      → (r' : DistRequest) × (lookup a (insert c.req r₂ ctx.requests) ≡ some r')
        × (r'.comm_reqs ≡ drop_req id r.comm_reqs)
  put-comm_reqs id m ctx a c r r₁ r₂ found live done at own = elim (Bool-cases (c.req == a)) [
    | inl mine ↦
        let same : r₁ ≡ r = ground (arith, live, at, (==_iff c.req a).0 mine) in
        (
          r₂,
          lookup-insert c.req a r₂ ctx.requests ∙ rw (mine) refl,
          respond-comm_reqs c.kind id m r₁ r₂ done
              ∙ ap (λ (x : DistRequest). drop_req id x.comm_reqs) same,
        )
    | inr other ↦ (
      r,
      lookup-insert c.req a r₂ ctx.requests ∙ rw (other) at,
      sym (drop_req-other ctx a id c r.comm_reqs own found (ground (arith, ==_iff c.req a))),
    )
  ]

  -- What one event does to the parts of a request.
  pub process-comm_reqs :
      (m : Message) (ctx ctx' : Ctx) (a : ℕ) (r : DistRequest)
      → process get_obj m ctx ≡ some ctx'
      → lookup a ctx.requests ≡ some r
      → Owned ctx a r.comm_reqs
      → (r' : DistRequest) × (lookup a ctx'.requests ≡ some r')
        × (r'.comm_reqs ≡ drop_req (id_of m) r.comm_reqs)
        × (ctx'.comm_reqs ≡ ctx.comm_reqs)
  unfolding process id_of
  process-comm_reqs m ctx ctx' a r h at own =
      let (c, found, h₁) = >>=-eq-some (lookup (event_of m).id ctx.comm_reqs) _ h in
      let (r₁, live, h₂) = >>=-eq-some (lookup c.req ctx.requests) _ h₁ in
      let (r₂, done, h₃) = >>=-eq-some (respond get_obj c.kind (event_of m).id m r₁) _ h₂ in
      let (r', put, left) =
        put-comm_reqs (event_of m).id m ctx a c r r₁ r₂ found live done at own in
      let e = some-injective _ _ h₃ in
      (
        r',
        sym (ap (λ (x : Ctx). lookup a x.requests) e) ∙ put,
        left,
        sym (ap (λ (x : Ctx). x.comm_reqs) e),
      )
