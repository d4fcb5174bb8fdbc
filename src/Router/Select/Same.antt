-- ===== src/Router/Select/Same.antt =====
-- No event of a client, a server or a router adds a client or takes one away.
use pwrapi.Prelude.{
  ℕ, ◌≡◌, ◌↔◌, inl, inr, refl, sym, ap, ◌∙◌, Option, some, Bool-cases, [], ◌∷◌, ◌==◌, ==_iff,
  >>=-eq-some, arith,
}
use mathlib.Core.Option.{some-injective}
use pwrapi.Prelude.Map.{nat_eq, lookup, insert, lookup-insert}
use pwrapi.Events.Message.{Message, create, req, log_req, samples_req, routed}
use pwrapi.Events.{CommCreateEvent}
use pwrapi.Events.Requests.{CommReqEvent, CommLogReqEvent, CommGetSamplesReqEvent}
use pwrapi.Router.Send.{State, Request}
use pwrapi.Router.Clients.{
  Clients, Client, Target, send_each, create_targets, process_create, process_req, add_comm,
}
use pwrapi.Router.Clients.Logs.{process_log_req, process_samples_req, one_object, ask_one}
use pwrapi.Router.Select.{
  Side, client_side, server_side, router_side, with_state, process_client, process_server,
  process_router, process_on,
}

-- The router has a client on a channel.
abbrev pub Known : ℕ → Clients → Type 0
Known ec r = (c : Client) × (lookup ec r.clients ≡ some c)

-- The same clients.
abbrev pub Same : Clients → Clients → Type 0
Same r r' = (k : ℕ) → Known k r' ↔ Known k r

pub Same-clients : (r r' : Clients) → r'.clients ≡ r.clients → Same r r'
Same-clients r r' e k = (λ h. (h.0, ap (lookup k) (sym e) ∙ h.1), λ h. (h.0, ap (lookup k) e ∙ h.1))

with_state-Same : (r r' : Clients) (st : Option State) → with_state r st ≡ some r' → Same r r'
with_state-Same r r' st h =
    let (st', made, e) = >>=-eq-some st _ h in
    Same-clients r r' (ap (λ (q : Clients). q.clients) (sym (some-injective _ _ e)))

-- A client that is known is written again.
insert-Same :
    (r r' : Clients) (ec : ℕ) (old new : Client)
    → lookup ec r.clients ≡ some old
    → r'.clients ≡ insert ec new r.clients
    → Same r r'
insert-Same r r' ec old new at e k =
    let here = ap (lookup k) e ∙ lookup-insert ec k new r.clients in
    elim (Bool-cases (ec == k)) [
      | inl same ↦
          let is : ec ≡ k = (==_iff ec k).0 same in
          (
            λ h. (old, ap (λ j. lookup j r.clients) (sym is) ∙ at),
            λ h. (new, here ∙ rw (same) refl),
          )
      | inr other ↦
          (λ h. (h.0, sym (here ∙ rw (other) refl) ∙ h.1), λ h. (h.0, here ∙ rw (other) h.1))
    ]

module _ (fp_add : ℕ → ℕ → ℕ) where
  create-Same :
      (ec : ℕ) (ev : CommCreateEvent) (r r' : Clients)
      → process_create fp_add ec ev r ≡ some r'
      → Same r r'
  unfolding process_create
  create-Same ec ev r r' h =
      let (client, known, h₁) = >>=-eq-some (lookup ec r.clients) _ h in
      let (client', added, h₂) = >>=-eq-some (add_comm ev.comm.comm_id ev client) _ h₁ in
      let (st, sent, e) =
        >>=-eq-some (send_each fp_add (create_targets ev.comm.comm_id ev.members) r.state) _ h₂ in
      insert-Same r r' ec client client' known
        (ap (λ (q : Clients). q.clients) (sym (some-injective _ _ e)))

  req-Same :
      (ec : ℕ) (ev : CommReqEvent) (r r' : Clients)
      → process_req fp_add ec ev r ≡ some r'
      → Same r r'
  unfolding process_req
  req-Same ec ev r r' h =
      let (client, known, h₁) = >>=-eq-some (lookup ec r.clients) _ h in
      let (creation, has_comm, h₂) = >>=-eq-some (lookup ev.comm.comm_id client) _ h₁ in
      let (st, sent, e) = >>=-eq-some (send_each fp_add _ _) _ h₂ in
      Same-clients r r' (ap (λ (q : Clients). q.clients) (sym (some-injective _ _ e)))

  ask_one-Same :
      (request : Request) (target : Target) (r r' : Clients)
      → ask_one fp_add request target r ≡ some r'
      → Same r r'
  unfolding ask_one
  ask_one-Same request target r r' h =
      let (st, sent, e) = >>=-eq-some (send_each fp_add (target ∷ []) _) _ h in
      Same-clients r r' (ap (λ (q : Clients). q.clients) (sym (some-injective _ _ e)))

  log-Same :
      (ec : ℕ) (ev : CommLogReqEvent) (r r' : Clients)
      → process_log_req fp_add ec ev r ≡ some r'
      → Same r r'
  unfolding process_log_req
  log-Same ec ev r r' h =
      let (client, known, h₁) = >>=-eq-some (lookup ec r.clients) _ h in
      let (creation, has_comm, h₂) = >>=-eq-some (lookup ev.comm.comm_id client) _ h₁ in
      let (obj, one, asked) = >>=-eq-some (one_object creation.members) _ h₂ in
      ask_one-Same _ _ r r' asked

  samples-Same :
      (ec : ℕ) (ev : CommGetSamplesReqEvent) (r r' : Clients)
      → process_samples_req fp_add ec ev r ≡ some r'
      → Same r r'
  unfolding process_samples_req
  samples-Same ec ev r r' h =
      let (client, known, h₁) = >>=-eq-some (lookup ec r.clients) _ h in
      let (creation, has_comm, h₂) = >>=-eq-some (lookup ev.comm.comm_id client) _ h₁ in
      let (obj, one, asked) = >>=-eq-some (one_object creation.members) _ h₂ in
      ask_one-Same _ _ r r' asked

  client-Same :
      (ec : ℕ) (m : Message) (r r' : Clients) → process_client fp_add ec m r ≡ some r' → Same r r'
  unfolding process_client
  client-Same ec (create ev) r r' h = create-Same ec ev r r' h
  client-Same ec (req ev) r r' h = req-Same ec ev r r' h
  client-Same ec (log_req ev) r r' h = log-Same ec ev r r' h
  client-Same ec (samples_req ev) r r' h = samples-Same ec ev r r' h
  client-Same ec _ r r' h = absurd (ground (arith, h))

  server-Same :
      (ec : ℕ) (m : Message) (r r' : Clients) → process_server fp_add ec m r ≡ some r' → Same r r'
  unfolding process_server
  server-Same ec (routed re) r r' h = with_state-Same r r' _ h
  server-Same ec _ r r' h = with_state-Same r r' _ h

  pub process_on-Same :
      (side : Side) (ec : ℕ) (m : Message) (r r' : Clients)
      → process_on fp_add side ec m r ≡ some r'
      → Same r r'
  unfolding process_on process_router
  process_on-Same client_side ec m r r' h = client-Same ec m r r' h
  process_on-Same server_side ec m r r' h = server-Same ec m r r' h
  process_on-Same router_side ec (routed re) r r' h = with_state-Same r r' _ h
  process_on-Same router_side ec _ r r' h = absurd (ground (arith, h))
