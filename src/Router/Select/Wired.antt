-- ===== src/Router/Select/Wired.antt =====
-- The select watches a client's channel exactly as long as the router has the client.
use pwrapi.Prelude.{
  ℕ, ◌≡◌, ◌↔◌, inl, inr, refl, sym, ap, ◌∙◌, subst, Option, none, some, true, false, Bool-cases,
  List, [], ◌∷◌, Bool, ◌≢◌, ◌==◌, ==_iff, >>=-eq-some, arith,
}
use mathlib.Core.Option.{some-injective}
use pwrapi.Prelude.Map.{
  nat_eq, lookup, insert, erase, lookup-insert_at, lookup-insert_else, lookup-erase_at,
  lookup-erase_else,
}
use pwrapi.Events.Message.{Message}
use pwrapi.Router.Clients.{Clients, add_client_chan, del_client_chan, destroy_comms}
use pwrapi.Router.Select.{
  Side, client_side, server_side, router_side, Watch, accepts, events, link, Routing, Input,
  accepted, received, hung_up, add_fresh, add_channel, del_channel, add_chan, del_chan, process_on,
  process_accept, process_event, process_closed, dispatch, process, work,
}
use pwrapi.Router.Select.Same.{Known, Same, Same-clients, process_on-Same}

-- The channels of clients that the select watches are those of the clients that the router has.
abbrev pub IsWired : Routing → Type 0
IsWired s = (k : ℕ) → (lookup k s.chan_map ≡ some (events client_side)) ↔ Known k s.router

unfoldable pub is_client : Watch → Bool
is_client (events client_side) = true
is_client (events server_side) = false
is_client (events router_side) = false
is_client (accepts side) = false
is_client link = false

-- A channel is watched in one way.
pub not_client :
    (m : List (ℕ × Watch)) (k : ℕ) (w : Watch)
    → lookup k m ≡ some w
    → is_client w ≡ false
    → lookup k m ≢ some (events client_side)
unfolding is_client
not_client m k w at other e =
    absurd (ground (arith, ap is_client (some-injective _ _ (sym at ∙ e)), other))

-- Another channel that is watched, and not as a client's, changes nothing.
insert-IsWired :
    (s : Routing) (ec : ℕ) (w : Watch) (r' : Clients)
    → IsWired s
    → lookup ec s.chan_map ≡ none
    → is_client w ≡ false
    → Same s.router r'
    → (k : ℕ) → (lookup k (insert ec w s.chan_map) ≡ some (events client_side)) ↔ Known k r'
insert-IsWired s ec w r' wired free other same k = elim (Bool-cases (ec == k)) [
  | inl is ↦
      let e : ec ≡ k = (==_iff ec k).0 is in
      let free' = ap (λ j. lookup j s.chan_map) (sym e) ∙ free in
      (
        λ h. absurd (
            not_client (insert ec w s.chan_map) k w (lookup-insert_at ec k s.chan_map w is) other
              h),
        λ h. absurd (ground (arith, sym free' ∙ (wired k).1 ((same k).0 h))),
      )
  | inr apart ↦
      let here = lookup-insert_else ec k s.chan_map w apart in
      (λ h. (same k).1 ((wired k).0 (sym here ∙ h)), λ h. here ∙ (wired k).1 ((same k).0 h))
]

add_client-IsWired :
    (s : Routing) (ec : ℕ)
    → IsWired s
    → (k : ℕ)
    → (lookup k (insert ec (events client_side) s.chan_map) ≡ some (events client_side))
      ↔ Known k (add_client_chan ec s.router)
unfolding add_client_chan
add_client-IsWired s ec wired k = elim (Bool-cases (ec == k)) [
  | inl is ↦ (
    λ h. ([], lookup-insert_at ec k s.router.clients [] is),
    λ h. lookup-insert_at ec k s.chan_map (events client_side) is,
  )
  | inr apart ↦
      let here = lookup-insert_else ec k s.chan_map (events client_side) apart in
      let there = lookup-insert_else ec k s.router.clients [] apart in
      (
        λ h. let (c, at) = (wired k).0 (sym here ∙ h) in (c, there ∙ at),
        λ h. here ∙ (wired k).1 (h.0, sym there ∙ h.1),
      )
]

erase-IsWired :
    (s : Routing) (ec : ℕ) (w : Watch) (r' : Clients)
    → IsWired s
    → lookup ec s.chan_map ≡ some w
    → is_client w ≡ false
    → Same s.router r'
    → (k : ℕ) → (lookup k (erase ec s.chan_map) ≡ some (events client_side)) ↔ Known k r'
erase-IsWired s ec w r' wired at other same k = elim (Bool-cases (ec == k)) [
  | inl is ↦
      let e : ec ≡ k = (==_iff ec k).0 is in
      let at' = ap (λ j. lookup j s.chan_map) (sym e) ∙ at in
      let gone = lookup-erase_at ec k s.chan_map is in
      (
        λ h. absurd (ground (arith, sym gone ∙ h)),
        λ h. absurd (not_client s.chan_map k w at' other ((wired k).1 ((same k).0 h))),
      )
  | inr apart ↦
      let here = lookup-erase_else ec k s.chan_map apart in
      (λ h. (same k).1 ((wired k).0 (sym here ∙ h)), λ h. here ∙ (wired k).1 ((same k).0 h))
]

del_client-IsWired :
    (fp_add : ℕ → ℕ → ℕ) (s : Routing) (ec : ℕ) (r' : Clients)
    → IsWired s
    → del_client_chan fp_add ec s.router ≡ some r'
    → (k : ℕ) → (lookup k (erase ec s.chan_map) ≡ some (events client_side)) ↔ Known k r'
unfolding del_client_chan
del_client-IsWired fp_add s ec r' wired h k =
    let (client, known, h₁) = >>=-eq-some (lookup ec s.router.clients) _ h in
    let (st, sent, e) = >>=-eq-some (destroy_comms fp_add client s.router.state) _ h₁ in
    let left : r'.clients ≡ erase ec s.router.clients =
      ap (λ (q : Clients). q.clients) (sym (some-injective _ _ e)) in
    elim (Bool-cases (ec == k)) [
      | inl is ↦
          let gone = ap (lookup k) left ∙ lookup-erase_at ec k s.router.clients is in
          (
            λ h. absurd (ground (arith, sym (lookup-erase_at ec k s.chan_map is) ∙ h)),
            λ h. absurd (ground (arith, sym gone ∙ h.1)),
          )
      | inr apart ↦
          let there = ap (lookup k) left ∙ lookup-erase_else ec k s.router.clients apart in
          let here = lookup-erase_else ec k s.chan_map apart in
          (
            λ h. let (c, at) = (wired k).0 (sym here ∙ h) in (c, there ∙ at),
            λ h. here ∙ (wired k).1 (h.0, sym there ∙ h.1),
          )
    ]

pub added_fresh :
    (found : Option Watch) (ec : ℕ) (w : Watch) (m m' : List (ℕ × Watch))
    → add_fresh found ec w m ≡ some m'
    → (found ≡ none) × (insert ec w m ≡ m')
unfolding add_fresh
added_fresh none ec w m m' h = (refl, some-injective _ _ h)
added_fresh (some old) ec w m m' h = absurd (ground (arith, h))

accepted-IsWired :
    (side : Side) (ec : ℕ) (s : Routing)
    → IsWired s
    → lookup ec s.chan_map ≡ none
    → IsWired (record s {
      chan_map = insert ec (events side) s.chan_map;
      router = add_chan side ec s.router;
    })
unfolding add_chan is_client
accepted-IsWired client_side ec s wired free = add_client-IsWired s ec wired
accepted-IsWired server_side ec s wired free =
    insert-IsWired s ec (events server_side) (add_chan server_side ec s.router) wired free refl
      (Same-clients s.router (add_chan server_side ec s.router) refl)
accepted-IsWired router_side ec s wired free =
    insert-IsWired s ec (events router_side) (add_chan router_side ec s.router) wired free refl
      (Same-clients s.router (add_chan router_side ec s.router) refl)

module _ (fp_add : ℕ → ℕ → ℕ) where
  deleted-IsWired :
      (side : Side) (ec : ℕ) (s : Routing) (r' : Clients)
      → IsWired s
      → lookup ec s.chan_map ≡ some (events side)
      → del_chan fp_add side ec s.router ≡ some r'
      → (k : ℕ) → (lookup k (erase ec s.chan_map) ≡ some (events client_side)) ↔ Known k r'
  unfolding del_chan is_client
  deleted-IsWired client_side ec s r' wired at h = del_client-IsWired fp_add s ec r' wired h
  deleted-IsWired server_side ec s r' wired at h =
      erase-IsWired s ec (events server_side) r' wired at refl
        (Same-clients s.router r' (ap (λ (q : Clients). q.clients) (sym (some-injective _ _ h))))
  deleted-IsWired router_side ec s r' wired at h =
      erase-IsWired s ec (events router_side) r' wired at refl
        (Same-clients s.router r' (ap (λ (q : Clients). q.clients) (sym (some-injective _ _ h))))

  accept-IsWired :
      (side : Side) (ec : ℕ) (s s' : Routing)
      → IsWired s
      → process_accept fp_add side ec s ≡ some s'
      → IsWired s'
  unfolding process_accept add_channel
  accept-IsWired side ec s s' wired h =
      let (m, added, e) = >>=-eq-some (add_channel ec (events side) s.chan_map) _ h in
      let (free, is) = added_fresh (lookup ec s.chan_map) ec (events side) s.chan_map m added in
      let is_made = some-injective _ _ e in
      subst IsWired is_made (
        subst (λ n. IsWired (record s { chan_map = n; router = add_chan side ec s.router })) is
          (accepted-IsWired side ec s wired free))

  closed-IsWired :
      (side : Side) (ec : ℕ) (s s' : Routing)
      → IsWired s
      → lookup ec s.chan_map ≡ some (events side)
      → process_closed fp_add side ec s ≡ some s'
      → IsWired s'
  unfolding process_closed del_channel
  closed-IsWired side ec s s' wired at h =
      let (m, erased, h₁) = >>=-eq-some (del_channel ec s.chan_map) _ h in
      let (r', deleted, e) = >>=-eq-some (del_chan fp_add side ec s.router) _ h₁ in
      let is : erase ec s.chan_map ≡ m = some-injective _ _ (rw (at) at erased) in
      subst IsWired (some-injective _ _ e) (
        subst (λ n. (k : ℕ) → (lookup k n ≡ some (events client_side)) ↔ Known k r') is
          (deleted-IsWired side ec s r' wired at deleted))

  event-IsWired :
      (side : Side) (ec : ℕ) (m : Message) (s s' : Routing)
      → IsWired s
      → process_event fp_add side ec m s ≡ some s'
      → IsWired s'
  unfolding process_event
  event-IsWired side ec m s s' wired h =
      let (r, done, e) = >>=-eq-some (process_on fp_add side ec m s.router) _ h in
      let same = process_on-Same fp_add side ec m s.router r done in
      subst IsWired (some-injective _ _ e)
        (λ k. (λ w. (same k).1 ((wired k).0 w), λ q. (wired k).1 ((same k).0 q)))

  dispatch-IsWired :
      (w : Watch) (ec : ℕ) (input : Input) (s s' : Routing)
      → IsWired s
      → lookup ec s.chan_map ≡ some w
      → dispatch fp_add w ec input s ≡ some s'
      → IsWired s'
  unfolding dispatch
  dispatch-IsWired (accepts side) ec (accepted new) s s' wired at h =
      accept-IsWired side new s s' wired h
  dispatch-IsWired (accepts side) ec _ s s' wired at h = absurd (ground (arith, h))
  dispatch-IsWired (events side) ec (received m) s s' wired at h =
      event-IsWired side ec m s s' wired h
  dispatch-IsWired (events side) ec hung_up s s' wired at h = closed-IsWired side ec s s' wired at h
  dispatch-IsWired (events side) ec (accepted new) s s' wired at h = absurd (ground (arith, h))
  dispatch-IsWired link ec (received m) s s' wired at h =
      event-IsWired router_side ec m s s' wired h
  dispatch-IsWired link ec hung_up s s' wired at h = subst IsWired (some-injective _ _ h) wired
  dispatch-IsWired link ec (accepted new) s s' wired at h = absurd (ground (arith, h))

  -- Whatever comes on the channels, in whatever order: if the loop does not fault, then in the end,
  -- as at the start, the channels that the select watches for clients are exactly those on which
  -- the router has a client.
  pub work-IsWired :
      (inputs : List (ℕ × Input)) (s s' : Routing)
      → IsWired s
      → work fp_add inputs s ≡ some s'
      → IsWired s'
  unfolding work process
  work-IsWired [] s s' wired h = subst IsWired (some-injective _ _ h) wired
  work-IsWired ((ec, input) ∷ rest) s s' wired h =
      let (s₁, first, more) = >>=-eq-some (process fp_add ec input s) _ h in
      let (w, at, done) = >>=-eq-some (lookup ec s.chan_map) _ first in
      work-IsWired rest s₁ s' (dispatch-IsWired w ec input s s₁ wired at done) more
