-- ===== src/Router/Send/Waiting.antt =====
-- What waits for a server of this router that has not connected, after events are sent to it.
use pwrapi.Prelude.{
  ℕ, ◌≡◌, ◌≢◌, ◌⊎◌, inl, inr, refl, sym, subst, ◌∙◌, Option, none, some, true, false, List, [], ◌∷◌,
  ◌++◌, map, append-nil, append_assoc, ◌==◌, ==_iff, ==_self, ◌>>=◌, arith,
}
use pwrapi.Prelude.Map.{nat_eq, text_eq, lookup, insert, lookup-insert}
use pwrapi.Events.Message.{Message}
use pwrapi.Router.Ids.{rtr_id, server_id, no_id}
use pwrapi.Router.Send.Carried.{kept, send_found-put}
use pwrapi.Router.Send.{State, local_chan, find_server_chan, push_pending, put, send_app}

-- The events of a list are sent in turn.
pub send_all : (ℕ → ℕ → ℕ) → ℕ → List Message → State → Option State
send_all fp_add dest [] st = some st
send_all fp_add dest (m ∷ ms) st = send_app fp_add dest m st >>= send_all fp_add dest ms

-- What `m_pendingEvents` has for a server: an entry only if an event waits.
abbrev pub held : List (Option Message) → Option (List (Option Message))
held [] = none
held (m ∷ ms) = some (m ∷ ms)

-- The server of `app` is not there, and the events `q` wait for it; nothing else has changed.
pub record Waiting (st₀ : State) (app : ℕ) (q : List (Option Message)) (st : State) : Type 0 where
  pub id : st.id ≡ st₀.id
  pub routes : st.routes ≡ st₀.routes
  pub server_map : st.server_map ≡ st₀.server_map
  pub sent : st.sent ≡ st₀.sent
  pub pending : lookup (server_id app) st.pending ≡ held q
  pub away :
      (lookup (server_id app) st.local_map ≡ none)
      ⊎ (lookup (server_id app) st.local_map ≡ some none)

held-push :
    (q : List (Option Message)) (m : Option Message)
    → some (elim (held q) as (λ _. List (Option Message)) [ none ↦ m ∷ [] | some p ↦ p ++ m ∷ [] ])
      ≡ held (q ++ m ∷ [])
held-push [] m = refl
held-push (p ∷ q) m = refl

module _ (fp_add : ℕ → ℕ → ℕ) (st₀ : State) (app : ℕ) (here : rtr_id app ≡ st₀.id)
    (is_server : server_id app ≢ no_id) where
  not_none : (no_id == server_id app) ≡ false
  not_none = ground (arith, is_server, ==_iff no_id (server_id app))

  none_not : (server_id app == no_id) ≡ false
  none_not = ground (arith, is_server, ==_iff (server_id app) no_id)

  found_here : {A : Type 0} (k : ℕ) (v : A) (m : List (ℕ × A)) → lookup k (insert k v m) ≡ some v
  found_here k v m = lookup-insert k k v m ∙ rw (==_self k) refl

  -- The channel is not found, and is NULL in the map from then on.
  find_server_chan-Waiting :
      (q : List (Option Message)) (st : State)
      → Waiting st₀ app q st
      → (st' : State) × (find_server_chan (server_id app) st ≡ (none, st')) × Waiting st₀ app q st'
  unfolding find_server_chan local_chan
  find_server_chan-Waiting q st w = elim w.away [
    | inl e ↦ (
      record st { local_map = insert (server_id app) none st.local_map },
      rw (not_none, e) refl,
      record {
        id = w.id;
        routes = w.routes;
        server_map = w.server_map;
        sent = w.sent;
        pending = w.pending;
        away = inr (found_here (server_id app) none st.local_map);
      },
    )
    | inr e ↦ (st, rw (not_none, e) refl, w)
  ]

  push_pending-Waiting :
      (q : List (Option Message)) (m : Option Message) (st : State)
      → Waiting st₀ app q st
      → Waiting st₀ app (q ++ m ∷ []) (push_pending (server_id app) m st)
  unfolding push_pending
  push_pending-Waiting q m st w = record {
    id = w.id;
    routes = w.routes;
    server_map = w.server_map;
    sent = w.sent;
    pending = found_here (server_id app) _ st.pending ∙ rw (w.pending) (held-push q m);
    away = w.away;
  }

  send_app-Waiting :
      (q : List (Option Message)) (m : Message) (st : State)
      → Waiting st₀ app q st
      → (st' : State) × (send_app fp_add app m st ≡ some st')
        × Waiting st₀ app (q ++ kept st₀.id app m ∷ []) st'
  unfolding send_app put
  send_app-Waiting q m st w =
      let (st₁, find, w₁) = find_server_chan-Waiting q st w in
      let same : (rtr_id app == st.id) ≡ true = (==_iff (rtr_id app) st.id).1 (here ∙ sym w.id) in
      (
        push_pending (server_id app) (kept st₀.id app m) st₁,
        rw (same, find, send_found-put fp_add none app m st₁ none_not, w₁.id) refl,
        push_pending-Waiting q (kept st₀.id app m) st₁ w₁,
      )

  pub send_all-Waiting :
      (q : List (Option Message)) (ms : List Message) (st : State)
      → Waiting st₀ app q st
      → (st' : State) × (send_all fp_add app ms st ≡ some st')
        × Waiting st₀ app (q ++ map (kept st₀.id app) ms) st'
  unfolding send_all
  send_all-Waiting q [] st w = (st, refl, subst (λ p. Waiting st₀ app p st) (sym (append-nil q)) w)
  send_all-Waiting q (m ∷ ms) st w =
      let (st₁, one, w₁) = send_app-Waiting q m st w in
      let (st₂, rest, w₂) = send_all-Waiting (q ++ kept st₀.id app m ∷ []) ms st₁ w₁ in
      (
        st₂,
        rw (one) rest,
        subst (λ p. Waiting st₀ app p st₂)
            (append_assoc q (kept st₀.id app m ∷ []) (map (kept st₀.id app) ms)) w₂,
      )
