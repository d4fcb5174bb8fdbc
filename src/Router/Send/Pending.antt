-- ===== src/Router/Send/Pending.antt =====
-- Events for a server of this router that has not connected yet, and its connection.
use pwrapi.Prelude.{
  ℕ, ◌≡◌, ◌≢◌, inl, refl, sym, ap, ◌∙◌, Option, none, some, false, List, [], ◌∷◌, ◌++◌, map,
  append-nil, append_assoc, ◌==◌, ==_iff, ==_self, if◌then◌else◌, ◌>>=◌, arith, All,
}
use pwrapi.Prelude.Map.{nat_eq, text_eq, lookup, insert, erase, lookup-insert, lookup-erase}
use pwrapi.Events.{Text}
use pwrapi.Events.Routed.{RouterEvent}
use pwrapi.Events.Message.{Message, routed}
use pwrapi.Router.Ids.{rtr_id, server_id, no_id}
use pwrapi.Router.Table.{find_route}
use pwrapi.Router.Send.Waiting.{send_all, held, Waiting, send_all-Waiting}
use pwrapi.Router.Send.Carried.{carried, kept, from_router, kept-carried}
use pwrapi.Router.Send.{
  State, emit, local_chan, find_server_chan, emit_all, do_queue, do_pending, add_server,
  connect_server, live,
}

pub map-append {ℓ} :
    {A B : Type ℓ} (f : A → B) (xs ys : List A) → map f (xs ++ ys) ≡ map f xs ++ map f ys
map-append f [] ys = refl
map-append f (x ∷ xs) ys = ap (◌∷◌ (f x)) (map-append f xs ys)

emit_all-sent :
    (ec : ℕ) (ms : List Message) (st : State)
    → (emit_all ec ms st).sent ≡ st.sent ++ map (λ m. (ec, m)) ms
unfolding emit_all emit
emit_all-sent ec [] st = sym (append-nil st.sent)
emit_all-sent ec (m ∷ ms) st =
    emit_all-sent ec ms (emit ec m st) ∙ append_assoc st.sent ((ec, m) ∷ []) (map (λ n. (ec, n)) ms)

-- If the channel of a server is known, the events that wait for it, if none has been deleted, go to
-- that channel, in order, and its queue is gone; the queues of the other servers stay.
pub do_pending-sent :
    (id ec : ℕ) (queue : List (Option Message)) (ms : List Message) (st : State)
    → id ≢ no_id
    → lookup id st.pending ≡ some queue
    → live queue ≡ some ms
    → lookup id st.local_map ≡ some (some ec)
    → (st' : State) × (do_pending id st ≡ some st')
      × (st'.sent ≡ st.sent ++ map (λ m. (ec, m)) ms)
      × ((k : ℕ) → lookup k st'.pending ≡ (if id == k then none else lookup k st.pending))
unfolding do_pending do_queue find_server_chan local_chan
do_pending-sent id ec queue ms st is_server waits alive known =
    let e : (no_id == id) ≡ false = ground (arith, is_server, ==_iff no_id id) in
    (
      record (emit_all ec ms st) { pending = erase id st.pending },
      rw (waits, e, known, alive) refl,
      emit_all-sent ec ms st,
      λ k. lookup-erase id k st.pending,
    )

not_no_id : (a : ℕ) → server_id a ≢ no_id → (no_id == a) ≡ false
unfolding server_id
not_no_id a h = ground (arith, ==_iff no_id a, h)

-- The state in which a server has its channel.
abbrev connected : Text → ℕ → ℕ → State → State
connected name app ec st = record st {
  local_map = insert (server_id app) (some ec) st.local_map;
  server_map = insert ec name st.server_map;
}

add_server-route :
    (name old : Text) (app ec : ℕ) (st : State)
    → find_route st.routes name ≡ app
    → server_id app ≢ no_id
    → lookup ec st.server_map ≡ some old
    → add_server name ec st ≡ some (server_id app, connected name app ec st)
unfolding add_server
add_server-route name old app ec st route is_server chan =
    rw (route, not_no_id app is_server, chan) refl

-- A server connects on a channel that was accepted, and its name has a route: what waits for it
-- decides.
connect_server-pending :
    (name old : Text) (app ec : ℕ) (st : State)
    → find_route st.routes name ≡ app
    → server_id app ≢ no_id
    → lookup ec st.server_map ≡ some old
    → connect_server name ec st ≡ do_pending (server_id app) (connected name app ec st)
unfolding connect_server
connect_server-pending name old app ec st route is_server chan =
    ap (λ r. r >>= (λ (id, s). do_pending id s))
      (add_server-route name old app ec st route is_server chan)

connected-known :
    (name : Text) (app ec : ℕ) (st : State)
    → lookup (server_id app) (connected name app ec st).local_map ≡ some (some ec)
connected-known name app ec st =
    lookup-insert (server_id app) (server_id app) (some ec) st.local_map
    ∙ rw (==_self (server_id app)) refl

-- An event that a `RouterEvent` does not bring is still there when it is sent.
live-kept :
    (id dest : ℕ) (ms : List Message)
    → All (λ m. from_router m ≡ false) ms
    → live (map (kept id dest) ms) ≡ some (map (carried id dest) ms)
unfolding live
live-kept id dest [] h = refl
live-kept id dest (m ∷ ms) (e, h) = rw (kept-carried id dest m e, live-kept id dest ms h) refl

live-deleted : (q q' : List (Option Message)) → live (q ++ none ∷ q') ≡ none
unfolding live
live-deleted [] q' = refl
live-deleted (none ∷ q) q' = refl
live-deleted (some m ∷ q) q' = rw (live-deleted q q') refl

do_pending-deleted :
    (id ec : ℕ) (queue : List (Option Message)) (st : State)
    → id ≢ no_id
    → lookup id st.pending ≡ some queue
    → live queue ≡ none
    → lookup id st.local_map ≡ some (some ec)
    → do_pending id st ≡ none
unfolding do_pending do_queue find_server_chan local_chan
do_pending-deleted id ec queue st is_server waits dead known =
    let e : (no_id == id) ≡ false = ground (arith, is_server, ==_iff no_id id) in
    rw (waits, e, known, dead) refl

-- A server of this router that has not connected, and nothing that waits for it.
pub record IsAway (name old : Text) (app ec : ℕ) (st : State) : Type 0 where
  pub route : find_route st.routes name ≡ app
  pub here : rtr_id app ≡ st.id
  pub is_server : server_id app ≢ no_id
  pub away : lookup (server_id app) st.local_map ≡ none
  pub quiet : lookup (server_id app) st.pending ≡ none
  pub chan : lookup ec st.server_map ≡ some old

Waiting-for :
    (fp_add : ℕ → ℕ → ℕ) (name old : Text) (app ec : ℕ) (ms : List Message) (st : State)
    → IsAway name old app ec st
    → (st₁ : State) × (send_all fp_add app ms st ≡ some st₁)
      × Waiting st app (map (kept st.id app) ms) st₁
Waiting-for fp_add name old app ec ms st is =
    send_all-Waiting fp_add st app is.here is.is_server [] ms st (record {
      id = refl;
      routes = refl;
      server_map = refl;
      sent = refl;
      pending = is.quiet;
      away = inl is.away;
    })

connect-Waiting :
    (name old : Text) (app ec : ℕ) (q : List (Option Message)) (st st₁ : State)
    → IsAway name old app ec st
    → Waiting st app q st₁
    → connect_server name ec st₁ ≡ do_pending (server_id app) (connected name app ec st₁)
connect-Waiting name old app ec q st st₁ is w =
    connect_server-pending name old app ec st₁ (ap (λ r. find_route r name) w.routes ∙ is.route)
      is.is_server (ap (lookup ec) w.server_map ∙ is.chan)

-- Events that no other router has brought are sent to a server of this router that has not
-- connected, and none waits for it: nothing goes out. When it connects, all of them go to its
-- channel, in the order in which they were sent.
pub send_all-connect_server :
    (fp_add : ℕ → ℕ → ℕ) (name old : Text) (app ec : ℕ) (m : Message) (ms : List Message)
    (st : State)
    → IsAway name old app ec st
    → All (λ m. from_router m ≡ false) (m ∷ ms)
    → (st₁ : State) × (st₂ : State) × (send_all fp_add app (m ∷ ms) st ≡ some st₁)
      × (st₁.sent ≡ st.sent)
      × (connect_server name ec st₁ ≡ some st₂)
      × (st₂.sent ≡ st.sent ++ map (λ e. (ec, e)) (map (carried st.id app) (m ∷ ms)))
send_all-connect_server fp_add name old app ec m ms st is own =
    let (st₁, run, w) = Waiting-for fp_add name old app ec (m ∷ ms) st is in
    let (st₂, run₂, sent, gone) =
      do_pending-sent (server_id app) ec (map (kept st.id app) (m ∷ ms))
        (map (carried st.id app) (m ∷ ms)) (connected name app ec st₁) is.is_server w.pending
        (live-kept st.id app (m ∷ ms) own) (connected-known name app ec st₁) in
    (
      st₁,
      st₂,
      run,
      w.sent,
      connect-Waiting name old app ec _ st st₁ is w ∙ run₂,
      sent ∙ ap (λ s. s ++ map (λ e. (ec, e)) (map (carried st.id app) (m ∷ ms))) w.sent,
    )

held-some : (q q' : List (Option Message)) → held (q ++ none ∷ q') ≡ some (q ++ none ∷ q')
held-some [] q' = refl
held-some (x ∷ q) q' = refl

-- Events, one of which another router has brought, are sent to a server of this router that has not
-- connected, and none waits for it: nothing goes out. When the server connects, the router fails: it
-- comes to an event that has been deleted.
pub send_all-deleted :
    (fp_add : ℕ → ℕ → ℕ) (name old : Text) (app ec : ℕ) (before after : List Message)
    (re : RouterEvent) (st : State)
    → IsAway name old app ec st
    → (st₁ : State) × (send_all fp_add app (before ++ routed re ∷ after) st ≡ some st₁)
      × (st₁.sent ≡ st.sent)
      × (connect_server name ec st₁ ≡ none)
unfolding kept
send_all-deleted fp_add name old app ec before after re st is =
    let (st₁, run, w) = Waiting-for fp_add name old app ec (before ++ routed re ∷ after) st is in
    let q = map (kept st.id app) before in
    let q' = map (kept st.id app) after in
    let split : map (kept st.id app) (before ++ routed re ∷ after) ≡ q ++ none ∷ q' =
      map-append (kept st.id app) before (routed re ∷ after) in
    (
      st₁,
      run,
      w.sent,
      connect-Waiting name old app ec _ st st₁ is w
          ∙ do_pending-deleted (server_id app) ec (q ++ none ∷ q') (connected name app ec st₁)
              is.is_server (w.pending ∙ ap held split ∙ held-some q q') (live-deleted q q')
              (connected-known name app ec st₁),
    )
