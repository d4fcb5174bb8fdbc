-- ===== src/Router/Select.antt =====
-- tools/pwrdaemon/router/routerSelect.h and routerSelect.cc: what the router does with a channel that
-- the select has chosen, and `Router::work`, one channel after the other.
pub mod Same
pub mod Wired
use pwrapi.Prelude.{ℕ, Option, none, some, List, [], ◌∷◌, ◌>>=◌}
use pwrapi.Prelude.Map.{nat_eq, lookup, insert, erase}
use pwrapi.Events.Message.{Message, create, req, log_req, samples_req, connect, routed}
use pwrapi.Router.Send.{
  State, send_app, connect_server, process_payload, add_server_chan, del_server_chan,
}
use pwrapi.Router.Clients.{Clients, process_create, process_req, add_client_chan, del_client_chan}
use pwrapi.Router.Clients.Logs.{process_log_req, process_samples_req}

-- `m_client`, `m_server` and `m_router`.
pub data Side : Type 0 where
  client_side server_side router_side : Side

-- The data of a channel: `AcceptData<EventData>`, `EventData`, and the `RouterData` of a link.
pub data Watch : Type 0 where
  accepts : Side → Watch
  events : Side → Watch
  link : Watch

-- The router, with `m_chanMap` and the channels that `close` has closed.
pub record Routing : Type 0 where
  pub router : Clients
  pub chan_map : List (ℕ × Watch)
  pub closed : List ℕ

-- What `accept` or `getEvent` gives on a channel.
pub data Input : Type 0 where
  accepted : ℕ → Input
  received : Message → Input
  hung_up : Input

abbrev pub with_state : Clients → Option State → Option Clients
with_state r st = st >>= (λ (st' : State). some (record r { state = st' }))

-- `TcpChannelSelect::addChannel` and `delChannel`, with their assertions.
unfoldable pub add_fresh : Option Watch → ℕ → Watch → List (ℕ × Watch) → Option (List (ℕ × Watch))
add_fresh none ec w m = some (insert ec w m)
add_fresh (some old) ec w m = none

unfoldable pub add_channel : ℕ → Watch → List (ℕ × Watch) → Option (List (ℕ × Watch))
add_channel ec w m = add_fresh (lookup ec m) ec w m

unfoldable pub del_channel : ℕ → List (ℕ × Watch) → Option (List (ℕ × Watch))
del_channel ec m = lookup ec m >>= (λ (w : Watch). some (erase ec m))

-- `Chan::add`.
unfoldable pub add_chan : Side → ℕ → Clients → Clients
add_chan client_side ec r = add_client_chan ec r
add_chan server_side ec r = record r { state = add_server_chan ec r.state }
add_chan router_side ec r = r

module _ (fp_add : ℕ → ℕ → ℕ) where
  -- `Chan::del`.
  unfoldable pub del_chan : Side → ℕ → Clients → Option Clients
  del_chan client_side ec r = del_client_chan fp_add ec r
  del_chan server_side ec r = some (record r { state = del_server_chan ec r.state })
  del_chan router_side ec r = some r

  -- `event->process`, by what the side's allocator has made; other events are not made there.
  unfoldable pub process_client : ℕ → Message → Clients → Option Clients
  process_client ec (create ev) r = process_create fp_add ec ev r
  process_client ec (req ev) r = process_req fp_add ec ev r
  process_client ec (log_req ev) r = process_log_req fp_add ec ev r
  process_client ec (samples_req ev) r = process_samples_req fp_add ec ev r
  process_client ec _ r = none

  unfoldable pub process_server : ℕ → Message → Clients → Option Clients
  process_server ec (routed re) r = with_state r (send_app fp_add re.dest (routed re) r.state)
  process_server ec (connect ev) r = with_state r (connect_server ev.name ec r.state)
  process_server ec m r = with_state r (process_payload fp_add m r.state)

  unfoldable pub process_router : Message → Clients → Option Clients
  process_router (routed re) r = with_state r (send_app fp_add re.dest (routed re) r.state)
  process_router _ r = none

  unfoldable pub process_on : Side → ℕ → Message → Clients → Option Clients
  process_on client_side ec m r = process_client ec m r
  process_on server_side ec m r = process_server ec m r
  process_on router_side ec m r = process_router m r

  -- `AcceptData::process`.
  unfoldable pub process_accept : Side → ℕ → Routing → Option Routing
  process_accept side ec s = do
    m ← add_channel ec (events side) s.chan_map
    some (record s { chan_map = m; router = add_chan side ec s.router })

  unfoldable pub process_event : Side → ℕ → Message → Routing → Option Routing
  process_event side ec m s =
      process_on side ec m s.router >>= (λ (r : Clients). some (record s { router = r }))

  -- `EventData::process` of a channel that is closed.
  unfoldable pub process_closed : Side → ℕ → Routing → Option Routing
  process_closed side ec s = do
    m ← del_channel ec s.chan_map
    r ← del_chan side ec s.router
    some (record s { chan_map = m; router = r; closed = ec ∷ s.closed })

  -- `data->process`; a channel that listens only accepts, and the others never do.
  unfoldable pub dispatch : Watch → ℕ → Input → Routing → Option Routing
  dispatch (accepts side) ec (accepted new) s = process_accept side new s
  dispatch (accepts side) ec _ s = none
  dispatch (events side) ec (received m) s = process_event side ec m s
  dispatch (events side) ec hung_up s = process_closed side ec s
  dispatch (events side) ec (accepted new) s = none
  dispatch link ec (received m) s = process_event router_side ec m s
  dispatch link ec hung_up s = some (record s { closed = ec ∷ s.closed })
  dispatch link ec (accepted new) s = none

  -- One round of the loop, on the channel that `wait` has chosen.
  unfoldable pub process : ℕ → Input → Routing → Option Routing
  process ec input s = lookup ec s.chan_map >>= (λ (w : Watch). dispatch w ec input s)

  -- `Router::work`, on what comes.
  unfoldable pub work : List (ℕ × Input) → Routing → Option Routing
  work [] s = some s
  work ((ec, input) ∷ rest) s = process ec input s >>= work rest
