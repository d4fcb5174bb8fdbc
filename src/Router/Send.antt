-- ===== src/Router/Send.antt =====
-- tools/pwrdaemon/router/router.cc and router.h: the state of a router and the way of an event
-- through it. A channel is its identity; `sent` lists what was given to channels, in order.
pub mod Carried
pub mod Pending
pub mod Routes
pub mod Waiting
use pwrapi.Prelude.{
  ℕ, Option, none, some, Bool, true, false, ◌&&◌, List, [], ◌∷◌, ◌++◌, map, ◌==◌, if◌then◌else◌,
  ◌>>=◌, length,
}
use pwrapi.Prelude.Map.{Eq, nat_eq, text_eq, lookup, insert, erase}
use pwrapi.Events.{
  Text, Event, CommEvent, EventType, router2router, comm_log_resp, comm_get_samples_resp, code,
}
use pwrapi.Events.Responses.{CommRespEvent}
use pwrapi.Events.Routed.{RouterEvent}
use pwrapi.Events.Message.{
  Message, create, destroy, req, resp, log_req, log_resp, samples_req, samples_resp, connect,
  routed, event_of, message_out, alloc_server_event,
}
use pwrapi.Router.Ids.{app_id, rtr_id, server_id, no_id}
use pwrapi.Router.Table.{RouteTable, find_route}
use pwrapi.Router.Tree.{RtrLink, get_channel}
use pwrapi.Router.Collect.{CommReqInfo, process_resp}

-- A live `CommReqInfo`, by the event of its `resp`: the channel and the id of the request are all
-- that is read of one that waits for a log or for samples.
pub data Request : Type 0 where
  comm : CommReqInfo → Request
  log : ℕ → ℕ → Request
  samples : ℕ → ℕ → Request

-- The members of `Router` that these operations use. `requests` are the live `CommReqInfo`, by
-- their addresses, which are event ids. In `pending`, `none` is an event that has been deleted;
-- `unset` is what a member that no constructor writes holds.
pub record State : Type 0 where
  pub id : ℕ
  pub links : List RtrLink
  pub routes : RouteTable
  pub local_map : List (ℕ × Option ℕ)
  pub server_map : List (ℕ × Text)
  pub pending : List (ℕ × List (Option Message))
  pub requests : List (ℕ × Request)
  pub sent : List (ℕ × Message)
  pub unset : ℕ

-- `ec->sendEvent( ev )`.
unfoldable pub emit : ℕ → Message → State → State
emit ec m st = record st { sent = st.sent ++ (ec, m) ∷ [] }

-- `m_localMap[id]`: a missing key is put in, with NULL.
unfoldable pub local_chan : Option (Option ℕ) → ℕ → State → Option ℕ × State
local_chan none id st = (none, record st { local_map = insert id none st.local_map })
local_chan (some ec) id st = (ec, st)

-- `Router::findServerChan`.
unfoldable pub find_server_chan : ℕ → State → Option ℕ × State
find_server_chan id st =
    let found = local_chan (lookup id st.local_map) id st in
    if no_id == id then (none, st) else found

-- `Router::findRtrChan`.
unfoldable pub find_rtr_chan : ℕ → State → Option ℕ
find_rtr_chan id st = get_channel st.links id

-- `new RouterEvent( src, dest, ev )`.
unfoldable pub wrap : ℕ → ℕ → Message → Message
wrap src dest m = routed (record {
  event = record { type = code router2router; id = 0; status = 0 };
  src = src;
  dest = dest;
  event_type = (event_of m).type;
  payload = message_out m [];
})

-- `m_pendingEvents[id].push_back( ev )`.
unfoldable pub push_pending : ℕ → Option Message → State → State
push_pending id m st = record st {
  pending =
      insert id (elim (lookup id st.pending) [ none ↦ m ∷ [] | some q ↦ q ++ m ∷ [] ]) st.pending;
}

-- The end of `sendEvent`: to the channel, or to those that wait for the server, of which `kept` is
-- what is left when the caller is done.
unfoldable pub put : Option ℕ → ℕ → Message → Option Message → State → State
put none server m kept st = push_pending server kept st
put (some ec) server m kept st = emit ec m st

-- What `RtrCommRespEvent::process` does with its `CommReqInfo`.
unfoldable pub settle : ℕ → CommReqInfo → Option CommRespEvent → State → State
settle id info none st = record st { requests = insert id (comm info) st.requests }
settle id info (some answer) st =
    emit info.src (resp answer) (record st { requests = erase id st.requests })

-- A `CommEvent` with a communicator, which the constructor does not set, a type and an id.
unfoldable pub new_comm : ℕ → EventType → ℕ → CommEvent
new_comm comm_id type id = record {
  event = record { type = code type; id = id; status = 0 };
  comm_id = comm_id;
  op = 0;
}

module _ (fp_add : ℕ → ℕ → ℕ) where
  -- A response for a request of its kind. `*info->resp = *this` copies what is not of `CommEvent`.
  unfoldable pub process_for : Request → Message → State → Option State
  process_for (comm info) (resp ev) st = do
    (info', answer) ← process_resp fp_add info ev
    some (settle ev.comm.event.id info' answer st)
  process_for (log src id) (log_resp ev) st = some (
      emit src (log_resp (record ev { comm = new_comm st.unset comm_log_resp id }))
        (record st { requests = erase ev.comm.event.id st.requests }))
  process_for (samples src id) (samples_resp ev) st = some (
      emit src (samples_resp (record ev { comm = new_comm st.unset comm_get_samples_resp id }))
        (record st { requests = erase ev.comm.event.id st.requests }))
  process_for other m st = none

  -- `pev->process( this )` for the payload of an event to this router: a response, whose id is the
  -- address of its request. A server puts no other event there.
  unfoldable pub process_payload : Message → State → Option State
  process_payload m st = lookup (event_of m).id st.requests >>= (λ r. process_for r m st)

  -- `sendEvent` once the channel is found. A `RouterEvent` is deleted by the caller, whose
  -- `process` has returned true; one that is made here stays.
  unfoldable pub send_found : Option ℕ → ℕ → Message → State → Option State
  send_found ec dest (routed ev) st =
      let here = rtr_id dest == st.id && server_id dest == no_id in
      let own = alloc_server_event ev.event_type ev.payload >>= (λ m. process_payload m st) in
      if here then own else some (put ec (server_id dest) (routed ev) none st)
  send_found ec dest m st =
      let re = wrap (app_id st.id no_id) dest m in some (put ec (server_id dest) re (some re) st)

  -- `Router::sendEvent( AppID, Event* )`, with the assertion on the channel to another router.
  unfoldable pub send_app : ℕ → Message → State → Option State
  send_app dest m st =
      let (ec, st') = find_server_chan (server_id dest) st in
      let here = send_found ec dest m st' in
      let there = find_rtr_chan (rtr_id dest) st >>= (λ c. send_found (some c) dest m st) in
      if rtr_id dest == st.id then here else there

  -- `Router::sendEvent( ObjID, Event* )`: the test is against `(unsigned) -1`.
  unfoldable pub send_obj : Text → Message → State → Option State
  send_obj obj m st =
      let dest = find_route st.routes obj in
      let go = send_app dest m st in if no_id == dest then some st else go

-- The loop of `doPending` over the queue of a server.
unfoldable pub emit_all : ℕ → List Message → State → State
emit_all ec [] st = st
emit_all ec (m ∷ ms) st = emit_all ec ms (emit ec m st)

-- The events of a queue that have not been deleted, if none has.
unfoldable pub live : List (Option Message) → Option (List Message)
live [] = some []
live (none ∷ queue) = none
live (some m ∷ queue) = do ms ← live queue; some (m ∷ ms)

-- The queue that was found, if any. `none` is `assert(ec)`, or the sending of a deleted event.
unfoldable pub do_queue : Option (List (Option Message)) → ℕ → State → Option State
do_queue none id st = some st
do_queue (some queue) id st =
    let (ec, st') = find_server_chan id st in
    do c ← ec; ms ← live queue; some (record (emit_all c ms st') { pending = erase id st.pending })

-- `Router::doPending`.
unfoldable pub do_pending : ℕ → State → Option State
do_pending id st = do_queue (lookup id st.pending) id st

-- `Router::addServer`, whose test is against `(unsigned) -1` too; a channel that `addServerChan` did
-- not put in has no `Server`.
unfoldable pub add_server : Text → ℕ → State → Option (ℕ × State)
add_server name ec st =
    let app = find_route st.routes name in
    let added = lookup ec st.server_map >>= (λ old. some (
      server_id app,
      record st {
        local_map = insert (server_id app) (some ec) st.local_map;
        server_map = insert ec name st.server_map;
      },
    )) in
    if no_id == app then none else added

-- `RtrServerConnectEvent::process`.
unfoldable pub connect_server : Text → ℕ → State → Option State
connect_server name ec st = do (id, st') ← add_server name ec st; do_pending id st'

-- `Router::delServer`.
unfoldable pub del_server : Text → State → State
del_server name st = record st { local_map = erase 0 st.local_map }

unfoldable pub del_named : Option Text → State → State
del_named none st = st
del_named (some name) st = del_server name st

-- `Router::addServerChan` and `Router::delServerChan`, with the destructor of `Server`.
unfoldable pub add_server_chan : ℕ → State → State
add_server_chan ec st = record st { server_map = insert ec [] st.server_map }

unfoldable pub del_server_chan : ℕ → State → State
del_server_chan ec st = record (del_named (lookup ec st.server_map) st) {
  server_map = erase ec st.server_map;
}
