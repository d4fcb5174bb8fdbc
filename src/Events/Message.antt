-- ===== src/Events/Message.antt =====
-- Events of every type: the virtual `serialize_out`, and the functions that make an event from its
-- type and its bytes (src/pwr/allocEvent.cc, tools/pwrdaemon/router/allocEvent.cc and
-- tools/pwrdaemon/server/allocEvent.cc).
pub mod RoundTrip
use pwrapi.Prelude.{ℕ, Option, none, some, Bool, ◌==◌, if◌then◌else◌, ◌>>=◌}
use pwrapi.Serial.{Buf}
use pwrapi.Events.{
  Event, EventType, not_set, comm_create, comm_destroy, comm_req, comm_resp, comm_log_req,
  comm_log_resp, comm_get_samples_req, comm_get_samples_resp, server_connect, router2router, code,
  ServerConnectEvent, server_connect_out, server_connect_in, CommCreateEvent, comm_create_out,
  comm_create_in, CommDestroyEvent, comm_destroy_out, comm_destroy_in,
}
use pwrapi.Events.Requests.{
  CommReqEvent, comm_req_out, comm_req_in, CommLogReqEvent, comm_log_req_out, comm_log_req_in,
  CommGetSamplesReqEvent, comm_get_samples_req_out, comm_get_samples_req_in,
}
use pwrapi.Events.Responses.{
  CommRespEvent, comm_resp_out, comm_resp_in, CommLogRespEvent, comm_log_resp_out, comm_log_resp_in,
  CommGetSamplesRespEvent, comm_get_samples_resp_out, comm_get_samples_resp_in,
}
use pwrapi.Events.Routed.{RouterEvent, router_out, router_in}

-- An event, by its class.
pub data Message : Type 0 where
  create : CommCreateEvent → Message
  destroy : CommDestroyEvent → Message
  req : CommReqEvent → Message
  resp : CommRespEvent → Message
  log_req : CommLogReqEvent → Message
  log_resp : CommLogRespEvent → Message
  samples_req : CommGetSamplesReqEvent → Message
  samples_resp : CommGetSamplesRespEvent → Message
  connect : ServerConnectEvent → Message
  routed : RouterEvent → Message

unfoldable pub event_of : Message → Event
event_of (create ev) = ev.comm.event
event_of (destroy ev) = ev.comm.event
event_of (req ev) = ev.comm.event
event_of (resp ev) = ev.comm.event
event_of (log_req ev) = ev.comm.event
event_of (log_resp ev) = ev.comm.event
event_of (samples_req ev) = ev.comm.event
event_of (samples_resp ev) = ev.comm.event
event_of (connect ev) = ev.event
event_of (routed ev) = ev.event

-- The type that the constructor of the class gives.
unfoldable pub type_of : Message → EventType
type_of (create ev) = comm_create
type_of (destroy ev) = comm_destroy
type_of (req ev) = comm_req
type_of (resp ev) = comm_resp
type_of (log_req ev) = comm_log_req
type_of (log_resp ev) = comm_log_resp
type_of (samples_req ev) = comm_get_samples_req
type_of (samples_resp ev) = comm_get_samples_resp
type_of (connect ev) = server_connect
type_of (routed ev) = router2router

unfoldable pub message_out : Message → Buf → Buf
message_out (create ev) buf = comm_create_out ev buf
message_out (destroy ev) buf = comm_destroy_out ev buf
message_out (req ev) buf = comm_req_out ev buf
message_out (resp ev) buf = comm_resp_out ev buf
message_out (log_req ev) buf = comm_log_req_out ev buf
message_out (log_resp ev) buf = comm_log_resp_out ev buf
message_out (samples_req ev) buf = comm_get_samples_req_out ev buf
message_out (samples_resp ev) buf = comm_get_samples_resp_out ev buf
message_out (connect ev) buf = server_connect_out ev buf
message_out (routed ev) buf = router_out ev buf

-- `new E( buf )` for the class of a type.
unfoldable pub message_in : EventType → Buf → Option Message
message_in not_set buf = none
message_in comm_create buf = do (ev, rest) ← comm_create_in buf; some (create ev)
message_in comm_destroy buf = do (ev, rest) ← comm_destroy_in buf; some (destroy ev)
message_in comm_req buf = do (ev, rest) ← comm_req_in buf; some (req ev)
message_in comm_resp buf = do (ev, rest) ← comm_resp_in buf; some (resp ev)
message_in comm_log_req buf = do (ev, rest) ← comm_log_req_in buf; some (log_req ev)
message_in comm_log_resp buf = do (ev, rest) ← comm_log_resp_in buf; some (log_resp ev)
message_in comm_get_samples_req buf = do
  (ev, rest) ← comm_get_samples_req_in buf
  some (samples_req ev)
message_in comm_get_samples_resp buf = do
  (ev, rest) ← comm_get_samples_resp_in buf
  some (samples_resp ev)
message_in server_connect buf = do (ev, rest) ← server_connect_in buf; some (connect ev)
message_in router2router buf = do (ev, rest) ← router_in buf; some (routed ev)

-- One `case` of a `switch` on the type.
abbrev on_case : EventType → ℕ → Buf → Option Message → Option Message
on_case t type buf other = if type == code t then message_in t buf else other

-- `ctx_allocEvent`: what a context receives. The `default` is `assert(0)`.
unfoldable pub ctx_alloc_event : ℕ → Buf → Option Message
ctx_alloc_event type buf =
    on_case comm_resp type buf
      (on_case comm_log_resp type buf (on_case comm_get_samples_resp type buf none))

-- `PWR_Router::allocRtrEvent` and `PWR_Server::allocRtrEvent`: what comes from a router.
unfoldable pub alloc_rtr_event : ℕ → Buf → Option Message
alloc_rtr_event type buf = on_case router2router type buf none

-- `PWR_Router::allocClientEvent`: what a router receives from a client.
unfoldable pub alloc_client_event : ℕ → Buf → Option Message
alloc_client_event type buf = on_case comm_create type buf (
    on_case comm_req type buf
      (on_case comm_log_req type buf (on_case comm_get_samples_req type buf none)))

-- `PWR_Router::allocServerEvent`: what a router receives from a server.
unfoldable pub alloc_server_event : ℕ → Buf → Option Message
alloc_server_event type buf = on_case router2router type buf (
    on_case comm_resp type buf (
      on_case comm_log_resp type buf
        (on_case comm_get_samples_resp type buf (on_case server_connect type buf none))))

-- `PWR_Server::allocReqEvent`: what a server finds in a routed event.
unfoldable pub alloc_req_event : ℕ → Buf → Option Message
alloc_req_event type buf = on_case comm_create type buf (
    on_case comm_destroy type buf (
      on_case comm_req type buf
        (on_case comm_log_req type buf (on_case comm_get_samples_req type buf none))))
