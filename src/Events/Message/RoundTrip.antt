-- ===== src/Events/Message/RoundTrip.antt =====
-- A receiver makes the event that was sent, if its type is among those that it takes, and faults
-- otherwise.
use pwrapi.Prelude.{◌≡◌, refl, ℕ, Option, none, some, Bool, true, false, if◌then◌else◌}
use pwrapi.Serial.{Buf}
use pwrapi.Events.{
  EventType, not_set, comm_create, comm_destroy, comm_req, comm_resp, comm_log_req, comm_log_resp,
  comm_get_samples_req, comm_get_samples_resp, server_connect, router2router, code,
}
use pwrapi.Events.RoundTrip.{
  FitsCreate, comm_create_in-comm_create_out, FitsDestroy, comm_destroy_in-comm_destroy_out,
  FitsConnect, server_connect_in-server_connect_out,
}
use pwrapi.Events.Requests.RoundTrip.{
  FitsReq, comm_req_in-comm_req_out, FitsLogReq, comm_log_req_in-comm_log_req_out,
  FitsGetSamplesReq, comm_get_samples_req_in-comm_get_samples_req_out,
}
use pwrapi.Events.Responses.RoundTrip.{
  FitsResp, comm_resp_in-comm_resp_out, FitsLogResp, comm_log_resp_in-comm_log_resp_out,
  FitsGetSamplesResp, comm_get_samples_resp_in-comm_get_samples_resp_out,
}
use pwrapi.Events.Routed.{FitsRouter, router_in-router_out}
use pwrapi.Events.Message.{
  Message, create, destroy, req, resp, log_req, log_resp, samples_req, samples_resp, connect,
  routed, type_of, message_out, message_in, ctx_alloc_event, alloc_rtr_event, alloc_client_event,
  alloc_server_event, alloc_req_event,
}

-- Every field is within its type, and every vector is shorter than 2 ^ 32.
abbrev pub FitsMessage : Message → Type 0
FitsMessage (create ev) = FitsCreate ev
FitsMessage (destroy ev) = FitsDestroy ev
FitsMessage (req ev) = FitsReq ev
FitsMessage (resp ev) = FitsResp ev
FitsMessage (log_req ev) = FitsLogReq ev
FitsMessage (log_resp ev) = FitsLogResp ev
FitsMessage (samples_req ev) = FitsGetSamplesReq ev
FitsMessage (samples_resp ev) = FitsGetSamplesResp ev
FitsMessage (connect ev) = FitsConnect ev
FitsMessage (routed ev) = FitsRouter ev

pub message_in-message_out :
    (m : Message) (buf : Buf) → FitsMessage m → message_in (type_of m) (message_out m buf) ≡ some m
unfolding message_in message_out type_of
message_in-message_out (create ev) buf fits = rw (comm_create_in-comm_create_out ev buf fits)
message_in-message_out (destroy ev) buf fits = rw (comm_destroy_in-comm_destroy_out ev buf fits)
message_in-message_out (req ev) buf fits = rw (comm_req_in-comm_req_out ev buf fits)
message_in-message_out (resp ev) buf fits = rw (comm_resp_in-comm_resp_out ev buf fits)
message_in-message_out (log_req ev) buf fits = rw (comm_log_req_in-comm_log_req_out ev buf fits)
message_in-message_out (log_resp ev) buf fits = rw (comm_log_resp_in-comm_log_resp_out ev buf fits)
message_in-message_out (samples_req ev) buf fits =
    rw (comm_get_samples_req_in-comm_get_samples_req_out ev buf fits)
message_in-message_out (samples_resp ev) buf fits =
    rw (comm_get_samples_resp_in-comm_get_samples_resp_out ev buf fits)
message_in-message_out (connect ev) buf fits = rw (server_connect_in-server_connect_out ev buf fits)
message_in-message_out (routed ev) buf fits = rw (router_in-router_out ev buf fits)

-- The five receivers.
pub data Receiver : Type 0 where
  context router_link client_port server_port server_payload : Receiver

abbrev pub alloc : Receiver → ℕ → Buf → Option Message
alloc context = ctx_alloc_event
alloc router_link = alloc_rtr_event
alloc client_port = alloc_client_event
alloc server_port = alloc_server_event
alloc server_payload = alloc_req_event

-- Who takes which type.
abbrev pub takes : Receiver → EventType → Bool
takes context comm_resp = true
takes context comm_log_resp = true
takes context comm_get_samples_resp = true
takes context _ = false
takes router_link router2router = true
takes router_link _ = false
takes client_port comm_create = true
takes client_port comm_req = true
takes client_port comm_log_req = true
takes client_port comm_get_samples_req = true
takes client_port _ = false
takes server_port router2router = true
takes server_port comm_resp = true
takes server_port comm_log_resp = true
takes server_port comm_get_samples_resp = true
takes server_port server_connect = true
takes server_port _ = false
takes server_payload comm_create = true
takes server_payload comm_destroy = true
takes server_payload comm_req = true
takes server_payload comm_log_req = true
takes server_payload comm_get_samples_req = true
takes server_payload _ = false

-- The `switch` of a receiver reads an event of each type that it takes, and faults at any other.
pub alloc-message_in :
    (r : Receiver) (t : EventType) (buf : Buf)
    → alloc r (code t) buf ≡ (if takes r t then message_in t buf else none)
unfolding ctx_alloc_event alloc_rtr_event alloc_client_event alloc_server_event alloc_req_event code
alloc-message_in context not_set buf = refl
alloc-message_in context comm_create buf = refl
alloc-message_in context comm_destroy buf = refl
alloc-message_in context comm_req buf = refl
alloc-message_in context comm_resp buf = refl
alloc-message_in context comm_log_req buf = refl
alloc-message_in context comm_log_resp buf = refl
alloc-message_in context comm_get_samples_req buf = refl
alloc-message_in context comm_get_samples_resp buf = refl
alloc-message_in context server_connect buf = refl
alloc-message_in context router2router buf = refl
alloc-message_in router_link not_set buf = refl
alloc-message_in router_link comm_create buf = refl
alloc-message_in router_link comm_destroy buf = refl
alloc-message_in router_link comm_req buf = refl
alloc-message_in router_link comm_resp buf = refl
alloc-message_in router_link comm_log_req buf = refl
alloc-message_in router_link comm_log_resp buf = refl
alloc-message_in router_link comm_get_samples_req buf = refl
alloc-message_in router_link comm_get_samples_resp buf = refl
alloc-message_in router_link server_connect buf = refl
alloc-message_in router_link router2router buf = refl
alloc-message_in client_port not_set buf = refl
alloc-message_in client_port comm_create buf = refl
alloc-message_in client_port comm_destroy buf = refl
alloc-message_in client_port comm_req buf = refl
alloc-message_in client_port comm_resp buf = refl
alloc-message_in client_port comm_log_req buf = refl
alloc-message_in client_port comm_log_resp buf = refl
alloc-message_in client_port comm_get_samples_req buf = refl
alloc-message_in client_port comm_get_samples_resp buf = refl
alloc-message_in client_port server_connect buf = refl
alloc-message_in client_port router2router buf = refl
alloc-message_in server_port not_set buf = refl
alloc-message_in server_port comm_create buf = refl
alloc-message_in server_port comm_destroy buf = refl
alloc-message_in server_port comm_req buf = refl
alloc-message_in server_port comm_resp buf = refl
alloc-message_in server_port comm_log_req buf = refl
alloc-message_in server_port comm_log_resp buf = refl
alloc-message_in server_port comm_get_samples_req buf = refl
alloc-message_in server_port comm_get_samples_resp buf = refl
alloc-message_in server_port server_connect buf = refl
alloc-message_in server_port router2router buf = refl
alloc-message_in server_payload not_set buf = refl
alloc-message_in server_payload comm_create buf = refl
alloc-message_in server_payload comm_destroy buf = refl
alloc-message_in server_payload comm_req buf = refl
alloc-message_in server_payload comm_resp buf = refl
alloc-message_in server_payload comm_log_req buf = refl
alloc-message_in server_payload comm_log_resp buf = refl
alloc-message_in server_payload comm_get_samples_req buf = refl
alloc-message_in server_payload comm_get_samples_resp buf = refl
alloc-message_in server_payload server_connect buf = refl
alloc-message_in server_payload router2router buf = refl

-- From the type and the bytes of an event whose fields are within their types, a receiver makes that
-- event if it takes its type, and faults if not.
pub alloc-message_out :
    (r : Receiver) (m : Message) (buf : Buf)
    → FitsMessage m
    → alloc r (code (type_of m)) (message_out m buf)
      ≡ (if takes r (type_of m) then some m else none)
alloc-message_out r m buf fits =
    rw (alloc-message_in r (type_of m) (message_out m buf), message_in-message_out m buf fits)
