-- ===== src/Router/Clients/Logs.antt =====
-- tools/pwrdaemon/router/commLogEvents.h and commGetSamplesEvent.h: the requests for the log and for
-- the samples of the one object of a communicator, and the response to a log request.
use pwrapi.Prelude.{
  ℕ, suc, ◌≡◌, refl, ap, ◌∙◌, Option, none, some, List, [], ◌∷◌, ◌++◌, ==_self, ◌>>=◌,
}
use pwrapi.Prelude.Map.{nat_eq, lookup, insert, erase, lookup-insert, lookup-erase}
use pwrapi.Events.{code, Text, CommCreateEvent, comm_log_resp}
use pwrapi.Events.Requests.{CommLogReqEvent, CommGetSamplesReqEvent}
use pwrapi.Events.Responses.{CommLogRespEvent}
use pwrapi.Events.Message.{Message, event_of, log_req, log_resp, samples_req}
use pwrapi.Router.Send.{State, Request, log, samples, new_comm, emit, process_for, process_payload}
use pwrapi.Router.Clients.{Clients, Client, Target, send_each}
use pwrapi.Router.Clients.Sent.{Reached, delivery, out_of, send_each-Reached}

-- The object of a communicator that has one, which the source asserts.
unfoldable pub one_object : List (List Text) → Option Text
one_object ((obj ∷ []) ∷ []) = some obj
one_object other = none

-- The request as it is sent on.
unfoldable pub log_target : ℕ → CommLogReqEvent → Text → Target
log_target id ev obj = record {
  obj = obj;
  event =
      log_req (record ev { comm = record ev.comm { event = record ev.comm.event { id = id } } });
}

unfoldable pub samples_target : ℕ → CommGetSamplesReqEvent → Text → Target
samples_target id ev obj = record {
  obj = obj;
  event =
      samples_req
        (record ev { comm = record ev.comm { event = record ev.comm.event { id = id } } });
}

-- What both requests do: a `CommReqInfo`, and the event to the object.
unfoldable pub ask_one : (ℕ → ℕ → ℕ) → Request → Target → Clients → Option Clients
ask_one fp_add request target r = do
  st ←
      send_each fp_add (target ∷ [])
        (record r.state { requests = insert r.next_info request r.state.requests })
  some (record r { state = st; next_info = suc r.next_info })

-- `RtrCommLogReqEvent::process`.
unfoldable pub process_log_req : (ℕ → ℕ → ℕ) → ℕ → CommLogReqEvent → Clients → Option Clients
process_log_req fp_add ec ev r = do
  client ← lookup ec r.clients
  creation ← lookup ev.comm.comm_id client
  obj ← one_object creation.members
  ask_one fp_add (log ec ev.comm.event.id) (log_target r.next_info ev obj) r

-- `RtrCommGetSamplesReqEvent::process`.
unfoldable pub process_samples_req :
    (ℕ → ℕ → ℕ) → ℕ → CommGetSamplesReqEvent → Clients → Option Clients
process_samples_req fp_add ec ev r = do
  client ← lookup ec r.clients
  creation ← lookup ev.comm.comm_id client
  obj ← one_object creation.members
  ask_one fp_add (samples ec ev.comm.event.id) (samples_target r.next_info ev obj) r

-- The client's request with another id.
abbrev pub logging : ℕ → CommLogReqEvent → Message
logging id ev = log_req (record {
  comm = record {
    event = record { type = ev.comm.event.type; id = id; status = ev.comm.event.status };
    comm_id = ev.comm.comm_id;
    op = ev.comm.op;
  };
  attr_name = ev.attr_name;
})

-- The errors of a response under an id, with an identity that is not set.
abbrev pub logged : ℕ → ℕ → CommLogRespEvent → Message
logged unset id answer = log_resp (record {
  comm = record {
    event = record { type = code comm_log_resp; id = id; status = 0 };
    comm_id = unset;
    op = 0;
  };
  err_obj = answer.err_obj;
  err_attr = answer.err_attr;
  err_value = answer.err_value;
})

-- A log request for a communicator of one object that can be reached goes out once, under an id of
-- the router's. The response that has this id goes to the client that asked, under the client's own
-- id, with the errors of the response and an identity that was never set, and the request is
-- forgotten.
pub process_log_req-answered :
    (fp_add : ℕ → ℕ → ℕ) (ec : ℕ) (ev : CommLogReqEvent) (r : Clients) (client : Client)
    (creation : CommCreateEvent) (obj : Text) (answer : CommLogRespEvent) (chan : Text → ℕ)
    → lookup ec r.clients ≡ some client
    → lookup ev.comm.comm_id client ≡ some creation
    → creation.members ≡ (obj ∷ []) ∷ []
    → Reached r.state chan obj
    → answer.comm.event.id ≡ r.next_info
    → (r' : Clients) × (st : State) × (process_log_req fp_add ec ev r ≡ some r')
      × (r'.state.sent ≡ r.state.sent ++ delivery r.state chan obj (logging r.next_info ev) ∷ [])
      × (process_payload fp_add (log_resp answer) r'.state ≡ some st)
      × (st.sent ≡ r'.state.sent ++ (ec, logged r.state.unset ev.comm.event.id answer) ∷ [])
      × (lookup r.next_info st.requests ≡ none)
unfolding process_log_req ask_one process_payload process_for event_of emit one_object log_target
    new_comm
process_log_req-answered fp_add ec ev r client creation obj answer chan has_client has_comm one h
      same =
    let target : Target = log_target r.next_info ev obj in
    let q : List (ℕ × Request) = insert r.next_info (log ec ev.comm.event.id) r.state.requests in
    let st₁ : State = record r.state {
      sent = r.state.sent ++ out_of r.state chan target ∷ [];
      requests = q;
    } in
    let found : lookup answer.comm.event.id q ≡ some (log ec ev.comm.event.id) =
      ap (λ k. lookup k q) same
      ∙ lookup-insert r.next_info r.next_info (log ec ev.comm.event.id) r.state.requests
      ∙ rw (==_self r.next_info) refl in
    let reply : Message = logged r.state.unset ev.comm.event.id answer in
    (
      record r { state = st₁; next_info = suc r.next_info },
      record st₁ { sent = st₁.sent ++ (ec, reply) ∷ []; requests = erase answer.comm.event.id q },
      rw
          (
            has_client,
            has_comm,
            one,
            send_each-Reached fp_add r.state q chan (target ∷ []) r.state.sent (h, tt),
          )
          refl,
      refl,
      rw (found) refl,
      refl,
      ap (λ k. lookup r.next_info (erase k q)) same
          ∙ lookup-erase r.next_info r.next_info q
          ∙ rw (==_self r.next_info) refl,
    )
