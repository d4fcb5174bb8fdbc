-- ===== src/Tests/Clients.antt =====
-- The client on the channel 60 makes a communicator of one object, and asks for its attributes.
use pwrapi.Prelude.{
  ℕ, ◌≡◌, ◌≢◌, inr, refl, sym, ap, ◌∙◌, none, some, [], ◌∷◌, ◌++◌, map, length, arith,
}
use pwrapi.Prelude.Map.{nat_eq, lookup, insert}
use pwrapi.Events.{Text, CommCreateEvent}
use pwrapi.Events.Requests.{CommReqEvent}
use pwrapi.Router.Ids.{no_id, rtr_id, server_id}
use pwrapi.Router.Collect.{new_info}
use pwrapi.Router.Collect.Pending.{total_size}
use pwrapi.Router.Send.{comm}
use pwrapi.Router.Clients.{Clients, Client, process_req, process_create}
use pwrapi.Router.Clients.Sent.{
  Reached, delivery, asking, creating, numbered, process_req-sent, process_create-sent,
}
use pwrapi.Router.Clients.Logs.{logging, logged, process_log_req, process_log_req-answered}
use pwrapi.Events.Requests.{CommLogReqEvent}
use pwrapi.Events.Responses.{CommLogRespEvent}
use pwrapi.Events.Message.{log_resp}
use pwrapi.Router.Send.{State, process_payload}
use pwrapi.Tests.Sending.{plus, node, own, running, route_own, own_here, own_server, own_known}

abbrev creation : CommCreateEvent
creation = record {
  comm = record { event = record { type = 1; id = 0; status = 0 }; comm_id = 7; op = 0 };
  members = (node ∷ []) ∷ [];
}

abbrev request : CommReqEvent
request = record {
  comm = record { event = record { type = 3; id = 5; status = 0 }; comm_id = 7; op = 1 };
  grp_index = 0;
  attr_name = 6 ∷ [];
  set_values = [];
  value_op = 1 ∷ [];
}

abbrev before : Clients
before = record { state = running; clients = (60, []) ∷ []; next_info = 1000 }

abbrev after : Clients
after = record { state = running; clients = (60, (7, creation) ∷ []) ∷ []; next_info = 1000 }

abbrev client_one : Client
client_one = (7, creation) ∷ []

abbrev client_none : Client
client_none = []

real_own : own ≢ no_id
real_own e = absurd (omega (arith, e))

abbrev chan : Text → ℕ
chan obj = 70

node-Reached : Reached running chan node
node-Reached = record {
  real = λ f. real_own (sym route_own ∙ f);
  way = inr (
    ap rtr_id route_own ∙ own_here,
    λ f. own_server (sym (ap server_id route_own) ∙ f),
    ap (λ a. lookup (server_id a) running.local_map) route_own ∙ own_known,
  );
}

client_before : lookup 60 before.clients ≡ some []
unfolding lookup
client_before = refl

client_after : lookup 60 after.clients ≡ some client_one
unfolding lookup
client_after = refl

no_comm : lookup 7 client_none ≡ none
unfolding lookup
no_comm = refl

has_comm : lookup 7 client_one ≡ some creation
unfolding lookup
has_comm = refl

process_create-sent_example :
    (r' : Clients) × (process_create plus 60 creation before ≡ some r')
    × (r'.state.sent ≡ running.sent ++ delivery running chan node (creating 7 node) ∷ [])
    × (lookup 60 r'.clients ≡ some (insert 7 creation []))
unfolding numbered
process_create-sent_example =
    process_create-sent plus 60 creation before client_none chan client_before no_comm
      ((node-Reached, tt), tt)

process_req-sent_example :
    (r' : Clients) × (process_req plus 60 request after ≡ some r')
    × (r'.state.sent ≡ running.sent ++ delivery running chan node (asking 1000 request 0) ∷ [])
    × (lookup 1000 r'.state.requests
        ≡ some (comm (new_info 60 request (map length creation.members))))
    × (1 ≡ total_size (map length creation.members))
unfolding numbered
process_req-sent_example =
    process_req-sent plus 60 request after client_one creation chan client_after has_comm
      ((node-Reached, tt), tt)

abbrev log_request : CommLogReqEvent
log_request = record {
  comm = record { event = record { type = 5; id = 8; status = 0 }; comm_id = 7; op = 3 };
  attr_name = 6;
}

abbrev log_answer : CommLogRespEvent
log_answer = record {
  comm = record { event = record { type = 6; id = 1000; status = 0 }; comm_id = 7; op = 0 };
  err_obj = [];
  err_attr = [];
  err_value = [];
}

process_log_req-answered_example :
    (r' : Clients) × (st : State) × (process_log_req plus 60 log_request after ≡ some r')
    × (r'.state.sent ≡ running.sent ++ delivery running chan node (logging 1000 log_request) ∷ [])
    × (process_payload plus (log_resp log_answer) r'.state ≡ some st)
    × (st.sent ≡ r'.state.sent ++ (60, logged running.unset 8 log_answer) ∷ [])
    × (lookup 1000 st.requests ≡ none)
process_log_req-answered_example =
    process_log_req-answered plus 60 log_request after client_one creation node log_answer chan
      client_after has_comm refl node-Reached refl
