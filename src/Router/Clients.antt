-- ===== src/Router/Clients.antt =====
-- tools/pwrdaemon/router/client.cc, commCreateEvent.cc and commReqEvent.h: the communicators of the
-- clients, and the events that are sent to each of their objects.
pub mod Sent
pub mod Logs
use pwrapi.Prelude.{ℕ, suc, ◌+◌, Option, none, some, List, [], ◌∷◌, ◌++◌, map, length, ◌>>=◌}
use pwrapi.Prelude.Map.{Eq, nat_eq, lookup, insert, erase}
use pwrapi.Events.{Text, CommEvent, CommCreateEvent, CommDestroyEvent, comm_create, comm_destroy}
use pwrapi.Events.Requests.{CommReqEvent}
use pwrapi.Events.Message.{Message, create, destroy, req}
use pwrapi.Router.Collect.{new_info}
use pwrapi.Router.Send.{State, comm, new_comm, send_obj}

-- `Client::m_commMap`, and `Router::m_clientMap` by the clients' channels.
abbrev pub Client : Type 0
Client = List (ℕ × CommCreateEvent)

-- A router with its clients, and the address of the next `CommReqInfo`.
pub record Clients : Type 0 where
  pub state : State
  pub clients : List (ℕ × Client)
  pub next_info : ℕ

-- An event of its own for each object, in order.
pub record Target : Type 0 where
  pub obj : Text
  pub event : Message

unfoldable pub send_each : (ℕ → ℕ → ℕ) → List Target → State → Option State
send_each fp_add [] st = some st
send_each fp_add (t ∷ ts) st = send_obj fp_add t.obj t.event st >>= send_each fp_add ts

-- `Client::addComm`, with its assertion.
unfoldable pub fresh_comm : Option CommCreateEvent → ℕ → CommCreateEvent → Client → Option Client
fresh_comm none id ev client = some (insert id ev client)
fresh_comm (some old) id ev client = none

unfoldable pub add_comm : ℕ → CommCreateEvent → Client → Option Client
add_comm id ev client = fresh_comm (lookup id client) id ev client

-- The event that the creation of one object is sent as.
unfoldable pub create_one : ℕ → Text → Message
create_one id obj = create (record { comm = new_comm id comm_create 0; members = (obj ∷ []) ∷ [] })

unfoldable pub create_targets : ℕ → List (List Text) → List Target
create_targets id [] = []
create_targets id (objs ∷ groups) =
    map (λ obj. record { obj = obj; event = create_one id obj }) objs ++ create_targets id groups

-- `RtrCommCreateEvent::process`, from the client on the channel `ec`.
unfoldable pub process_create : (ℕ → ℕ → ℕ) → ℕ → CommCreateEvent → Clients → Option Clients
process_create fp_add ec ev r = do
  client ← lookup ec r.clients
  client' ← add_comm ev.comm.comm_id ev client
  st ← send_each fp_add (create_targets ev.comm.comm_id ev.members) r.state
  some (record r { clients = insert ec client' r.clients; state = st })

-- The request as it is sent to an object of the group `i`; its id is the address of its
-- `CommReqInfo`.
unfoldable pub target_of : ℕ → ℕ → CommReqEvent → Text → Target
target_of id i ev obj = record {
  obj = obj;
  event = req (record ev {
    comm = record ev.comm { event = record ev.comm.event { id = id } };
    grp_index = i;
  });
}

-- The group `i` and those behind it.
unfoldable pub req_targets : ℕ → ℕ → CommReqEvent → List (List Text) → List Target
req_targets id i ev [] = []
req_targets id i ev (objs ∷ groups) =
    map (target_of id i ev) objs ++ req_targets id (i + 1) ev groups

-- `RtrCommReqEvent::process`.
unfoldable pub process_req : (ℕ → ℕ → ℕ) → ℕ → CommReqEvent → Clients → Option Clients
process_req fp_add ec ev r = do
  client ← lookup ec r.clients
  creation ← lookup ev.comm.comm_id client
  st ← send_each fp_add (req_targets r.next_info 0 ev creation.members) (record r.state {
    requests =
        insert r.next_info (comm (new_info ec ev (map length creation.members))) r.state.requests;
  })
  some (record r { state = st; next_info = suc r.next_info })

unfoldable pub destroy_one : ℕ → Message
destroy_one id = destroy (record { comm = new_comm id comm_destroy 0 })

-- The first group of a communicator; one with no group is read out of bounds.
unfoldable pub destroy_targets : ℕ → List (List Text) → Option (List Target)
destroy_targets id [] = none
destroy_targets id (objs ∷ groups) =
    some (map (λ obj. record { obj = obj; event = destroy_one id }) objs)

-- `Client::~Client`.
unfoldable pub destroy_comms : (ℕ → ℕ → ℕ) → Client → State → Option State
destroy_comms fp_add [] st = some st
destroy_comms fp_add ((id, ev) ∷ client) st = do
  targets ← destroy_targets ev.comm.comm_id ev.members
  st' ← send_each fp_add targets st
  destroy_comms fp_add client st'

-- `Router::addClientChan` and `Router::delClientChan`.
unfoldable pub add_client_chan : ℕ → Clients → Clients
add_client_chan ec r = record r { clients = insert ec [] r.clients }

unfoldable pub del_client_chan : (ℕ → ℕ → ℕ) → ℕ → Clients → Option Clients
del_client_chan fp_add ec r = do
  client ← lookup ec r.clients
  st ← destroy_comms fp_add client r.state
  some (record r { state = st; clients = erase ec r.clients })
