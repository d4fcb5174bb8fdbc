-- ===== src/Dist/Comm.antt =====
-- src/pwr/distComm.cc: the communicator of a set of remote objects. It is made known to the router
-- before the first event, and each operation sends one event. The context has a channel.
pub mod Sent
use pwrapi.Prelude.{
  ℕ, suc, ◌+◌, ◌*◌, ◌%◌, ◌^◌, Option, none, some, Bool, true, false, List, [], ◌∷◌, ◌++◌, bit_or,
  if◌then◌else◌, ◌>>=◌,
}
use pwrapi.Prelude.Map.{Eq, nat_eq, lookup, insert}
use pwrapi.Events.{
  Event, CommEvent, CommCreateEvent, EventType, comm_create, comm_req, comm_log_req,
  comm_get_samples_req, code, Text,
}
use pwrapi.Events.Requests.{CommReqEvent, CommLogReqEvent, CommGetSamplesReqEvent}
use pwrapi.Events.Message.{Message, create, req, log_req, samples_req}
use pwrapi.Dist.{Kind, DistCommReq, DistRequest, DistComm, Ctx}

-- `CommEvent::OpType`.
abbrev pub noop : ℕ
noop = 0

abbrev pub get_op : ℕ
get_op = 1

abbrev pub set_op : ℕ
set_op = 2

abbrev pub start_op : ℕ
start_op = 3

abbrev pub stop_op : ℕ
stop_op = 4

-- `((CommID)gettid() << 32) | m_currentCommID++`: the identity and the next counter.
unfoldable pub new_comm_id : ℕ → ℕ → ℕ × ℕ
new_comm_id tid current = (bit_or (tid * 2 ^ 32 % 2 ^ 64) current, suc current % 2 ^ 32)

-- `DistComm( ctx, objects )`.
unfoldable pub new_comm : ℕ → ℕ → List Text → DistComm × ℕ
new_comm tid current objects =
    let (id, next) = new_comm_id tid current in
    (record { comm_id = id; objects = objects; opened = false }, next)

-- A `CommEvent` of a type, an id, a communicator and an operation.
unfoldable pub comm_event : EventType → ℕ → ℕ → ℕ → CommEvent
comm_event type id comm_id op = record {
  event = record { type = code type; id = id; status = 0 };
  comm_id = comm_id;
  op = op;
}

unfoldable pub send : Message → Ctx → Ctx
send m ctx = record ctx { sent = ctx.sent ++ m ∷ [] }

unfoldable pub create_event : DistComm → Message
create_event c =
    create (record { comm = comm_event comm_create 0 c.comm_id noop; members = c.objects ∷ [] })

-- `DistComm::getChannel`.
unfoldable pub get_channel : ℕ → DistComm → Ctx → Ctx
get_channel a c ctx =
    if c.opened
    then ctx
    else send (create_event c)
        (record ctx { comms = insert a (record c { opened = true }) ctx.comms })

-- `getChannel().sendEvent( ev )`, for the event of the communicator.
unfoldable pub send_on : ℕ → (DistComm → Message) → Ctx → Option Ctx
send_on a ev ctx =
    lookup a ctx.comms >>= (λ (c : DistComm). some (send (ev c) (get_channel a c ctx)))

-- The events of `getValues`, `setValues`, `startLog`, `stopLog` and `getSamples`. `unset` is what the
-- member `grpIndex`, which `setValues` does not set, holds.
unfoldable pub get_event : List ℕ → List ℕ → ℕ → DistComm → Message
get_event attrs ops id c = req (record {
  comm = comm_event comm_req id c.comm_id get_op;
  grp_index = 0;
  attr_name = attrs;
  set_values = [];
  value_op = ops;
})

unfoldable pub set_event : ℕ → List ℕ → List ℕ → ℕ → DistComm → Message
set_event unset attrs values id c = req (record {
  comm = comm_event comm_req id c.comm_id set_op;
  grp_index = unset;
  attr_name = attrs;
  set_values = values;
  value_op = [];
})

unfoldable pub log_event : ℕ → ℕ → ℕ → DistComm → Message
log_event op attr id c =
    log_req (record { comm = comm_event comm_log_req id c.comm_id op; attr_name = attr })

unfoldable pub samples_event : ℕ → ℕ → ℕ → ℕ → ℕ → DistComm → Message
samples_event attr start period count id c = samples_req (record {
  comm = comm_event comm_get_samples_req id c.comm_id noop;
  attr_name = attr;
  start_time = start;
  period = period;
  count = count;
})

-- `DistComm::getValues`, `setValues`, `startLog`, `stopLog` and `getSamples`.
unfoldable pub get_values : ℕ → List ℕ → List ℕ → ℕ → Ctx → Option Ctx
get_values a attrs ops id = send_on a (get_event attrs ops id)

unfoldable pub set_values : ℕ → ℕ → List ℕ → List ℕ → ℕ → Ctx → Option Ctx
set_values unset a attrs values id = send_on a (set_event unset attrs values id)

unfoldable pub start_log : ℕ → ℕ → ℕ → Ctx → Option Ctx
start_log a attr id = send_on a (log_event start_op attr id)

unfoldable pub stop_log : ℕ → ℕ → ℕ → Ctx → Option Ctx
stop_log a attr id = send_on a (log_event stop_op attr id)

unfoldable pub get_samples : ℕ → ℕ → ℕ → ℕ → ℕ → ℕ → Ctx → Option Ctx
get_samples a attr start period count id = send_on a (samples_event attr start period count id)

-- `DistReq::insert( new Dist..CommReq( req ) )`: the address of the part.
unfoldable pub insert_req : Kind → ℕ → Ctx → Option (ℕ × Ctx)
insert_req kind a ctx = do
  r ← lookup a ctx.requests
  some (
    ctx.next,
    record ctx {
      requests = insert a (record r { comm_reqs = ctx.next ∷ r.comm_reqs }) ctx.requests;
      comm_reqs = insert ctx.next (record { kind = kind; req = a }) ctx.comm_reqs;
      next = suc ctx.next;
    },
  )
