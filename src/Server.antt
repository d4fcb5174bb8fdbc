-- ===== src/Server.antt =====
-- tools/pwrdaemon/server: a server answers the requests that a router passes on to it, from the
-- objects of its context. A request is kept by the address of its `PWR_Request`, which the source
-- keeps in the event that is the key of `m_finiMap`.
pub mod Reads
pub mod Local
pub mod Routed
use pwrapi.Prelude.{
  ℕ, suc, ◌-◌, ◌%◌, ◌^◌, Option, none, some, Bool, true, false, not, ◌&&◌, List, [], ◌∷◌, ◌++◌,
  ◌==◌, map, set, if◌then◌else◌, ◌>>=◌,
}
use pwrapi.Prelude.Int.{ℤ, pos, negsuc, eq_ℤ}
use pwrapi.Prelude.Map.{Eq, nat_eq, lookup, insert, erase}
use pwrapi.Objects.{success, Status, AttrAccessError, DeviceOps, Slot}
use pwrapi.Events.{
  Text, Event, CommEvent, EventType, comm_resp, comm_log_resp, comm_get_samples_resp, router2router,
  code, CommCreateEvent, CommDestroyEvent,
}
use pwrapi.Events.Requests.{CommReqEvent, CommLogReqEvent}
use pwrapi.Events.Responses.{CommRespEvent, CommLogRespEvent}
use pwrapi.Events.Routed.{RouterEvent}
use pwrapi.Events.Message.{
  Message, create, destroy, req, resp, log_req, log_resp, samples_req, samples_resp, connect,
  routed, message_out, event_of, alloc_req_event,
}
use pwrapi.Dist.{DistRequest, Ctx}
use pwrapi.Dist.Request.{new_request, make_progress}
use pwrapi.Dist.Comm.{get_op, start_op}
use pwrapi.Dist.Object.{DistObject, attr_get_values_nb, attr_set_values_nb, put}
use pwrapi.Dist.Object.Samples.{first_time}
use pwrapi.Dist.Object.Logs.{attr_start_log_nb, attr_stop_log_nb}

-- The response that is made for a request, up to its values and errors.
pub data Answer : Type 0 where
  resp_to : ℕ → ℕ → ℕ → Answer
  log_to : ℕ → ℕ → Answer
  samples_to : ℕ → ℕ → Answer

-- An entry of `m_finiMap`: the routed event's two ends, its channel, and the answer to its payload.
pub record Fini : Type 0 where
  pub src : ℕ
  pub dest : ℕ
  pub chan : ℕ
  pub answer : Answer

-- `m_commMap` and `m_finiMap`, and what was given to channels.
pub record Server (Dev : Type 0) : Type 0 where
  pub comm_map : List (ℕ × List (Option (DistObject Dev)))
  pub fini_map : List (ℕ × Fini)
  pub sent : List (ℕ × Message)

-- An `int` as its bit pattern.
unfoldable pub pattern_of : ℤ → ℕ
pattern_of (pos n) = n % 2 ^ 32
pattern_of (negsuc n) = (2 ^ 32 - 1 - n) % 2 ^ 32

-- `RouterEvent( src, dest, ev )`.
unfoldable pub route_back : Fini → Message → Message
route_back f m = routed (record {
  event = record { type = code router2router; id = 0; status = 0 };
  src = f.dest;
  dest = f.src;
  event_type = (event_of m).type;
  payload = message_out m [];
})

module _ (obj_name : ℕ → Text) where
  -- The loop over `PWR_StatusPopError`, and the rest of the response.
  unfoldable pub answer_of : Answer → DistRequest → Message
  answer_of (resp_to op id grp) r = resp (record {
    comm = record {
      event = record { type = code comm_resp; id = id; status = 0 };
      comm_id = 0;
      op = op;
    };
    time_stamp = if op == get_op then r.times ∷ [] else [];
    value = if op == get_op then r.values ∷ [] else [];
    grp_index = grp;
    err_obj = map (λ (e : AttrAccessError). obj_name e.obj) r.status;
    err_attr = map (λ (e : AttrAccessError). e.name) r.status;
    err_value = map (λ (e : AttrAccessError). pattern_of e.error) r.status;
  })
  answer_of (log_to op id) r = log_resp (record {
    comm = record {
      event = record { type = code comm_log_resp; id = id; status = 0 };
      comm_id = 0;
      op = op;
    };
    err_obj = map (λ (e : AttrAccessError). obj_name e.obj) r.status;
    err_attr = map (λ (e : AttrAccessError). e.name) r.status;
    err_value = map (λ (e : AttrAccessError). pattern_of e.error) r.status;
  })
  answer_of (samples_to id count) r = samples_resp (record {
    comm = record {
      event = record { type = code comm_get_samples_resp; id = id; status = 0 };
      comm_id = 0;
      op = 0;
    };
    start_time = first_time 0 r.times;
    count = count;
    samples = r.values;
    err_obj = map (λ (e : AttrAccessError). obj_name e.obj) r.status;
    err_attr = map (λ (e : AttrAccessError). e.name) r.status;
    err_value = map (λ (e : AttrAccessError). pattern_of e.error) r.status;
  })

  -- `requestFini`, `logReqFini` or `getSamplesFini`, with `Server::fini` and its assertion: the
  -- answer goes back where the request came from, and both are forgotten.
  unfoldable pub fini :
      {Dev : Type 0} → ℕ → DistRequest → Server Dev → Ctx → Option (Server Dev × Ctx)
  fini a r srv ctx = do
    f ← lookup a srv.fini_map
    some (
      record srv {
        sent = srv.sent ++ (f.chan, route_back f (answer_of f.answer r)) ∷ [];
        fini_map = erase a srv.fini_map;
      },
      record ctx { requests = erase a ctx.requests },
    )

  -- After the call: the callback has run, or it is run for a call that has failed.
  unfoldable pub settle : {Dev : Type 0} → ℤ → ℕ → Server Dev → Ctx → Option (Server Dev × Ctx)
  settle ret a srv ctx = do
    r ← lookup a ctx.requests
    if not (r.calls == 0)
        then fini a r srv ctx
        else (if eq_ℤ ret success then some (srv, ctx) else fini a r srv ctx)

  -- `PWR_CntxtMakeProgress`, whose callback is the request's.
  unfoldable pub progress :
      {Dev : Type 0}
      → (Text → ℕ)
      → List Message
      → Server Dev
      → Ctx
      → Option (List Message × Server Dev × Ctx)
  progress get_obj [] srv ctx = none
  progress get_obj (m ∷ ms) srv ctx = do
    c ← lookup (event_of m).id ctx.comm_reqs
    (ms', ctx') ← make_progress get_obj (m ∷ ms) ctx
    r ← lookup c.req ctx'.requests
    (srv', ctx'') ← fini c.req r srv ctx'
    some (ms', srv', ctx'')

-- `m_commMap[commID].objects[0]`; an unknown communicator has no objects.
unfoldable pub first_object :
    {Dev : Type 0} → Option (List (Option (DistObject Dev))) → Option (DistObject Dev)
first_object none = none
first_object (some []) = none
first_object (some (o ∷ os)) = o

unfoldable pub objects_of : {A : Type 0} → Option (List A) → List A
objects_of none = []
objects_of (some os) = os

-- `objects.resize( members.size() )`, where a new pointer is NULL.
unfoldable pub resized : {A : Type 0} → List (List Text) → List (Option A) → List (Option A)
resized [] os = []
resized (m ∷ ms) [] = none ∷ resized ms []
resized (m ∷ ms) (o ∷ os) = o ∷ resized ms os

-- `assert( 1 == members[0].size() )`
unfoldable pub only_name : List (List Text) → Option Text
only_name [] = none
only_name ([] ∷ rest) = none
only_name ((name ∷ []) ∷ rest) = some name
only_name ((name ∷ other ∷ names) ∷ rest) = none

-- The slots of a read, whose values `resize` has made 0, and of a write.
abbrev pub get_slots_of : List ℕ → List Slot
get_slots_of attrs = map (λ (n : ℕ). record { name = n; value = 0; stamp = 0 }) attrs

unfoldable pub set_slots_of : List ℕ → List ℕ → Option (List Slot)
set_slots_of [] vs = some []
set_slots_of (n ∷ attrs) [] = none
set_slots_of (n ∷ attrs) (v ∷ vs) =
    set_slots_of attrs vs
    >>= (λ (rest : List Slot). some (record { name = n; value = v; stamp = 0 } ∷ rest))

-- `PWR_StatusCreate` and `PWR_ReqCreateCallback`.
abbrev pub open_callback : Ctx → ℕ × Ctx
open_callback ctx = (
  ctx.next,
  record ctx { requests = insert ctx.next (new_request [] true) ctx.requests; next = suc ctx.next },
)

module _ {World Dev : Type 0} (ops : DeviceOps World Dev) (obj_name : ℕ → Text) (get_obj : Text → ℕ)
    (find_obj : Text → Option (DistObject Dev)) (unset : ℕ) where
  -- `SrvrCommCreateEvent::process`: one object is looked up, and a communicator that is known keeps
  -- the others that it had.
  unfoldable pub process_create : CommCreateEvent → Server Dev → Option (Server Dev)
  process_create ev srv = do
    name ← only_name ev.members
    o ← find_obj name
    let old = resized ev.members (objects_of (lookup ev.comm_id srv.comm_map))
    some (record srv { comm_map = insert ev.comm_id (set old 0 (some o)) srv.comm_map })

  -- `SrvrCommDestroyEvent::process`.
  unfoldable pub process_destroy : CommDestroyEvent → Server Dev → Server Dev
  process_destroy ev srv = record srv { comm_map = erase ev.comm_id srv.comm_map }

  -- `SrvrCommReqEvent::process` of a read, once its answer is in `m_finiMap`.
  unfoldable pub process_get :
      DistObject Dev → List ℕ → ℕ → Server Dev → Ctx → World → Option (Server Dev × Ctx × World)
  process_get o attrs a srv ctx w = do
    ((ret, slots), ctx₁, w') ← attr_get_values_nb ops unset o (get_slots_of attrs) a ctx w
    (srv', ctx₂) ← settle obj_name ret a srv ctx₁
    some (srv', ctx₂, w')

  -- `SrvrCommReqEvent::process` of a write.
  unfoldable pub process_set :
      DistObject Dev
      → List ℕ
      → List ℕ
      → ℕ
      → Server Dev
      → Ctx
      → World
      → Option (Server Dev × Ctx × World)
  process_set o attrs values a srv ctx w = do
    slots ← set_slots_of attrs values
    (ret, ctx₁, w') ← attr_set_values_nb ops unset o slots a ctx w
    (srv', ctx₂) ← settle obj_name ret a srv ctx₁
    some (srv', ctx₂, w')

  abbrev pub with_fini : ℕ → RouterEvent → ℕ → Answer → Server Dev → Server Dev
  with_fini a ev chan answer srv = record srv {
    fini_map =
        insert a (record { src = ev.src; dest = ev.dest; chan = chan; answer = answer })
          srv.fini_map;
  }

  -- `SrvrCommReqEvent::process`, for the payload of a routed event.
  unfoldable pub process_req :
      RouterEvent → ℕ → CommReqEvent → Server Dev → Ctx → World → Option (Server Dev × Ctx × World)
  process_req re chan ev srv ctx w = do
    o ← first_object (lookup ev.comm_id srv.comm_map)
    let (a, ctx₀) = open_callback ctx
    let srv' = with_fini a re chan (resp_to ev.op ev.id ev.grp_index) srv
    if ev.op == get_op
        then process_get o ev.attr_name a srv' ctx₀ w
        else process_set o ev.attr_name ev.set_values a srv' ctx₀ w

  -- `SrvrCommLogReqEvent::process`.
  unfoldable pub process_log :
      RouterEvent
      → ℕ
      → CommLogReqEvent
      → Server Dev
      → Ctx
      → World
      → Option (Server Dev × Ctx × World)
  process_log re chan ev srv ctx w = do
    o ← first_object (lookup ev.comm_id srv.comm_map)
    let (a, ctx₀) = open_callback ctx
    let srv' = with_fini a re chan (log_to ev.op ev.id) srv
    (ret, ctx₁, w') ←
        if ev.op == start_op
        then attr_start_log_nb ops get_obj o ev.attr_name a ctx₀ w
        else attr_stop_log_nb ops get_obj o ev.attr_name a ctx₀ w
    (srv'', ctx₂) ← settle obj_name ret a srv' ctx₁
    some (srv'', ctx₂, w')
