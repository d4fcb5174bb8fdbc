-- ===== src/Tests/Dist.antt =====
-- A request with two parts, an object whose attributes 6 and 12 are on the node of communicator 50,
-- and a group of one object of this node and one of that.
use pwrapi.Prelude.{
  ℕ, ◌/◌, ◌%◌, ◌^◌, ◌<◌, ◌≡◌, ◌↔◌, ◌⊎◌, refl, Option, none, some, true, false, ◌||◌, List, [], ◌∷◌,
  ◌++◌, ◌==◌, map, All, Among, if◌then◌else◌, arith,
}
use pwrapi.Prelude.Int.{ℤ, negsuc}
use pwrapi.Prelude.Map.{nat_eq, lookup, insert}
use pwrapi.Objects.{is_empty, ret_status, no_devices, success, Slot}
use pwrapi.Events.{Text, comm_resp, code}
use pwrapi.Events.Responses.{CommRespEvent}
use pwrapi.Events.Message.{Message, resp, event_of}
use pwrapi.Dist.{dist_set, DistCommReq, DistRequest, DistComm, Ctx}
use pwrapi.Dist.Request.{ret_ipc, drop_req, note_errors, set_value, on_resp, respond, process, wait}
use pwrapi.Dist.Request.Parts.{Owned, id_of}
use pwrapi.Dist.Request.Wait.{process_all, await, Waited, wait-await, wait-Among}
use pwrapi.Dist.Request.Rows.{concat, no_rows, one_more}
use pwrapi.Dist.Comm.{log_event, start_op, new_comm_id}
use pwrapi.Dist.Comm.Sent.{
  get, start, introduction, greeting, event_for, run_ops, run_ops-sent, new_comm_id_bounds,
}
use pwrapi.Dist.Object.{
  DistObject, is_set, filled, names_of, find_comm, take_comm, take_comms, any_comm, first_comm,
}
use pwrapi.Dist.Object.Sync.{attr_get_values_sync}
use pwrapi.Dist.Object.Logs.{attr_start_log_sync}
use pwrapi.Dist.Object.Answered.{Reported, attr_get_values_sync-answered}
use pwrapi.Dist.Object.Closed.{attr_start_log_sync-closed}
use pwrapi.Dist.Object.Home.{IsServed, find_comm-IsServed}
use pwrapi.Dist.Group.{Member, DistGrp, Run, add_member, has_member, get_remotes}
use pwrapi.Dist.Group.Add.{Added, Once, IsSplit, add_member-IsSplit}
use pwrapi.Dist.Group.Rows.{get_remotes-rows}
use pwrapi.Tests.Objects.{machine}

abbrev no_name : Text → ℕ
no_name name = 0

abbrev answer : ℕ → List (List ℕ) → List (List ℕ) → CommRespEvent
answer id vss tss = record {
  comm = record {
    event = record { type = code comm_resp; id = id; status = 0 };
    comm_id = 0;
    op = 0;
  };
  time_stamp = tss;
  value = vss;
  grp_index = 0;
  err_obj = [];
  err_attr = [];
  err_value = [];
}

-- A request at 1 that waits for 10 and 11, which are writes.
abbrev waiting : List ℕ → DistRequest
waiting parts = record {
  comm_reqs = parts;
  rows = none ∷ [];
  values = [];
  times = [];
  status = [];
  has_callback = true;
  calls = 0;
}

abbrev part : DistCommReq
part = record { kind = dist_set; req = 1 }

abbrev with_parts : List ℕ → Ctx
with_parts parts = record {
  requests = (1, waiting parts) ∷ [];
  comm_reqs = (10, part) ∷ (11, part) ∷ [];
  comms = [];
  next = 12;
  sent = [];
}

abbrev both : List ℕ
both = 10 ∷ 11 ∷ []

abbrev answers : List Message
answers = resp (answer 11 [] []) ∷ resp (answer 10 [] []) ∷ []

all_processed : process_all no_name answers (with_parts both) ≡ some (with_parts [])
unfolding process_all process respond on_resp set_value note_errors drop_req event_of lookup insert
all_processed = refl

at_head : (r : DistRequest) → lookup {K = ℕ} 1 ((1, r) ∷ []) ≡ some r
unfolding lookup
at_head r = refl

Owned-both : Owned (with_parts both) 1 both
unfolding lookup
Owned-both = ((dist_set, refl), ((dist_set, refl), tt))

wait-await_example : Waited no_name 1 answers (with_parts both) (await both (map id_of answers))
wait-await_example =
    wait-await no_name answers (with_parts both) (with_parts []) 1 (waiting both) all_processed
      (at_head (waiting both)) Owned-both

wait-Among_example :
    (ret : ℤ) × (rest : List Message) × (ctx₁ : Ctx) × (wait no_name 1 answers (with_parts both)
      ≡ some (ret, rest, ctx₁))
    × ((ret ≡ success) ↔ ((x : ℕ) → Among x both → Among x (map id_of answers)))
    × ((ret ≡ success) ⊎ (ret ≡ ret_ipc))
wait-Among_example =
    wait-Among no_name answers (with_parts both) (with_parts []) 1 (waiting both) all_processed
      (at_head (waiting both)) Owned-both

-- Attributes 6 and 12 are on the node of communicator 50, and 7 is on device 0 of this node.
abbrev far_node : DistObject ℕ
far_node = record {
  id = 3;
  devices = λ name. if name == 7 then 0 ∷ [] else [];
  operation = λ name vs. 0;
  calc_time = λ name vs. 0;
  comm = λ name. if name == 7 then none else some 50;
  value_op = λ name. 1;
}

abbrev far : Text
far = b'f' ∷ []

abbrev comm : DistComm
comm = record { comm_id = 900; objects = far ∷ []; opened = false }

abbrev start_ctx : Ctx
start_ctx = record { requests = []; comm_reqs = []; comms = (50, comm) ∷ []; next = 60; sent = [] }

abbrev slot : ℕ → Slot
slot name = record { name = name; value = 1; stamp = 1 }

comm_known : lookup {K = ℕ} 50 ((50, comm) ∷ []) ≡ some comm
unfolding lookup
comm_known = refl

abbrev far_slots : List Slot
far_slots = slot 6 ∷ slot 12 ∷ []

-- The far object could not be read: its attribute 12 gives -5.
abbrev reported : Reported
reported = record { object = far; attr = 12; error = negsuc 4 }

abbrev far_answer : CommRespEvent
far_answer = record (answer 61 ((30 ∷ 31 ∷ []) ∷ []) ((40 ∷ 41 ∷ []) ∷ [])) {
  err_obj = far ∷ [];
  err_attr = 12 ∷ [];
  err_value = 4294967291 ∷ [];
}

attr_get_values_sync-answered_example :
    (ctx' : Ctx) × (attr_get_values_sync machine no_name 0 far_node far_slots []
        (resp far_answer ∷ [])
        start_ctx
        8
      ≡ some (
        (
          ret_status,
          filled far_slots (30 ∷ 31 ∷ []) (40 ∷ 41 ∷ []),
          record { obj = no_name far; name = 12; error = negsuc 4 } ∷ [],
        ),
        [],
        ctx',
        8,
      ))
    × (ctx'.sent
        ≡ []
          ++ (greeting comm
              ++ event_for comm
                  (get (names_of far_slots) (map far_node.value_op (names_of far_slots)) 61)
                ∷ []))
unfolding is_empty
attr_get_values_sync-answered_example =
    attr_get_values_sync-answered machine no_name 0 far_node 50 comm (slot 6) (slot 12 ∷ []) []
      far_answer (reported ∷ []) (30 ∷ 31 ∷ []) (40 ∷ 41 ∷ []) [] start_ctx 8
      ((refl, refl), ((refl, refl), tt)) comm_known refl refl refl refl refl refl refl refl
      (ground arith, tt)

attr_start_log_sync-closed_example :
    (ctx' : Ctx) × (attr_start_log_sync machine no_name far_node 6 [] start_ctx 8
      ≡ some (success, [], ctx', 8))
    × (ctx'.sent ≡ [] ++ (greeting comm ++ log_event start_op 6 61 comm ∷ []))
attr_start_log_sync-closed_example =
    attr_start_log_sync-closed machine no_name far_node 50 6 comm start_ctx 8 refl refl comm_known

run_ops-sent_example :
    run_ops 50 (start 6 70 ∷ get (6 ∷ []) (1 ∷ []) 71 ∷ []) start_ctx
    ≡ some (record start_ctx {
      comms = insert 50 (record comm { opened = true }) ((50, comm) ∷ []);
      sent =
          []
          ++ introduction comm ∷ map (event_for comm) (start 6 70 ∷ get (6 ∷ []) (1 ∷ []) 71 ∷ []);
    })
run_ops-sent_example =
    run_ops-sent 50 comm (start 6 70) (get (6 ∷ []) (1 ∷ []) 71 ∷ []) start_ctx refl comm_known

new_comm_id_bounds_example :
    ((new_comm_id 4242 4294967295).0 < 2 ^ 64)
    × ((new_comm_id 4242 4294967295).0 / 2 ^ 32 ≡ 4242)
    × ((new_comm_id 4242 4294967295).0 % 2 ^ 32 ≡ 4294967295)
    × ((new_comm_id 4242 4294967295).1 < 2 ^ 32)
new_comm_id_bounds_example = new_comm_id_bounds 4242 4294967295 (omega arith) (omega arith)

-- The communicators of four attributes.
abbrev attrs : List (Option ℕ × List ℕ)
attrs = (none, []) ∷ (some 50, []) ∷ (none, 0 ∷ []) ∷ (some 50, []) ∷ []

attrs_home : find_comm attrs ≡ some (some 50)
unfolding find_comm take_comms take_comm any_comm first_comm no_devices
attrs_home = refl

find_comm-IsServed_example : All (IsServed (some 50)) attrs
find_comm-IsServed_example = find_comm-IsServed attrs (some 50) attrs_home

abbrev near_member : Member ℕ
near_member = record { object = record far_node { id = 2 }; comm = none }

abbrev far_member : Member ℕ
far_member = record { object = far_node; comm = some 50 }

abbrev group : DistGrp ℕ
group = record {
  locals = near_member ∷ [];
  remotes = far_member ∷ [];
  all = near_member ∷ far_member ∷ [];
  comm = some 50;
}

group_whole :
    (id : ℕ) → has_member id group.all ≡ has_member id group.locals || has_member id group.remotes
unfolding has_member
group_whole id = ground arith

group-IsSplit : IsSplit group
unfolding has_member is_set Once
group-IsSplit = record {
  here = (refl, tt);
  there = (refl, tt);
  locals_once = (refl, tt);
  remotes_once = (refl, tt);
  whole = group_whole;
}

add_member-IsSplit_example :
    IsSplit (add_member far_member group).1 × Added far_member group (add_member far_member group)
add_member-IsSplit_example = add_member-IsSplit far_member group group-IsSplit

no_errors : note_errors no_name [] [] [] [] ≡ some []
unfolding note_errors
no_errors = refl

-- The arrays after the read of the local object, whose values are 1 and 2.
abbrev half_read : Run ℕ
half_read = record {
  values = 1 ∷ 2 ∷ 0 ∷ 0 ∷ [];
  times = 3 ∷ 4 ∷ 0 ∷ 0 ∷ [];
  status = [];
  events = resp (answer 61 ((30 ∷ 31 ∷ []) ∷ []) ((40 ∷ 41 ∷ []) ∷ [])) ∷ [];
  ctx = start_ctx;
  world = 8;
}

get_remotes-rows_example :
    (ctx' : Ctx) × (get_remotes machine no_name 0 4242 1 (6 ∷ 12 ∷ []) group half_read
      ≡ some (
        1,
        group,
        record half_read {
          values = concat ((30 ∷ 31 ∷ []) ∷ []) ++ 0 ∷ 0 ∷ [];
          times = concat ((40 ∷ 41 ∷ []) ∷ []) ++ 0 ∷ 0 ∷ [];
          status = [];
          events = [];
          ctx = ctx';
        },
      ))
get_remotes-rows_example =
    get_remotes-rows machine no_name 0 4242 1 (6 ∷ 12 ∷ []) group half_read far_member [] 50 comm
      (answer 61 ((30 ∷ 31 ∷ []) ∷ []) ((40 ∷ 41 ∷ []) ∷ [])) [] ((30 ∷ 31 ∷ []) ∷ [])
      ((40 ∷ 41 ∷ []) ∷ []) ((1 ∷ 2 ∷ []) ∷ []) ((3 ∷ 4 ∷ []) ∷ []) (0 ∷ 0 ∷ []) (0 ∷ 0 ∷ []) []
      group-IsSplit refl refl comm_known refl refl refl refl refl
      (one_more (30 ∷ 31 ∷ []) (40 ∷ 41 ∷ []) (1 ∷ 2 ∷ []) (3 ∷ 4 ∷ []) refl refl refl refl no_rows)
      refl refl no_errors
