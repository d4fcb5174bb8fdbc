-- ===== src/Tests/Server.antt =====
-- A tree of three objects, one of which another server has, and a read that a server answers.
use pwrapi.Prelude.{
  ℕ, ◌<◌, ◌≡◌, ◌↔◌, ◌⊎◌, inl, inr, refl, sym, subst, Option, none, some, Bool-cases, List, [], ◌∷◌,
  ◌++◌, ◌==◌, Among, if◌then◌else◌, ◌>>=◌, arith,
}
use pwrapi.Prelude.Map.{nat_eq, text_eq, text_beq, lookup, insert}
use pwrapi.Objects.{
  failure, ret_status, Status, is_empty, add_error, Slot, attr_get_values, get_slots,
  attr_get_values_device, read_devices, combine, is_valid, no_devices,
}
use pwrapi.Events.{Text, comm_req, router2router, code}
use pwrapi.Events.Requests.{CommReqEvent}
use pwrapi.Events.Routed.{RouterEvent}
use pwrapi.Events.Message.{resp}
use pwrapi.Dist.{Ctx}
use pwrapi.Dist.Comm.{get_op}
use pwrapi.Dist.Object.{DistObject, as_object, is_set}
use pwrapi.Dist.Cntxt.{
  ObjDev, Config, Found, each, entries, open_at, init_device, dev_ops, add_dev, add_devs,
  insert_name, is_remote, traverse,
}
use pwrapi.Dist.Cntxt.Traverse.{Serves, traverse-Serves}
use pwrapi.Dist.Cntxt.Ends.{traverse_total}
use pwrapi.Server.{Server, process_req, get_slots_of}
use pwrapi.Server.Local.{clean_response, reply, process_req-Local}
use pwrapi.Tests.Objects.{machine}

abbrev root : Text
root = b'r' ∷ []

abbrev near : Text
near = b'a' ∷ []

abbrev far : Text
far = b'b' ∷ []

abbrev dev : ObjDev
dev = record { device = b'd' ∷ []; open_string = b'0' ∷ [] }

-- Each object has the device, and `far` has a server.
abbrev cfg : Config
cfg = record {
  has_server = λ name. text_beq name far;
  find_obj_devs = λ name attr. dev ∷ [];
  find_attr_children = λ name attr. if text_beq name root then near ∷ far ∷ [] else [];
  find_attr_op = λ name attr. [];
  find_attr_type = λ name attr. [];
  find_sys_devs = record { name = b'd' ∷ []; plugin = b'p' ∷ []; init_string = [] } ∷ [];
}

abbrev init : Text → Text → Option ℕ
init plugin text = some 5

abbrev nothing : Found
nothing = record { dev_map = []; device_map = []; next = 9; local_devs = []; remote = [] }

abbrev all_found : Found
all_found = record {
  dev_map = (b'd' ∷ [], 5) ∷ [];
  device_map = (5, (b'0' ∷ [], 9) ∷ []) ∷ [];
  next = 10;
  local_devs = 9 ∷ 9 ∷ [];
  remote = far ∷ [];
}

found_all : traverse cfg init 2 root 0 root nothing ≡ some all_found
unfolding traverse each is_remote add_devs add_dev dev_ops init_device entries open_at insert_name
    lookup insert
found_all = refl

traverse-Serves_example :
    Among far all_found.remote ↔ (Among far nothing.remote ⊎ Serves cfg init root 0 root far)
traverse-Serves_example = traverse-Serves cfg init root 0 2 root nothing all_found found_all far

abbrev rank : Text → ℕ
rank name = if text_beq name root then 1 else 0

low : (c : Text) → Among c (near ∷ far ∷ []) → rank c < 1
low c (inl e) = subst (λ z. rank z < 1) (sym e) (omega arith)
low c (inr (inl e)) = subst (λ z. rank z < 1) (sym e) (omega arith)
low c (inr (inr h)) = absurd h

falls : (p c : Text) → Among c (cfg.find_attr_children p 0) → rank c < rank p
falls p c at = elim (Bool-cases (text_beq p root)) [
  | inl top ↦ rw (top) (low c (rw (top) at at))
  | inr leaf ↦ absurd (rw (leaf) at at)
]

into_some :
    {A B : Type 0} (m : Option A) (f : A → B)
    → (a : A) × (m ≡ some a)
    → (b : B) × ((m >>= λ a. some (f a)) ≡ some b)
into_some m f (a, e) = (f a, rw (e) refl)

its_ops :
    (found : Option ℕ) (st : Found)
    → (r : ℕ × Found) × (dev_ops cfg init found dev.device st ≡ some r)
unfolding dev_ops init_device
its_ops none st = (_, refl)
its_ops (some ops) st = (_, refl)

open_dev : (st : Found) → (st' : Found) × (add_dev cfg init dev st ≡ some st')
unfolding add_dev
open_dev st =
    into_some (dev_ops cfg init (lookup dev.device st.dev_map) dev.device st) _ (its_ops _ st)

opens :
    (p : Text) (d : ObjDev) (st : Found)
    → Among d (cfg.find_obj_devs p 0)
    → (st' : Found) × (add_dev cfg init d st ≡ some st')
opens p d st (inl e) =
    subst (λ x. (st' : Found) × (add_dev cfg init x st ≡ some st')) (sym e) (open_dev st)
opens p d st (inr h) = absurd h

traverse_total_example : (st' : Found) × (traverse cfg init 2 root 0 root nothing ≡ some st')
traverse_total_example =
    traverse_total cfg init root 0 rank falls opens 2 root nothing (omega arith)

-- Attribute 6 answers from device 0, and attribute 12 from device 1, which fails.
abbrev local_node : DistObject ℕ
local_node = record {
  id = 3;
  devices = λ name. (if name == 6 then 0 else 1) ∷ [];
  operation = λ name vs. 77;
  calc_time = λ name vs. 88;
  comm = λ name. none;
  value_op = λ name. 1;
}

abbrev server : Server ℕ
server = record { comm_map = (900, some local_node ∷ []) ∷ []; fini_map = []; sent = [] }

abbrev ctx : Ctx
ctx = record { requests = []; comm_reqs = []; comms = []; next = 60; sent = [] }

abbrev routed_from : RouterEvent
routed_from = record {
  event = record { type = code router2router; id = 0; status = 0 };
  src = 5;
  dest = 6;
  event_type = code comm_req;
  payload = [];
}

abbrev reading : CommReqEvent
reading = record {
  comm = record {
    event = record { type = code comm_req; id = 400; status = 0 };
    comm_id = 900;
    op = get_op;
  };
  grp_index = 0;
  attr_name = 6 ∷ 12 ∷ [];
  set_values = [];
  value_op = 1 ∷ 1 ∷ [];
}

-- The read of the second attribute fails.
abbrev half : List Slot
half = record { name = 6; value = 77; stamp = 88 } ∷ record { name = 12; value = 0; stamp = 0 } ∷ []

abbrev failed : Status
failed = record { obj = 3; name = 12; error = failure } ∷ []

half_fails :
    attr_get_values machine (as_object local_node) (get_slots_of (6 ∷ 12 ∷ [])) [] 8
    ≡ ((ret_status, half, failed), 10)
unfolding attr_get_values get_slots attr_get_values_device read_devices combine is_valid no_devices
    as_object is_set is_empty add_error
half_fails = refl

known : lookup 900 server.comm_map ≡ some (some local_node ∷ [])
unfolding lookup
known = refl

process_req-Local_example :
    (srv' : Server ℕ) × (ctx' : Ctx) × (process_req machine
        (λ id. near)
        (λ name. 0)
        (λ name. none)
        0
        routed_from
        40
        reading
        server
        ctx
        8
      ≡ some (srv', ctx', 10))
    × (srv'.sent ≡ [] ++ reply routed_from 40 (resp (clean_response reading half)) ∷ [])
process_req-Local_example =
    process_req-Local machine (λ id. near) (λ name. 0) (λ name. none) 0 local_node [] 6 (12 ∷ [])
      routed_from 40 reading server ctx 8 10 ret_status half failed known refl refl
      (refl, (refl, tt)) half_fails
