-- ===== src/Dist/Object.antt =====
-- src/pwr/distObject.cc: an object whose attributes are on devices of this node or on other nodes.
-- `none` is a failed assertion, a count of 0, or an address that is not live.
pub mod Sync
pub mod Logs
pub mod Samples
pub mod Remote
pub mod Answered
pub mod Closed
pub mod Home
use pwrapi.Prelude.{
  ℕ, suc, Option, none, some, Bool, true, false, List, [], ◌∷◌, ◌==◌, ◌&&◌, not, map, if◌then◌else◌,
  set, ◌>>=◌,
}
use pwrapi.Prelude.Int.{ℤ, eq_ℤ}
use pwrapi.Prelude.Map.{Eq, nat_eq, lookup, insert, erase}
use pwrapi.Objects.{
  success, ret_status, Status, is_empty, pop, popped_error, DeviceOps, AttrInfo, Object, Slot,
  no_devices, attr_get_values, attr_set_values, attr_start_log, attr_stop_log,
}
use pwrapi.Events.{Text}
use pwrapi.Events.Message.{Message}
use pwrapi.Dist.{
  Kind, dist_get, dist_set, dist_start_log, dist_stop_log, dist_get_samples, DistRequest, Ctx,
}
use pwrapi.Dist.Request.{new_request, finished, exec_callback, wait}
use pwrapi.Dist.Comm.{get_values, set_values, start_log, stop_log, get_samples, insert_req}

-- An object and its `m_attrInfo`, with the communicator of each attribute that has one.
pub record DistObject (Dev : Type 0) : Type 0 where
  pub id : ℕ
  pub devices : ℕ → List Dev
  pub operation : ℕ → List ℕ → ℕ
  pub calc_time : ℕ → List ℕ → ℕ
  pub comm : ℕ → Option ℕ
  pub value_op : ℕ → ℕ

unfoldable pub is_set : Option ℕ → Bool
is_set none = false
is_set (some a) = true

-- The object as `Object` sees it.
unfoldable pub as_object : {Dev : Type 0} → DistObject Dev → Object Dev
as_object o = record {
  id = o.id;
  attr_info = λ name. record {
    devices = o.devices name;
    has_comm = is_set (o.comm name);
    operation = o.operation name;
    calc_time = o.calc_time name;
  };
}

-- `==` on pointers that may be NULL.
unfoldable pub same_comm : Option ℕ → Option ℕ → Bool
same_comm none none = true
same_comm none (some b) = false
same_comm (some a) none = false
same_comm (some a) (some b) = a == b

-- The second loop of the constructor: one step, with both assertions.
unfoldable pub take_comm : {Dev : Type 0} → Option ℕ → Option ℕ → List Dev → Option (Option ℕ)
take_comm m none ds = some m
take_comm none (some a) ds = if no_devices ds then some (some a) else none
take_comm (some m) (some a) ds = if no_devices ds && (m == a) then some (some m) else none

unfoldable pub take_comms :
    {Dev : Type 0} → Option ℕ → List (Option ℕ × List Dev) → Option (Option ℕ)
take_comms m [] = some m
take_comms m ((c, ds) ∷ attrs) = take_comm m c ds >>= (λ (m' : Option ℕ). take_comms m' attrs)

unfoldable pub any_comm : {Dev : Type 0} → List (Option ℕ × List Dev) → Bool
any_comm [] = false
any_comm ((none, ds) ∷ attrs) = any_comm attrs
any_comm ((some a, ds) ∷ attrs) = true

unfoldable pub first_comm : {Dev : Type 0} → List (Option ℕ × List Dev) → Option ℕ
first_comm [] = none
first_comm ((c, ds) ∷ attrs) = c

-- `DistObject::DistObject`: `m_comm`, from the communicators and devices of all attributes in order.
unfoldable pub find_comm : {Dev : Type 0} → List (Option ℕ × List Dev) → Option (Option ℕ)
find_comm attrs = take_comms (if any_comm attrs then first_comm attrs else none) attrs

-- The assertion that all of the attributes of a call have the same communicator.
unfoldable pub all_same : Option ℕ → List (Option ℕ) → Bool
all_same c [] = true
all_same c (d ∷ ds) = same_comm c d && all_same c ds

abbrev pub names_of : List Slot → List ℕ
names_of slots = map (λ (s : Slot). s.name) slots

abbrev pub values_of : List Slot → List ℕ
values_of slots = map (λ (s : Slot). s.value) slots

abbrev pub stamps_of : List Slot → List ℕ
stamps_of slots = map (λ (s : Slot). s.stamp) slots

-- The caller's arrays, as the request has left them.
unfoldable pub filled : List Slot → List ℕ → List ℕ → List Slot
filled [] vs ts = []
filled (s ∷ slots) [] ts = s ∷ slots
filled (s ∷ slots) (v ∷ vs) [] = s ∷ slots
filled (s ∷ slots) (v ∷ vs) (t ∷ ts) = record s { value = v; stamp = t } ∷ filled slots vs ts

unfoldable pub first_name : List Slot → Option ℕ
first_name [] = none
first_name (s ∷ slots) = some s.name

abbrev pub put : ℕ → DistRequest → Ctx → Ctx
put a r ctx = record ctx { requests = insert a r ctx.requests }

-- The callback, if nothing has failed and no part is outstanding; `delete` never follows, since it
-- returns false.
unfoldable pub finish : ℤ → ℕ → Ctx → Option Ctx
finish ret a ctx = do
  r ← lookup a ctx.requests
  some (if eq_ℤ ret success && finished r then put a (exec_callback r) ctx else ctx)

-- A part of a class, and what its communicator sends, if the attribute has one.
unfoldable pub ask : Option ℕ → Kind → ℕ → (ℕ → ℕ → Ctx → Option Ctx) → Ctx → Option Ctx
ask none kind a call ctx = some ctx
ask (some c) kind a call ctx = do (id, ctx₁) ← insert_req kind a ctx; call c id ctx₁

-- `m_attrInfo[ names[0] ]`, the assertion on the others, and the part of the request.
unfoldable pub ask_for :
    {Dev : Type 0}
    → DistObject Dev
    → List Slot
    → Kind
    → ℕ
    → (ℕ → ℕ → Ctx → Option Ctx)
    → Ctx
    → Option Ctx
ask_for o slots kind a call ctx = do
  name ← first_name slots
  if all_same (o.comm name) (map o.comm (names_of slots))
      then ask (o.comm name) kind a call ctx
      else none

-- `retval = status->empty() ? PWR_RET_SUCCESS : PWR_RET_STATUS`
abbrev pub code_of : Status → ℤ
code_of st = if is_empty st then success else ret_status

-- The first error of a status of its own, when the code is PWR_RET_STATUS.
unfoldable pub error_of : ℤ → Status → Option ℤ
error_of ret st = if eq_ℤ ret ret_status then popped_error (pop st) else some ret

-- A `DistRequest` on the stack, and what is left of it at the end.
abbrev pub open_request : Status → Ctx → ℕ × Ctx
open_request st ctx = (
  ctx.next,
  record ctx {
    requests = insert ctx.next (new_request st false) ctx.requests;
    next = suc ctx.next;
  },
)

abbrev pub close_request : ℕ → Ctx → Ctx
close_request a ctx = record ctx { requests = erase a ctx.requests }

module _ {World Dev : Type 0} (ops : DeviceOps World Dev) (unset : ℕ) where
  -- `attrGetValues( count, names, buf, ts, status, req )`, for a request at an address: the code, the
  -- status and the arrays.
  unfoldable pub get_values_req :
      DistObject Dev
      → List Slot
      → Status
      → ℕ
      → Ctx
      → World
      → Option ((ℤ × List Slot × Status) × Ctx × World)
  get_values_req o slots st a ctx w = do
    let ((ret, slots', st'), w') = attr_get_values ops (as_object o) slots st w
    r ← lookup a ctx.requests
    let r' : DistRequest = record r {
      rows = set r.rows 0 (some 0);
      values = values_of slots';
      times = stamps_of slots';
    }
    let call = λ (c id : ℕ). get_values c (names_of slots) (map o.value_op (names_of slots)) id
    ctx₁ ← ask_for o slots dist_get a call (put a r' ctx)
    ctx₂ ← finish (code_of st') a ctx₁
    some ((code_of st', slots', st'), ctx₂, w')

  -- `attrSetValues( count, names, buf, status, req )`.
  pub set_values_req :
      DistObject Dev → List Slot → Status → ℕ → Ctx → World → Option ((ℤ × Status) × Ctx × World)
  set_values_req o slots st a ctx w = do
    let ((ret, st'), w') = attr_set_values ops (as_object o) slots st w
    let call = λ (c id : ℕ). set_values unset c (names_of slots) (values_of slots) id
    ctx₁ ← ask_for o slots dist_set a call ctx
    ctx₂ ← finish (code_of st') a ctx₁
    some ((code_of st', st'), ctx₂, w')

  -- `attrGetValues( count, attr, buf, ts, req )` and `attrSetValues( count, attr, buf, req )`: the
  -- status is the call's own, and only its first error is returned.
  unfoldable pub attr_get_values_nb :
      DistObject Dev → List Slot → ℕ → Ctx → World → Option ((ℤ × List Slot) × Ctx × World)
  attr_get_values_nb o slots a ctx w = do
    ((ret, slots', st), ctx', w') ← get_values_req o slots [] a ctx w
    error ← error_of ret st
    some ((error, slots'), ctx', w')

  pub attr_set_values_nb : DistObject Dev → List Slot → ℕ → Ctx → World → Option (ℤ × Ctx × World)
  attr_set_values_nb o slots a ctx w = do
    ((ret, st), ctx', w') ← set_values_req o slots [] a ctx w
    error ← error_of ret st
    some (error, ctx', w')
