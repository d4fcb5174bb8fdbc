-- ===== src/Objects.antt =====
-- src/pwr/status.h, object.cc, device.h, attrInfo.h and group.h: the attributes of an object, which
-- its devices hold, and the groups of objects. A value and a time are 64-bit patterns, an object its
-- identity, and an attribute its number.
pub mod Reads
pub mod Groups
pub mod Samples
use pwrapi.Prelude.{
  ℕ, suc, Option, none, some, Bool, true, false, not, ◌||◌, List, [], ◌∷◌, ◌++◌, ◌==◌,
  if◌then◌else◌,
}
use pwrapi.Prelude.Int.{ℤ, pos, negsuc, eq_ℤ}

-- The return codes that these operations make.
abbrev pub success : ℤ
success = pos 0

abbrev pub failure : ℤ
failure = negsuc 0

abbrev pub ret_empty : ℤ
ret_empty = negsuc 2

abbrev pub ret_invalid : ℤ
ret_invalid = negsuc 3

abbrev pub ret_status : ℤ
ret_status = negsuc 14

pub record AttrAccessError : Type 0 where
  pub obj : ℕ
  pub name : ℕ
  pub error : ℤ

-- `Status::m_info`, the oldest first.
abbrev pub Status : Type 0
Status = List AttrAccessError

unfoldable pub is_empty : Status → Bool
is_empty [] = true
is_empty (e ∷ st) = false

unfoldable pub add_error : Status → ℕ → ℕ → ℤ → Status
add_error st obj name error = st ++ record { obj = obj; name = name; error = error } ∷ []

-- `Status::pop`: the code, what is written to the caller's error, and the rest.
unfoldable pub pop : Status → ℤ × Option AttrAccessError × Status
pop [] = (ret_empty, none, [])
pop (e ∷ st) = (success, some e, st)

-- The error that was popped, after the assertion on the code.
unfoldable pub popped_error : ℤ × Option AttrAccessError × Status → Option ℤ
popped_error (ret, none, st) = none
popped_error (ret, some e, st) = some e.error

-- `Object::attrGetValue`: the first error of a status of its own. The assertion on `pop` is `none`.
unfoldable pub first_error : ℤ → Status → Option ℤ
first_error ret st = if eq_ℤ ret success then some success else popped_error (pop st)

-- A device of a plugin, as `Device` declares it: what it answers depends on the state of the machine.
pub record DeviceOps (World Dev : Type 0) : Type 0 where
  pub get_value : Dev → ℕ → World → (ℤ × ℕ × ℕ) × World
  pub set_value : Dev → ℕ → ℕ → World → ℤ × World
  pub start_log : Dev → ℕ → World → ℤ × World
  pub stop_log : Dev → ℕ → World → ℤ × World

-- `AttrInfo`: `operation` and `calcTime` are the context's.
pub record AttrInfo (Dev : Type 0) : Type 0 where
  pub devices : List Dev
  pub has_comm : Bool
  pub operation : List ℕ → ℕ
  pub calc_time : List ℕ → ℕ

pub record Object (Dev : Type 0) : Type 0 where
  pub id : ℕ
  pub attr_info : ℕ → AttrInfo Dev

-- An entry of the arrays of names, values and times that a call is given.
pub record Slot : Type 0 where
  pub name : ℕ
  pub value : ℕ
  pub stamp : ℕ

unfoldable pub no_devices : {Dev : Type 0} → List Dev → Bool
no_devices [] = true
no_devices (d ∷ ds) = false

-- `AttrInfo::isValid`.
unfoldable pub is_valid : {Dev : Type 0} → AttrInfo Dev → Bool
is_valid info = not (no_devices info.devices) || info.has_comm

module _ {World Dev : Type 0} (ops : DeviceOps World Dev) where
  -- The loop of `attrGetValuesDevice`: up to the first device that fails.
  unfoldable pub read_devices :
      List Dev → ℕ → List ℕ → List ℕ → World → (ℤ × List ℕ × List ℕ) × World
  read_devices [] name vs ts w = ((success, vs, ts), w)
  read_devices (d ∷ ds) name vs ts w =
      let ((ret, v, t), w') = ops.get_value d name w in
      let rest = read_devices ds name (vs ++ v ∷ []) (ts ++ t ∷ []) w' in
      if eq_ℤ ret success then rest else ((ret, vs, ts), w')

  -- The values of the devices, if all have answered; an attribute with no device stays as it is.
  unfoldable pub combine : AttrInfo Dev → ℤ × List ℕ × List ℕ → Slot → ℤ × Slot
  combine info (ret, [], ts) slot = (ret, slot)
  combine info (ret, v ∷ vs, ts) slot =
      if eq_ℤ ret success
      then (ret, record slot { value = info.operation (v ∷ vs); stamp = info.calc_time ts })
      else (ret, slot)

  -- `Object::attrGetValuesDevice`.
  unfoldable pub attr_get_values_device : AttrInfo Dev → Slot → World → (ℤ × Slot) × World
  attr_get_values_device info slot w =
      let (got, w') = read_devices info.devices slot.name [] [] w in (combine info got slot, w')

  -- The loop of `Object::attrGetValues`, which an error leaves.
  unfoldable pub get_slots : Object Dev → List Slot → Status → World → (List Slot × Status) × World
  get_slots o [] st w = (([], st), w)
  get_slots o (slot ∷ slots) st w =
      let clear = record slot { value = 0; stamp = 0 } in
      let info = o.attr_info slot.name in
      let ((ret, slot'), w') = attr_get_values_device info clear w in
      let ((slots', st'), w'') = get_slots o slots st w' in
      if is_valid info
      then (if eq_ℤ ret success
          then ((slot' ∷ slots', st'), w'')
          else ((slot' ∷ slots, add_error st o.id slot.name ret), w'))
      else ((clear ∷ slots, add_error st o.id slot.name ret_invalid), w)

  -- `Object::attrGetValues`.
  unfoldable pub attr_get_values :
      Object Dev → List Slot → Status → World → (ℤ × List Slot × Status) × World
  attr_get_values o slots st w =
      let ((slots', st'), w') = get_slots o slots st w in
      ((if is_empty st' then success else ret_status, slots', st'), w')

  unfoldable pub attr_get_value : Object Dev → Slot → World → (Option ℤ × List Slot) × World
  attr_get_value o slot w =
      let ((ret, slots, st), w') = attr_get_values o (slot ∷ []) [] w in
      ((first_error ret st, slots), w')

  -- The loops of `attrSetValuesDevice`, `attrStartLog` and `attrStopLog`: one step on each device, up
  -- to the first that fails.
  unfoldable pub each_device : (Dev → World → ℤ × World) → List Dev → World → ℤ × World
  each_device step [] w = (success, w)
  each_device step (d ∷ ds) w =
      let (ret, w') = step d w in
      let rest = each_device step ds w' in if eq_ℤ ret success then rest else (ret, w')

  -- `Object::attrSetValuesDevice`.
  unfoldable pub attr_set_values_device : AttrInfo Dev → Slot → World → ℤ × World
  attr_set_values_device info slot w =
      each_device (λ d. ops.set_value d slot.name slot.value) info.devices w

  -- The loop of `Object::attrSetValues`.
  unfoldable pub set_slots : Object Dev → List Slot → Status → World → Status × World
  set_slots o [] st w = (st, w)
  set_slots o (slot ∷ slots) st w =
      let info = o.attr_info slot.name in
      let (ret, w') = attr_set_values_device info slot w in
      let rest = set_slots o slots st w' in
      if is_valid info
      then (if eq_ℤ ret success then rest else (add_error st o.id slot.name ret, w'))
      else (add_error st o.id slot.name ret_invalid, w)

  -- `Object::attrSetValues` and `Object::attrSetValue`.
  unfoldable pub attr_set_values : Object Dev → List Slot → Status → World → (ℤ × Status) × World
  attr_set_values o slots st w =
      let (st', w') = set_slots o slots st w in
      ((if is_empty st' then success else ret_status, st'), w')

  unfoldable pub attr_set_value : Object Dev → Slot → World → Option ℤ × World
  attr_set_value o slot w =
      let ((ret, st), w') = attr_set_values o (slot ∷ []) [] w in (first_error ret st, w')

  -- `Object::attrStartLog` and `Object::attrStopLog`.
  unfoldable pub attr_start_log : Object Dev → ℕ → World → ℤ × World
  attr_start_log o name w =
      let info = o.attr_info name in
      let run = each_device (λ d. ops.start_log d name) info.devices w in
      if is_valid info then run else (failure, w)

  unfoldable pub attr_stop_log : Object Dev → ℕ → World → ℤ × World
  attr_stop_log o name w =
      let info = o.attr_info name in
      let run = each_device (λ d. ops.stop_log d name) info.devices w in
      if is_valid info then run else (failure, w)
