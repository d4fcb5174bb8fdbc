-- ===== src/Dist/Object/Sync.antt =====
-- src/pwr/distObject.cc: the reads and writes that wait for their responses.
use pwrapi.Prelude.{ℕ, Option, some, List, [], ◌∷◌, if◌then◌else◌, ◌>>=◌}
use pwrapi.Prelude.Int.{ℤ, eq_ℤ}
use pwrapi.Prelude.Map.{nat_eq, lookup}
use pwrapi.Objects.{success, Status, DeviceOps, Slot}
use pwrapi.Events.{Text}
use pwrapi.Events.Message.{Message}
use pwrapi.Dist.{Ctx}
use pwrapi.Dist.Request.{wait}
use pwrapi.Dist.Object.{
  DistObject, put, code_of, error_of, open_request, close_request, filled, get_values_req,
  set_values_req,
}

module _ {World Dev : Type 0} (ops : DeviceOps World Dev) (get_obj : Text → ℕ) (unset : ℕ) where
  -- `attrGetValues( count, names, buf, ts, status )`, with the events that come meanwhile. The status
  -- is the request's too.
  unfoldable pub attr_get_values_sync :
      DistObject Dev
      → List Slot
      → Status
      → List Message
      → Ctx
      → World
      → Option ((ℤ × List Slot × Status) × List Message × Ctx × World)
  attr_get_values_sync o slots st ms ctx w = do
    let (a, ctx₀) = open_request st ctx
    ((ret, slots', st'), ctx₁, w') ← get_values_req ops unset o slots st a ctx₀ w
    r ← lookup a ctx₁.requests
    (ret', ms', ctx₂) ← wait get_obj a ms (put a (record r { status = st' }) ctx₁)
    r' ← lookup a ctx₂.requests
    some (
      (
        if eq_ℤ ret' success then code_of r'.status else ret',
        filled slots' r'.values r'.times,
        r'.status,
      ),
      ms',
      close_request a ctx₂,
      w',
    )

  -- `attrSetValues( count, names, buf, status )`.
  unfoldable pub attr_set_values_sync :
      DistObject Dev
      → List Slot
      → Status
      → List Message
      → Ctx
      → World
      → Option ((ℤ × Status) × List Message × Ctx × World)
  attr_set_values_sync o slots st ms ctx w = do
    let (a, ctx₀) = open_request st ctx
    ((ret, st'), ctx₁, w') ← set_values_req ops unset o slots st a ctx₀ w
    r ← lookup a ctx₁.requests
    (ret', ms', ctx₂) ← wait get_obj a ms (put a (record r { status = st' }) ctx₁)
    r' ← lookup a ctx₂.requests
    some (
      (if eq_ℤ ret' success then code_of r'.status else ret', r'.status),
      ms',
      close_request a ctx₂,
      w',
    )

  -- `attrGetValue( attr, buf, ts )` and `attrSetValue( attr, buf )`.
  pub attr_get_value_sync :
      DistObject Dev
      → Slot
      → List Message
      → Ctx
      → World
      → Option ((ℤ × List Slot) × List Message × Ctx × World)
  attr_get_value_sync o slot ms ctx w = do
    ((ret, slots, st), ms', ctx', w') ← attr_get_values_sync o (slot ∷ []) [] ms ctx w
    error ← error_of ret st
    some ((error, slots), ms', ctx', w')

  pub attr_set_value_sync :
      DistObject Dev → Slot → List Message → Ctx → World → Option (ℤ × List Message × Ctx × World)
  attr_set_value_sync o slot ms ctx w = do
    ((ret, st), ms', ctx', w') ← attr_set_values_sync o (slot ∷ []) [] ms ctx w
    error ← error_of ret st
    some (error, ms', ctx', w')
