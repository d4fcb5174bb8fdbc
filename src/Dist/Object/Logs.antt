-- ===== src/Dist/Object/Logs.antt =====
-- src/pwr/distObject.cc: `attrStartLog` and `attrStopLog`.
use pwrapi.Prelude.{ℕ, Option, some, List, [], if◌then◌else◌, ◌>>=◌}
use pwrapi.Prelude.Int.{ℤ, eq_ℤ}
use pwrapi.Prelude.Map.{nat_eq, lookup}
use pwrapi.Objects.{success, is_empty, pop, popped_error, DeviceOps, attr_start_log, attr_stop_log}
use pwrapi.Events.{Text}
use pwrapi.Events.Message.{Message}
use pwrapi.Dist.{Kind, dist_start_log, dist_stop_log, Ctx}
use pwrapi.Dist.Request.{wait}
use pwrapi.Dist.Comm.{start_log, stop_log}
use pwrapi.Dist.Object.{DistObject, as_object, finish, ask, open_request, close_request}

module _ {World Dev : Type 0} (ops : DeviceOps World Dev) (get_obj : Text → ℕ) where
  unfoldable pub log_part :
      Kind
      → (ℕ → ℕ → ℕ → Ctx → Option Ctx)
      → DistObject Dev
      → ℕ
      → ℕ
      → Ctx
      → World
      → Option (ℤ × Ctx × World)
  log_part kind call o name a ctx w = do
    ctx₁ ← ask (o.comm name) kind a (λ (c id : ℕ). call c name id) ctx
    ctx₂ ← finish success a ctx₁
    some (success, ctx₂, w)

  -- What `attrStartLog` and `attrStopLog` of a request have in common: the devices, and then the
  -- part.
  unfoldable pub log_request :
      Kind
      → (ℕ → ℕ → ℕ → Ctx → Option Ctx)
      → DistObject Dev
      → ℕ
      → ℕ
      → Ctx
      → ℤ × World
      → Option (ℤ × Ctx × World)
  log_request kind call o name a ctx (ret, w) =
      let part = log_part kind call o name a ctx w in
      if eq_ℤ ret success then part else some (ret, ctx, w)

  -- `attrStartLog( attr, req )` and `attrStopLog( attr, req )`.
  unfoldable pub attr_start_log_nb : DistObject Dev → ℕ → ℕ → Ctx → World → Option (ℤ × Ctx × World)
  attr_start_log_nb o name a ctx w =
      log_request dist_start_log start_log o name a ctx (attr_start_log ops (as_object o) name w)

  unfoldable pub attr_stop_log_nb : DistObject Dev → ℕ → ℕ → Ctx → World → Option (ℤ × Ctx × World)
  attr_stop_log_nb o name a ctx w =
      log_request dist_stop_log stop_log o name a ctx (attr_stop_log ops (as_object o) name w)

  unfoldable pub log_answer :
      ℕ → List Message → Ctx → World → Option (ℤ × List Message × Ctx × World)
  log_answer a ms ctx w = do
    (ret, ms', ctx') ← wait get_obj a ms ctx
    r ← lookup a ctx'.requests
    error ← if is_empty r.status then some success else popped_error (pop r.status)
    some (error, ms', close_request a ctx', w)

  -- What follows the part: the wait, whose result is not looked at, and the first error, if any.
  unfoldable pub await_log :
      ℕ → List Message → ℤ × Ctx × World → Option (ℤ × List Message × Ctx × World)
  await_log a ms (ret, ctx, w) =
      let rest = log_answer a ms ctx w in
      if eq_ℤ ret success then rest else some (ret, ms, close_request a ctx, w)

  -- `attrStartLog( attr )` and `attrStopLog( attr )`.
  unfoldable pub attr_start_log_sync :
      DistObject Dev → ℕ → List Message → Ctx → World → Option (ℤ × List Message × Ctx × World)
  attr_start_log_sync o name ms ctx w =
      let (a, ctx₀) = open_request [] ctx in attr_start_log_nb o name a ctx₀ w >>= await_log a ms

  unfoldable pub attr_stop_log_sync :
      DistObject Dev → ℕ → List Message → Ctx → World → Option (ℤ × List Message × Ctx × World)
  attr_stop_log_sync o name ms ctx w =
      let (a, ctx₀) = open_request [] ctx in attr_stop_log_nb o name a ctx₀ w >>= await_log a ms
