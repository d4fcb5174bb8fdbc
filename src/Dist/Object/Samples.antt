-- ===== src/Dist/Object/Samples.antt =====
-- src/pwr/distObject.cc: `attrGetSamples`. The caller's array and its start are what the request's
-- arrays hold.
use pwrapi.Prelude.{ℕ, Option, some, List, [], ◌∷◌, if◌then◌else◌, set, ◌>>=◌}
use pwrapi.Prelude.Int.{ℤ, eq_ℤ}
use pwrapi.Prelude.Map.{nat_eq, lookup}
use pwrapi.Objects.{success, is_empty, pop, popped_error}
use pwrapi.Objects.Samples.{attr_get_samples}
use pwrapi.Events.{Text}
use pwrapi.Events.Message.{Message}
use pwrapi.Dist.{dist_get_samples, DistRequest, Ctx}
use pwrapi.Dist.Request.{wait}
use pwrapi.Dist.Comm.{get_samples}
use pwrapi.Dist.Object.{
  DistObject, as_object, finish, ask, open_request, close_request, put, is_set,
}

-- `*start`.
unfoldable pub first_time : ℕ → List ℕ → ℕ
first_time start [] = start
first_time start (t ∷ ts) = t

module _ {World Dev : Type 0}
    (read_samples : Dev → ℕ → ℕ → ℕ → World → (ℤ × ℕ × (ℕ → ℕ)) × World) where
  -- What follows the devices: the part, if the attribute has a communicator, and the callback.
  unfoldable pub samples_part : DistObject Dev → ℕ → ℕ → ℕ → ℕ → ℕ → DistRequest → Ctx → Option Ctx
  samples_part o name start period count a r ctx = do
    let r' : DistRequest =
        if is_set (o.comm name) then record r { rows = set r.rows 0 (some 0) } else r
    let call = λ (c id : ℕ). get_samples c name start period count id
    ctx₁ ← ask (o.comm name) dist_get_samples a call (put a r' ctx)
    finish success a ctx₁

  -- `attrGetSamples( attr, start, period, count, buf, req )`: the code of the devices, and the
  -- request.
  unfoldable pub attr_get_samples_nb :
      DistObject Dev → ℕ → ℕ → ℕ → ℕ → List ℕ → ℕ → Ctx → World → Option (ℤ × Ctx × World)
  attr_get_samples_nb o name start period count buf a ctx w = do
    ((ret, start', buf'), w') ←
        attr_get_samples read_samples (as_object o) name start period count buf w
    r ← lookup a ctx.requests
    let r' : DistRequest = record r { values = buf'; times = start' ∷ [] }
    let part =
        samples_part o name start' period count a r' ctx
        >>= (λ (ctx' : Ctx). some (success, ctx', w'))
    if eq_ℤ ret success then part else some (ret, put a r' ctx, w')

  -- The wait, whose result is not looked at, and the first error, if any: the code, the start and the
  -- array.
  unfoldable pub samples_answer :
      (Text → ℕ)
      → ℕ
      → ℕ
      → List Message
      → Ctx
      → World
      → Option ((ℤ × ℕ × List ℕ) × List Message × Ctx × World)
  samples_answer get_obj start a ms ctx w = do
    (ret, ms', ctx') ← wait get_obj a ms ctx
    r ← lookup a ctx'.requests
    error ← if is_empty r.status then some success else popped_error (pop r.status)
    some ((error, first_time start r.times, r.values), ms', close_request a ctx', w)

  -- A call whose devices have failed does not wait.
  unfoldable pub samples_failed :
      ℕ
      → ℕ
      → ℤ
      → List Message
      → Ctx
      → World
      → Option ((ℤ × ℕ × List ℕ) × List Message × Ctx × World)
  samples_failed start a ret ms ctx w = do
    r ← lookup a ctx.requests
    some ((ret, first_time start r.times, r.values), ms, close_request a ctx, w)

  -- `attrGetSamples( attr, start, period, count, buf )`.
  unfoldable pub attr_get_samples_sync :
      (Text → ℕ)
      → DistObject Dev
      → ℕ
      → ℕ
      → ℕ
      → ℕ
      → List ℕ
      → List Message
      → Ctx
      → World
      → Option ((ℤ × ℕ × List ℕ) × List Message × Ctx × World)
  attr_get_samples_sync get_obj o name start period count buf ms ctx w = do
    let (a, ctx₀) = open_request [] ctx
    (ret, ctx₁, w') ← attr_get_samples_nb o name start period count buf a ctx₀ w
    let rest = samples_answer get_obj start a ms ctx₁ w'
    if eq_ℤ ret success then rest else samples_failed start a ret ms ctx₁ w'
