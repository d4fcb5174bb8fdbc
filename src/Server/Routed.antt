-- ===== src/Server/Routed.antt =====
-- tools/pwrdaemon/server: the requests for samples, and the dispatch of a routed event.
use pwrapi.Prelude.{ℕ, Option, none, some, replicate, ◌>>=◌}
use pwrapi.Prelude.Int.{ℤ}
use pwrapi.Prelude.Map.{nat_eq, lookup}
use pwrapi.Objects.{DeviceOps}
use pwrapi.Events.{Text}
use pwrapi.Events.Requests.{CommGetSamplesReqEvent}
use pwrapi.Events.Routed.{RouterEvent}
use pwrapi.Events.Message.{Message, create, destroy, req, log_req, samples_req, alloc_req_event}
use pwrapi.Dist.{Ctx}
use pwrapi.Dist.Object.{DistObject}
use pwrapi.Dist.Object.Samples.{attr_get_samples_nb}
use pwrapi.Server.{
  Server, samples_to, settle, first_object, open_callback, process_create, process_destroy,
  process_req, process_log, with_fini,
}

module _ {World Dev : Type 0} (ops : DeviceOps World Dev) (obj_name : ℕ → Text) (get_obj : Text → ℕ)
    (find_obj : Text → Option (DistObject Dev)) (unset : ℕ)
    (read_samples : Dev → ℕ → ℕ → ℕ → World → (ℤ × ℕ × (ℕ → ℕ)) × World) where
  -- `SrvrCommGetSamplesReqEvent::process`: the arrays are those of the response, `count` zeros and a
  -- start that no constructor writes.
  unfoldable pub process_samples :
      RouterEvent
      → ℕ
      → CommGetSamplesReqEvent
      → Server Dev
      → Ctx
      → World
      → Option (Server Dev × Ctx × World)
  process_samples re chan ev srv ctx w = do
    o ← first_object (lookup ev.comm.comm_id srv.comm_map)
    let (a, ctx₀) = open_callback ctx
    let srv' =
        with_fini ops obj_name get_obj find_obj unset a re chan
          (samples_to ev.comm.event.id ev.count) srv
    (ret, ctx₁, w') ←
        attr_get_samples_nb read_samples o ev.attr_name unset ev.period ev.count
          (replicate ev.count 0) a ctx₀ w
    (srv'', ctx₂) ← settle obj_name ret a srv' ctx₁
    some (srv'', ctx₂, w')

  -- `ev->process( gen )` of a payload.
  unfoldable pub process_payload :
      RouterEvent → ℕ → Message → Server Dev → Ctx → World → Option (Server Dev × Ctx × World)
  process_payload re chan (create ev) srv ctx w =
      process_create ops obj_name get_obj find_obj unset ev srv
      >>= (λ (srv' : Server Dev). some (srv', ctx, w))
  process_payload re chan (destroy ev) srv ctx w =
      some (process_destroy ops obj_name get_obj find_obj unset ev srv, ctx, w)
  process_payload re chan (req ev) srv ctx w =
      process_req ops obj_name get_obj find_obj unset re chan ev srv ctx w
  process_payload re chan (log_req ev) srv ctx w =
      process_log ops obj_name get_obj find_obj unset re chan ev srv ctx w
  process_payload re chan (samples_req ev) srv ctx w = process_samples re chan ev srv ctx w
  process_payload re chan _ srv ctx w = none

  -- `SrvrRouterEvent::process`.
  unfoldable pub process_routed :
      RouterEvent → ℕ → Server Dev → Ctx → World → Option (Server Dev × Ctx × World)
  process_routed re chan srv ctx w = do
    ev ← alloc_req_event re.event_type re.payload
    process_payload re chan ev srv ctx w
