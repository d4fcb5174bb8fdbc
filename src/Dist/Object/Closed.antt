-- ===== src/Dist/Object/Closed.antt =====
-- A log on another node, when the channel is closed before the answer.
use pwrapi.Prelude.{ℕ, suc, ◌≡◌, refl, ap, ◌∙◌, ◌++◌, arith, some, false, [], ◌∷◌}
use pwrapi.Prelude.Map.{nat_eq, lookup, lookup-insert_self}
use pwrapi.Objects.{success, is_empty, DeviceOps, attr_start_log, each_device, is_valid, no_devices}
use pwrapi.Events.{Text}
use pwrapi.Dist.{dist_start_log, DistRequest, DistComm, Ctx}
use pwrapi.Dist.Request.{new_request}
use pwrapi.Dist.Comm.{start_log}
use pwrapi.Dist.Object.{DistObject, is_set, as_object, ask, open_request, close_request}
use pwrapi.Dist.Request.One.{wait-closed}
use pwrapi.Dist.Comm.{log_event, start_op}
use pwrapi.Dist.Comm.Sent.{greeting}
use pwrapi.Dist.Object.Remote.{ask-sent, finish-waiting}
use pwrapi.Dist.Object.Logs.{
  log_part, log_request, log_answer, await_log, attr_start_log_nb, attr_start_log_sync,
}

module _ {World Dev : Type 0} (ops : DeviceOps World Dev) (get_obj : Text → ℕ) where
  start-local :
      (o : DistObject Dev) (c name : ℕ) (w : World)
      → o.comm name ≡ some c
      → o.devices name ≡ []
      → attr_start_log ops (as_object o) name w ≡ (success, w)
  unfolding attr_start_log as_object is_set is_valid no_devices each_device
  start-local o c name w there nowhere = ground (arith, there, nowhere)

  -- A log that is started on another node is asked for by one event, and the call returns
  -- PWR_RET_SUCCESS also if the channel is closed before the answer comes.
  pub attr_start_log_sync-closed :
      (o : DistObject Dev) (c name : ℕ) (comm : DistComm) (ctx : Ctx) (w : World)
      → o.comm name ≡ some c
      → o.devices name ≡ []
      → lookup c ctx.comms ≡ some comm
      → (ctx' : Ctx) × (attr_start_log_sync ops get_obj o name [] ctx w
          ≡ some (success, [], ctx', w))
        × (ctx'.sent
            ≡ ctx.sent ++ (greeting comm ++ log_event start_op name (suc ctx.next) comm ∷ []))
  unfolding attr_start_log_sync attr_start_log_nb log_request log_part await_log log_answer
      new_request start_log is_empty
  attr_start_log_sync-closed o c name comm ctx w there nowhere known =
      let a : ℕ = ctx.next in
      let (ctx₁, asked, requests, parts, sent) =
        ask-sent c comm dist_start_log a (λ id. log_event start_op name id) (new_request [] false)
          (open_request [] ctx).1 (lookup-insert_self a (new_request [] false) ctx.requests)
          known in
      let r₁ : DistRequest = record (new_request [] false) { comm_reqs = suc ctx.next ∷ [] } in
      let at₁ : lookup a ctx₁.requests ≡ some r₁ =
        ap (lookup a) requests ∙ lookup-insert_self a _ _ in
      let call = λ (d id : ℕ). start_log d name id in
      let asked' : ask (some c) dist_start_log a call (open_request [] ctx).1 ≡ some ctx₁ = asked in
      (
        close_request a ctx₁,
        rw
            (
              start-local o c name w there nowhere,
              there,
              asked',
              finish-waiting ops success a (suc ctx.next) [] ctx₁ r₁ at₁ refl,
              wait-closed get_obj a (suc ctx.next) ctx₁ r₁ at₁ refl,
              at₁,
            )
            refl,
        sent,
      )
