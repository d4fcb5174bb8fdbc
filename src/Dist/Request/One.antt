-- ===== src/Dist/Request/One.antt =====
-- A request that waits for one part, whose response is the next event.
use pwrapi.Prelude.{
  ℕ, ◌≡◌, refl, ap, ◌∙◌, some, false, List, [], ◌∷◌, length, append-nil, ==_self, arith,
}
use pwrapi.Prelude.Map.{nat_eq, lookup, insert, lookup-insert_self}
use pwrapi.Objects.{success, Status}
use pwrapi.Events.Responses.{CommRespEvent}
use pwrapi.Events.{Text}
use pwrapi.Events.Message.{Message, resp, event_of}
use pwrapi.Dist.{Kind, dist_get, DistRequest, Ctx}
use pwrapi.Dist.Request.{
  ret_ipc, finished, no_reqs, exec_callback, drop_req, respond, process, wait, note_errors,
  get_value, write_row, write_at, write_rows, first_row, other_rows, on_resp,
}
use pwrapi.Dist.Request.Rows.{write_row-append}
use pwrapi.Dist.Request.Parts.{respond-comm_reqs}

drop_req_self : (id : ℕ) → drop_req id (id ∷ []) ≡ []
unfolding drop_req
drop_req_self id = rw (==_self id) refl

module _ (get_obj : Text → ℕ) where
  wait-finished :
      (a : ℕ) (ms : List Message) (ctx : Ctx) (r : DistRequest)
      → lookup a ctx.requests ≡ some r
      → r.comm_reqs ≡ []
      → wait get_obj a ms ctx
        ≡ some (success, ms, record ctx { requests = insert a (exec_callback r) ctx.requests })
  unfolding wait finished no_reqs
  wait-finished a [] ctx r at e = rw (at, e) refl
  wait-finished a (m ∷ ms) ctx r at e = rw (at, e) refl

  -- The response is the next event.
  pub wait-one :
      (a id : ℕ) (k : Kind) (m : Message) (ms : List Message) (ctx : Ctx) (r r' : DistRequest)
      → lookup a ctx.requests ≡ some r
      → r.comm_reqs ≡ id ∷ []
      → lookup id ctx.comm_reqs ≡ some (record { kind = k; req = a })
      → (event_of m).id ≡ id
      → respond get_obj k id m r ≡ some r'
      → wait get_obj a (m ∷ ms) ctx
        ≡ some (
          success,
          ms,
          record ctx { requests = insert a (exec_callback r') (insert a r' ctx.requests) },
        )
  unfolding wait finished no_reqs process
  wait-one a id k m ms ctx r r' at e found same done =
      let left : r'.comm_reqs ≡ [] =
        respond-comm_reqs get_obj k id m r r' done ∙ ap (drop_req id) e ∙ drop_req_self id in
      let end =
        wait-finished a ms (record ctx { requests = insert a r' ctx.requests }) r'
          (lookup-insert_self a r' ctx.requests) left in
      rw (at, e, same, found, at, done) end

  -- The channel is closed before.
  pub wait-closed :
      (a id : ℕ) (ctx : Ctx) (r : DistRequest)
      → lookup a ctx.requests ≡ some r
      → r.comm_reqs ≡ id ∷ []
      → wait get_obj a [] ctx ≡ some (ret_ipc, [], ctx)
  unfolding wait finished no_reqs
  wait-closed a id ctx r at e = rw (at, e) refl

  exec_callback-none : (r : DistRequest) → r.has_callback ≡ false → exec_callback r ≡ r
  unfolding exec_callback
  exec_callback-none r h = ground arith

  -- A read without a callback, whose response comes next.
  pub wait-get :
      (a id : ℕ) (ev : CommRespEvent) (ms : List Message) (ctx : Ctx) (r done : DistRequest)
      → lookup a ctx.requests ≡ some r
      → r.comm_reqs ≡ id ∷ []
      → lookup id ctx.comm_reqs ≡ some (record { kind = dist_get; req = a })
      → ev.comm.event.id ≡ id
      → get_value get_obj id ev r ≡ some done
      → done.has_callback ≡ false
      → (ctx' : Ctx) × (wait get_obj a (resp ev ∷ ms) ctx ≡ some (success, ms, ctx'))
        × (lookup a ctx'.requests ≡ some done)
        × (ctx'.sent ≡ ctx.sent)
  unfolding respond on_resp event_of
  wait-get a id ev ms ctx r done at e found same got quiet = (
    record ctx { requests = insert a (exec_callback done) (insert a done ctx.requests) },
    wait-one a id dist_get (resp ev) ms ctx r done at e found same got,
    lookup-insert_self a (exec_callback done) (insert a done ctx.requests)
        ∙ ap some (exec_callback-none done quiet),
    refl,
  )

  -- The response of a read, by the arrays with its rows written.
  pub get_value-rows :
      (id : ℕ) (ev : CommRespEvent) (r : DistRequest) (values times : List ℕ) (st : Status)
      → r.comm_reqs ≡ id ∷ []
      → write_rows r.rows ev.value ev.time_stamp (r.values, r.times) ≡ some (values, times)
      → note_errors get_obj ev.err_obj ev.err_attr ev.err_value r.status ≡ some st
      → get_value get_obj id ev r
        ≡ some (record r { values = values; times = times; status = st; comm_reqs = [] })
  unfolding get_value
  get_value-rows id ev r values times st e written errors =
      rw (written, errors)
        (ap
          (λ (xs : List ℕ).
            some (record r { values = values; times = times; status = st; comm_reqs = xs }))
          (ap (drop_req id) e ∙ drop_req_self id))

  -- The one row of a response, over the whole of the arrays.
  pub write_rows-whole :
      (r : DistRequest) (vss tss : List (List ℕ)) (vs ts : List ℕ)
      → r.rows ≡ some 0 ∷ []
      → vss ≡ vs ∷ []
      → tss ≡ ts ∷ []
      → length r.values ≡ length vs
      → length r.times ≡ length vs
      → length ts ≡ length vs
      → write_rows r.rows vss tss (r.values, r.times) ≡ some (vs, ts)
  unfolding write_rows write_at first_row other_rows
  write_rows-whole r vss tss vs ts rows value stamp lv lt same =
      let written : write_row 0 vs ts (r.values, r.times) ≡ some (vs, ts) =
        rw (append-nil r.values, append-nil r.times, append-nil vs, append-nil ts) at
          (write_row-append 0 [] [] vs ts r.values r.times [] [] refl refl lv lt same) in
      rw (rows, value, stamp, written) refl
