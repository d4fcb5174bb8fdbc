-- ===== src/Dist/Request.antt =====
-- src/pwr/distRequest.cc and request.h: a request waits for the responses to its parts, and each
-- response is written where the caller has asked for it. `none` is a failed assertion, a write or
-- read out of bounds, or an address that is not live.
pub mod Parts
pub mod Wait
pub mod Rows
pub mod One
use pwrapi.Prelude.{
  ℕ, suc, ◌+◌, ◌-◌, ◌^◌, Option, none, some, Bool, true, false, List, [], ◌∷◌, ◌==◌, ltb,
  if◌then◌else◌, get_elem?, set, ◌>>=◌,
}
use pwrapi.Prelude.Int.{ℤ, pos, negsuc}
use pwrapi.Prelude.Map.{Eq, nat_eq, lookup, insert}
use pwrapi.Objects.{success, Status, add_error}
use pwrapi.Events.{Text}
use pwrapi.Events.Responses.{CommRespEvent, CommLogRespEvent, CommGetSamplesRespEvent}
use pwrapi.Events.Message.{
  Message, create, destroy, req, resp, log_req, log_resp, samples_req, samples_resp, connect,
  routed, event_of,
}
use pwrapi.Dist.{
  Kind, dist_get, dist_set, dist_start_log, dist_stop_log, dist_get_samples, DistCommReq,
  DistRequest, Ctx,
}

abbrev pub ret_ipc : ℤ
ret_ipc = negsuc 13

-- `DistRequest( ctx, status, callback, data )`.
unfoldable pub new_request : Status → Bool → DistRequest
new_request status has_callback = record {
  comm_reqs = [];
  rows = none ∷ [];
  values = [];
  times = [];
  status = status;
  has_callback = has_callback;
  calls = 0;
}

unfoldable pub no_reqs : List ℕ → Bool
no_reqs [] = true
no_reqs (x ∷ xs) = false

-- `finished`.
unfoldable pub finished : DistRequest → Bool
finished r = no_reqs r.comm_reqs

-- `execCallback`, which returns false.
unfoldable pub exec_callback : DistRequest → DistRequest
exec_callback r = if r.has_callback then record r { calls = r.calls + 1 } else r

-- `m_commReqs.erase( req )`.
unfoldable pub drop_req : ℕ → List ℕ → List ℕ
drop_req x [] = []
drop_req x (y ∷ ys) = let rest = drop_req x ys in if y == x then rest else y ∷ rest

-- An `int` by its bit pattern.
unfoldable pub int_of : ℕ → ℤ
int_of n = if ltb n (2 ^ 31) then pos n else negsuc (2 ^ 32 - 1 - n)

module _ (get_obj : Text → ℕ) where
  -- The loop over `errValue`.
  unfoldable pub note_errors : List Text → List ℕ → List ℕ → Status → Option Status
  note_errors objs attrs [] st = some st
  note_errors [] attrs (e ∷ es) st = none
  note_errors (o ∷ objs) [] (e ∷ es) st = none
  note_errors (o ∷ objs) (a ∷ attrs) (e ∷ es) st =
      note_errors objs attrs es (add_error st (get_obj o) a (int_of e))

-- A write at a place of an array.
unfoldable pub write : ℕ → ℕ → List ℕ → Option (List ℕ)
write i v xs = get_elem? xs i >>= (λ (old : ℕ). some (set xs i v))

-- The inner loop of `getValue`: a row of values and of stamps, at a place of the two arrays.
unfoldable pub write_row : ℕ → List ℕ → List ℕ → List ℕ × List ℕ → Option (List ℕ × List ℕ)
write_row i [] ts out = some out
write_row i (v ∷ vs) [] out = none
write_row i (v ∷ vs) (t ∷ ts) (values, times) = do
  values' ← write i v values
  times' ← write i t times
  write_row (suc i) vs ts (values', times')

-- A row at a pointer, which may be NULL.
unfoldable pub write_at : Option ℕ → List ℕ → List ℕ → List ℕ × List ℕ → Option (List ℕ × List ℕ)
write_at (some i) vs ts out = write_row i vs ts out
write_at none [] ts out = some out
write_at none (v ∷ vs) ts out = none

unfoldable pub first_row : List (List ℕ) → List ℕ
first_row [] = []
first_row (ts ∷ tss) = ts

unfoldable pub other_rows : List (List ℕ) → List (List ℕ)
other_rows [] = []
other_rows (ts ∷ tss) = tss

-- The outer loop, after the assertion that there are as many rows as pointers.
unfoldable pub write_rows :
    List (Option ℕ) → List (List ℕ) → List (List ℕ) → List ℕ × List ℕ → Option (List ℕ × List ℕ)
write_rows [] [] tss out = some out
write_rows [] (vs ∷ vss) tss out = none
write_rows (p ∷ ps) [] tss out = none
write_rows (p ∷ ps) (vs ∷ vss) tss out =
    write_at p vs (first_row tss) out >>= write_rows ps vss (other_rows tss)

-- The loop of `getSamples`: as many values as the event says that it has.
unfoldable pub write_samples : ℕ → ℕ → List ℕ → List ℕ → Option (List ℕ)
write_samples n i [] out = if n == 0 then some out else none
write_samples n i (v ∷ vs) out =
    let rest = write i v out >>= write_samples (n - 1) (suc i) vs in
    if n == 0 then some out else rest

unfoldable pub first_pointer : List (Option ℕ) → Option ℕ
first_pointer [] = none
first_pointer (p ∷ ps) = p

module _ (get_obj : Text → ℕ) where
  -- `DistRequest::getValue`.
  unfoldable pub get_value : ℕ → CommRespEvent → DistRequest → Option DistRequest
  get_value id ev r = do
    (values, times) ← write_rows r.rows ev.value ev.time_stamp (r.values, r.times)
    status ← note_errors get_obj ev.err_obj ev.err_attr ev.err_value r.status
    some (record r {
      values = values;
      times = times;
      status = status;
      comm_reqs = drop_req id r.comm_reqs;
    })

  -- `DistRequest::setValue`.
  unfoldable pub set_value : ℕ → CommRespEvent → DistRequest → Option DistRequest
  set_value id ev r = do
    status ← note_errors get_obj ev.err_obj ev.err_attr ev.err_value r.status
    some (record r { status = status; comm_reqs = drop_req id r.comm_reqs })

  -- `DistRequest::setRetval`.
  unfoldable pub set_retval : ℕ → CommLogRespEvent → DistRequest → Option DistRequest
  set_retval id ev r = do
    status ← note_errors get_obj ev.err_obj ev.err_attr ev.err_value r.status
    some (record r { status = status; comm_reqs = drop_req id r.comm_reqs })

  -- `DistRequest::getSamples`: the errors of the event are not read.
  unfoldable pub get_samples : ℕ → CommGetSamplesRespEvent → DistRequest → Option DistRequest
  get_samples id ev r = do
    i ← first_pointer r.rows
    values ← write_samples ev.count i ev.samples r.values
    times ← write i ev.start_time r.times
    some (record r { values = values; times = times; comm_reqs = drop_req id r.comm_reqs })

  unfoldable pub on_resp :
      (CommRespEvent → DistRequest → Option DistRequest)
      → Message
      → DistRequest
      → Option DistRequest
  on_resp f (resp ev) r = f ev r
  on_resp f _ r = none

  unfoldable pub on_log_resp : ℕ → Message → DistRequest → Option DistRequest
  on_log_resp id (log_resp ev) r = set_retval id ev r
  on_log_resp id _ r = none

  unfoldable pub on_samples_resp : ℕ → Message → DistRequest → Option DistRequest
  on_samples_resp id (samples_resp ev) r = get_samples id ev r
  on_samples_resp id _ r = none

  -- The `process` of each class, with its cast of the event.
  unfoldable pub respond : Kind → ℕ → Message → DistRequest → Option DistRequest
  respond dist_get id m r = on_resp (get_value id) m r
  respond dist_set id m r = on_resp (set_value id) m r
  respond dist_start_log id m r = on_log_resp id m r
  respond dist_stop_log id m r = on_log_resp id m r
  respond dist_get_samples id m r = on_samples_resp id m r

  -- `CommReq* req = (CommReq*)ev->id; req->process( ev );`
  unfoldable pub process : Message → Ctx → Option Ctx
  process m ctx = do
    c ← lookup (event_of m).id ctx.comm_reqs
    r ← lookup c.req ctx.requests
    r' ← respond c.kind (event_of m).id m r
    some (record ctx { requests = insert c.req r' ctx.requests })

  -- `DistRequest::wait`: the events that come until the channel is closed, and those left over.
  unfoldable pub wait : ℕ → List Message → Ctx → Option (ℤ × List Message × Ctx)
  wait a [] ctx = do
    r ← lookup a ctx.requests
    some (
        if finished r
        then (success, [], record ctx { requests = insert a (exec_callback r) ctx.requests })
        else (ret_ipc, [], ctx))
  wait a (m ∷ ms) ctx = do
    r ← lookup a ctx.requests
    let next = process m ctx >>= wait a ms
    if finished r
        then some
            (success, m ∷ ms, record ctx { requests = insert a (exec_callback r) ctx.requests })
        else next

  -- `DistCntxt::makeProgress`, on the event that has come: the callback follows every response.
  -- `none` is also the NULL event of a closed channel.
  unfoldable pub make_progress : List Message → Ctx → Option (List Message × Ctx)
  make_progress [] ctx = none
  make_progress (m ∷ ms) ctx = do
    ctx' ← process m ctx
    c ← lookup (event_of m).id ctx'.comm_reqs
    r ← lookup c.req ctx'.requests
    some (ms, record ctx' { requests = insert c.req (exec_callback r) ctx'.requests })
