-- ===== src/Router/Collect.antt =====
-- tools/pwrdaemon/router/commReqEvent.h and commRespEvent.h: a request to groups of objects, and the
-- one response that is made of theirs (`CommReqInfo`). A `double` is its bit pattern, and the sum of
-- two is the machine's: a parameter.
pub mod Pending
pub mod Run
pub mod Complete
pub mod Sums
use pwrapi.Prelude.{
  ℕ, ◌+◌, ◌-◌, ◌%◌, ◌^◌, Option, none, some, Bool, true, false, List, [], ◌∷◌, ◌++◌, map, ◌==◌,
  if◌then◌else◌, length, get_elem?, set, take, replicate, ltb, ◌>>=◌,
}
use pwrapi.Events.{Event, CommEvent, EventType, comm_resp, code}
use pwrapi.Events.Requests.{CommReqEvent}
use pwrapi.Events.Responses.{CommRespEvent}

-- `CommEvent::Get` and `FP_ADD`.
abbrev pub get_op : ℕ
get_op = 1

abbrev pub fp_add_op : ℕ
fp_add_op = 1

pub record CommReqInfo : Type 0 where
  pub src : ℕ
  pub ev : CommReqEvent
  pub grp_info : List ℕ
  pub pending : ℕ
  pub value_op : List ℕ
  pub resp_q : List (List CommRespEvent)
  pub resp : CommRespEvent

-- `new CommRespEvent` with the request's `id`; what it leaves unset is set before it is sent.
unfoldable pub new_resp : ℕ → List (List ℕ) → CommRespEvent
new_resp id rows = record {
  comm = record {
    event = record { type = code comm_resp; id = id; status = 0 };
    comm_id = 0;
    op = 0;
  };
  time_stamp = rows;
  value = rows;
  grp_index = 0;
  err_obj = [];
  err_attr = [];
  err_value = [];
}

-- `resize( commList.size() )`: an empty vector for each group.
abbrev pub rows : {A : Type 0} → List ℕ → List (List A)
rows [] = []
rows (n ∷ ns) = [] ∷ rows ns

-- `RtrCommReqEvent::process`, up to the sends: the sizes are those of the groups of the
-- communicator.
unfoldable pub new_info : ℕ → CommReqEvent → List ℕ → CommReqInfo
new_info src ev sizes =
    let is_get = ev.op == get_op in
    record {
      src = src;
      ev = ev;
      grp_info = sizes;
      pending = length sizes;
      value_op = if is_get then ev.value_op else [];
      resp_q = rows sizes;
      resp = new_resp ev.id (if is_get then rows sizes else []);
    }

-- The stamps of one response, as many as there are operations.
unfoldable pub copy_stamps : List ℕ → List ℕ → Option (List ℕ)
copy_stamps [] stamps = some []
copy_stamps (op ∷ ops) [] = none
copy_stamps (op ∷ ops) (t ∷ stamps) = copy_stamps ops stamps >>= (λ more. some (t ∷ more))

-- The errors of the responses, behind one another.
unfoldable pub add_errors : CommRespEvent → List CommRespEvent → CommRespEvent
add_errors resp [] = resp
add_errors resp (r ∷ rs) =
    add_errors
      (record resp {
        err_value = resp.err_value ++ r.err_value;
        err_attr = resp.err_attr ++ r.err_attr;
        err_obj = resp.err_obj ++ r.err_obj;
      })
      rs

-- The errors, and the two fields that are only cleared.
unfoldable pub finished : CommRespEvent → List CommRespEvent → CommRespEvent
finished resp queue = record (add_errors resp queue) {
  grp_index = 0;
  comm = record resp.comm { comm_id = 0 };
}

module _ (fp_add : ℕ → ℕ → ℕ) where
  -- One response's values on the sums, with the assertion on each operation; a value that is not
  -- there is read out of bounds.
  unfoldable pub add_values : List ℕ → List ℕ → List ℕ → Option (List ℕ)
  add_values [] sums values = some []
  add_values (op ∷ ops) [] values = none
  add_values (op ∷ ops) (s ∷ sums) [] = none
  add_values (op ∷ ops) (s ∷ sums) (v ∷ values) =
      let rest = add_values ops sums values in
      if op == fp_add_op then rest >>= (λ more. some (fp_add s v ∷ more)) else none

  -- The double loop over the responses of a group: its sums and its last stamps.
  unfoldable pub gather : List ℕ → List ℕ → List ℕ → List CommRespEvent → Option (List ℕ × List ℕ)
  gather ops sums stamps [] = some (sums, stamps)
  gather ops sums stamps (r ∷ rs) = do
    values ← get_elem? r.value 0
    times ← get_elem? r.time_stamp 0
    sums' ← add_values ops sums values
    stamps' ← copy_stamps ops times
    gather ops sums' stamps' rs

  -- The values and the stamps of a group that is complete, for a `Get`.
  put_values : CommReqInfo → ℕ → List CommRespEvent → Option CommRespEvent
  put_values info grp queue = do
    (sums, stamps) ←
        gather info.value_op (replicate (length info.value_op) 0)
          (replicate (length info.value_op) 0) queue
    old_values ← get_elem? info.resp.value grp
    old_stamps ← get_elem? info.resp.time_stamp grp
    some (record info.resp {
      value = set info.resp.value grp sums;
      time_stamp = set info.resp.time_stamp grp stamps;
    })

  -- A group is complete.
  finish_group : CommReqInfo → ℕ → List CommRespEvent → Option CommReqInfo
  finish_group info grp queue = do
    resp ← if info.ev.op == get_op then put_values info grp queue else some info.resp
    some (record info {
      resp = finished resp queue;
      pending = (info.pending + (2 ^ 64 - 1)) % 2 ^ 64;
    })

  -- The response is sent when no group is pending.
  answer : CommReqInfo → CommReqInfo × Option CommRespEvent
  answer info = (info, if info.pending == 0 then some info.resp else none)

  -- What follows the `push_back`, which has been done.
  check_group :
      CommReqInfo → ℕ → ℕ → List CommRespEvent → Option (CommReqInfo × Option CommRespEvent)
  check_group info grp size queue =
      let ready = finish_group info grp queue >>= (λ done. some (answer done)) in
      if length queue == size then ready else some (info, none)

  -- `RtrCommRespEvent::process`: the new state of the request, and the response if it is sent. `none`
  -- is a group out of range, a failed assertion or a value that is not there.
  pub process_resp : CommReqInfo → CommRespEvent → Option (CommReqInfo × Option CommRespEvent)
  process_resp info ev = do
    queue ← get_elem? info.resp_q ev.grp_index
    size ← get_elem? info.grp_info ev.grp_index
    check_group (record info { resp_q = set info.resp_q ev.grp_index (queue ++ ev ∷ []) })
        ev.grp_index size (queue ++ ev ∷ [])
