-- ===== src/Router/Collect/Complete.antt =====
-- A request that waits for its responses: what each response does to it.
use pwrapi.Prelude.{
  ℕ, ◌+◌, ◌-◌, ◌%◌, ◌^◌, ◌<◌, ◌≡◌, inl, inr, refl, ap, ◌∙◌, none, some, true, false, List, [], ◌∷◌,
  ◌++◌, ◌==◌, ==_iff, Bool-cases, if◌then◌else◌, length, length-append, length-set, get_elem?, set,
  All, All-get_elem?, All-set, All-push, get_elem?-lt, lt-get_elem?, arith,
}
use pwrapi.Events.Responses.{CommRespEvent}
use pwrapi.Router.Collect.{
  CommReqInfo, fp_add_op, get_op, add_errors, put_values, finish_group, finished, answer,
  check_group, process_resp,
}
use pwrapi.Router.Collect.Sums.{Answers, gather-sums}
use pwrapi.Router.Collect.Pending.{
  open_groups, awaited, open_groups-set, awaited-set, awaited_iff, open_groups-le,
}

-- A `Get` has a row for every group, adds its values, and has answers only.
pub record IsGet (info : CommReqInfo) : Type 0 where
  pub values : length info.resp.value ≡ length info.grp_info
  pub stamps : length info.resp.time_stamp ≡ length info.grp_info
  pub sums : All (λ op. op ≡ fp_add_op) info.value_op
  pub answered : All (All (Answers (length info.value_op))) info.resp_q

-- `pending` counts the groups that wait.
pub record IsInfo (info : CommReqInfo) : Type 0 where
  pub pending : info.pending ≡ open_groups info.grp_info info.resp_q
  pub small : length info.grp_info < 2 ^ 64
  pub get : info.ev.op ≡ get_op → IsGet info

-- A response to a group that waits.
pub record IsExpected (info : CommReqInfo) (ev : CommRespEvent) : Type 0 where
  pub size : ℕ
  pub queue : List CommRespEvent
  pub at_size : get_elem? info.grp_info ev.grp_index ≡ some size
  pub at_queue : get_elem? info.resp_q ev.grp_index ≡ some queue
  pub room : length queue < size
  pub answers : info.ev.op ≡ get_op → Answers (length info.value_op) ev

add_errors-rows :
    (resp : CommRespEvent) (rs : List CommRespEvent)
    → ((add_errors resp rs).value ≡ resp.value)
      × ((add_errors resp rs).time_stamp ≡ resp.time_stamp)
unfolding add_errors
add_errors-rows resp [] = (refl, refl)
add_errors-rows resp (r ∷ rs) = add_errors-rows _ rs

finished-rows :
    (resp : CommRespEvent) (rs : List CommRespEvent)
    → ((finished resp rs).value ≡ resp.value) × ((finished resp rs).time_stamp ≡ resp.time_stamp)
unfolding finished
finished-rows = add_errors-rows

-- What a response does to its request.
pub record Taken (fp_add : ℕ → ℕ → ℕ) (info : CommReqInfo) (ev : CommRespEvent)
    (queue : List CommRespEvent) : Type 0 where
  pub after : CommReqInfo
  pub run :
      process_resp fp_add info ev
      ≡ some (after, if awaited after.grp_info after.resp_q == 0 then some after.resp else none)
  pub is_info : IsInfo after
  pub same :
      (after.grp_info ≡ info.grp_info) × (after.ev ≡ info.ev) × (after.value_op ≡ info.value_op)
  pub queued : after.resp_q ≡ set info.resp_q ev.grp_index (queue ++ ev ∷ [])
  pub fewer : awaited info.grp_info info.resp_q ≡ awaited after.grp_info after.resp_q + 1

answers-queue :
    (info : CommReqInfo) (ev : CommRespEvent) (ex : IsExpected info ev)
    → IsInfo info
    → info.ev.op ≡ get_op
    → All (Answers (length info.value_op)) (ex.queue ++ ev ∷ [])
answers-queue info ev ex is get =
    All-push (Answers (length info.value_op)) ex.queue ev
      (All-get_elem? (All (Answers (length info.value_op))) info.resp_q ev.grp_index ex.queue
        (is.get get).answered ex.at_queue)
      (ex.answers get)

-- The response put into its queue.
pushed :
    (info : CommReqInfo) (ev : CommRespEvent) (ex : IsExpected info ev)
    → IsInfo info
    → info.ev.op ≡ get_op
    → IsGet (record info { resp_q = set info.resp_q ev.grp_index (ex.queue ++ ev ∷ []) })
pushed info ev ex is get = record {
  values = (is.get get).values;
  stamps = (is.get get).stamps;
  sums = (is.get get).sums;
  answered =
      All-set (All (Answers (length info.value_op))) info.resp_q ev.grp_index (ex.queue ++ ev ∷ [])
        (is.get get).answered (answers-queue info ev ex is get);
}

-- The groups that wait and the responses awaited, before and after.
counts :
    (info : CommReqInfo) (ev : CommRespEvent) (ex : IsExpected info ev)
    → (open_groups info.grp_info info.resp_q
        ≡ open_groups info.grp_info (set info.resp_q ev.grp_index (ex.queue ++ ev ∷ []))
          + (if length ex.queue + 1 == ex.size then 1 else 0))
      × (awaited info.grp_info info.resp_q
          ≡ awaited info.grp_info (set info.resp_q ev.grp_index (ex.queue ++ ev ∷ [])) + 1)
counts info ev ex = (
  open_groups-set info.grp_info info.resp_q ev.grp_index ex.size ex.queue ev ex.at_size ex.at_queue
      ex.room,
  awaited-set info.grp_info info.resp_q ev.grp_index ex.size ex.queue ev ex.at_size ex.at_queue
      ex.room,
)

still_awaited :
    (info : CommReqInfo) (ev : CommRespEvent) (ex : IsExpected info ev)
    → (length (ex.queue ++ ev ∷ []) == ex.size) ≡ false
    → (awaited info.grp_info (set info.resp_q ev.grp_index (ex.queue ++ ev ∷ [])) == 0) ≡ false
still_awaited info ev ex e = ground (
  arith,
  e,
  counts info ev ex,
  length-append ex.queue (ev ∷ []),
  awaited_iff info.grp_info info.resp_q,
  awaited_iff info.grp_info (set info.resp_q ev.grp_index (ex.queue ++ ev ∷ [])),
)

module _ (fp_add : ℕ → ℕ → ℕ) where
  put_values-some :
      (info : CommReqInfo) (g : ℕ) (queue : List CommRespEvent)
      → IsGet info
      → g < length info.grp_info
      → All (Answers (length info.value_op)) queue
      → (resp : CommRespEvent) × (put_values fp_add info g queue ≡ some resp)
        × (length resp.value ≡ length info.grp_info)
        × (length resp.time_stamp ≡ length info.grp_info)
  unfolding put_values
  put_values-some info g queue is lt h =
      let (sums, stamps, run, at) = gather-sums fp_add info.value_op queue h is.sums in
      let (row, at_row) = get_elem?-lt info.resp.value g (omega (arith, is.values)) in
      let (times, at_times) = get_elem?-lt info.resp.time_stamp g (omega (arith, is.stamps)) in
      (
        record info.resp {
          value = set info.resp.value g sums;
          time_stamp = set info.resp.time_stamp g stamps;
        },
        rw (run, at_row, at_times) refl,
        length-set info.resp.value g sums ∙ is.values,
        length-set info.resp.time_stamp g stamps ∙ is.stamps,
      )

  -- A complete group changes the response and the count of the groups, and nothing else.
  finish_group-some :
      (info : CommReqInfo) (g : ℕ) (queue : List CommRespEvent)
      → (info.ev.op ≡ get_op → IsGet info)
      → g < length info.grp_info
      → (info.ev.op ≡ get_op → All (Answers (length info.value_op)) queue)
      → (resp : CommRespEvent) × (finish_group fp_add info g queue
          ≡ some (record info { resp = resp; pending = (info.pending + (2 ^ 64 - 1)) % 2 ^ 64 }))
        × (info.ev.op ≡ get_op
            → (length resp.value ≡ length info.grp_info)
              × (length resp.time_stamp ≡ length info.grp_info))
  unfolding finish_group
  finish_group-some info g queue is lt h = elim (Bool-cases (info.ev.op == get_op)) [
    | inl e ↦
        let get = (==_iff info.ev.op get_op).0 e in
        let (resp, run, values, stamps) = put_values-some info g queue (is get) lt (h get) in
        (
          finished resp queue,
          rw (e, run) refl,
          λ _. (
            ap length (finished-rows resp queue).0 ∙ values,
            ap length (finished-rows resp queue).1 ∙ stamps,
          ),
        )
    | inr e ↦
        (finished info.resp queue, rw (e) refl, λ get. ground (arith, e, ==_iff info.ev.op get_op))
  ]

  -- The group still waits.
  take_open :
      (info : CommReqInfo) (ev : CommRespEvent) (ex : IsExpected info ev)
      → (length (ex.queue ++ ev ∷ []) == ex.size) ≡ false
      → IsInfo info
      → Taken fp_add info ev ex.queue
  unfolding process_resp check_group
  take_open info ev ex e is =
      let c = counts info ev ex in
      record {
        after = record info { resp_q = set info.resp_q ev.grp_index (ex.queue ++ ev ∷ []) };
        run = rw (ex.at_queue, ex.at_size, e, still_awaited info ev ex e) refl;
        is_info = record {
          pending = ground (arith, e, is.pending, c, length-append ex.queue (ev ∷ []));
          small = is.small;
          get = pushed info ev ex is;
        };
        same = (refl, refl, refl);
        queued = refl;
        fewer = c.1;
      }

  -- The group is complete.
  take_last :
      (info : CommReqInfo) (ev : CommRespEvent) (ex : IsExpected info ev)
      → (length (ex.queue ++ ev ∷ []) == ex.size) ≡ true
      → IsInfo info
      → Taken fp_add info ev ex.queue
  unfolding process_resp check_group answer
  take_last info ev ex e is =
      let c = counts info ev ex in
      let qs : List (List CommRespEvent) = set info.resp_q ev.grp_index (ex.queue ++ ev ∷ []) in
      let le = open_groups-le info.grp_info info.resp_q in
      let iff = awaited_iff info.grp_info qs in
      let p : (info.pending + (2 ^ 64 - 1)) % 2 ^ 64 ≡ open_groups info.grp_info qs =
        ground (arith, e, is.pending, is.small, le, c, length-append ex.queue (ev ∷ [])) in
      let (resp, run, rows) =
        finish_group-some (record info { resp_q = qs }) ev.grp_index (ex.queue ++ ev ∷ [])
          (pushed info ev ex is) (lt-get_elem? info.grp_info ev.grp_index ex.size ex.at_size)
          (answers-queue info ev ex is) in
      record {
        after = record info {
          resp_q = qs;
          resp = resp;
          pending = (info.pending + (2 ^ 64 - 1)) % 2 ^ 64;
        };
        run = rw (ex.at_queue, ex.at_size, e, run, p) (ground (arith, iff));
        is_info = record {
          pending = p;
          small = is.small;
          get = λ get. record {
            values = (rows get).0;
            stamps = (rows get).1;
            sums = (is.get get).sums;
            answered = (pushed info ev ex is get).answered;
          };
        };
        same = (refl, refl, refl);
        queued = refl;
        fewer = c.1;
      }

  -- A response comes to a request that is well formed, for a group that waits, with a value and a
  -- stamp for every operation if the request is a `Get`: the request is well formed again, with the
  -- same groups and one response fewer awaited, and the answer is sent exactly if none is awaited.
  pub process_resp-Taken :
      (info : CommReqInfo) (ev : CommRespEvent) (ex : IsExpected info ev)
      → IsInfo info
      → Taken fp_add info ev ex.queue
  process_resp-Taken info ev ex is = elim (Bool-cases (length (ex.queue ++ ev ∷ []) == ex.size)) [
    | inl e ↦ take_last info ev ex e is
    | inr e ↦ take_open info ev ex e is
  ]
