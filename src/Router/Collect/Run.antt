-- ===== src/Router/Collect/Run.antt =====
-- A request from its first response to its last.
use pwrapi.Prelude.{
  ℕ, ◌^◌, ◌<◌, ◌≡◌, refl, sym, ap, ◌∙◌, subst, Option, none, some, true, List, [], ◌∷◌, ◌++◌, ◌==◌,
  ==_iff, length, get_elem?, set, All, arith, ◌>>=◌,
}
use pwrapi.Events.Requests.{CommReqEvent}
use pwrapi.Events.Responses.{CommRespEvent}
use pwrapi.Router.Collect.{CommReqInfo, fp_add_op, get_op, process_resp, new_info, new_resp, rows}
use pwrapi.Router.Collect.Sums.{Answers}
use pwrapi.Router.Collect.Pending.{
  awaited, awaited-new, open_groups-new, total_size, length-rows, All-rows,
}
use pwrapi.Router.Collect.Complete.{IsGet, IsInfo, process_resp-Taken}

-- Every response of a sequence comes to a group that still waits.
unfoldable pub Arrive : List ℕ → List (List CommRespEvent) → List CommRespEvent → Type 0
Arrive sizes qs [] = Unit
Arrive sizes qs (r ∷ rs) =
    (size : ℕ) × (queue : List CommRespEvent) × (get_elem? sizes r.grp_index ≡ some size)
    × (get_elem? qs r.grp_index ≡ some queue)
    × (length queue < size)
    × Arrive sizes (set qs r.grp_index (queue ++ r ∷ [])) rs

Arrive-same :
    (ns ns' : List ℕ) (qs qs' : List (List CommRespEvent)) (rs : List CommRespEvent)
    → ns ≡ ns'
    → qs ≡ qs'
    → Arrive ns qs rs
    → Arrive ns' qs' rs
Arrive-same ns ns' qs qs' rs e f a = rw (sym e, sym f) a

-- What is sent after each event of a sequence, if an answer is sent after the last and none before.
abbrev pub at_end : {A B : Type 0} → A → List B → List (Option A)
at_end x [] = []
at_end x (r ∷ []) = some x ∷ []
at_end x (r ∷ r' ∷ rs) = none ∷ at_end x (r' ∷ rs)

module _ (fp_add : ℕ → ℕ → ℕ) where
  -- The events of a sequence are processed, and what each of them sends is listed.
  pub collect :
      CommReqInfo → List CommRespEvent → Option (CommReqInfo × List (Option CommRespEvent))
  collect info [] = some (info, [])
  collect info (r ∷ rs) = do
    (info', out) ← process_resp fp_add info r
    (info'', outs) ← collect info' rs
    some (info'', out ∷ outs)

  collect-quiet :
      (info info' last : CommReqInfo) (r : CommRespEvent) (rs : List CommRespEvent)
      (outs : List (Option CommRespEvent))
      → process_resp fp_add info r ≡ some (info', none)
      → collect info' rs ≡ some (last, outs)
      → collect info (r ∷ rs) ≡ some (last, none ∷ outs)
  unfolding collect
  collect-quiet info info' last r rs outs step rest = rw (step, rest) refl

  -- One response is sent, after the last that is awaited.
  collect-once :
      (info : CommReqInfo) (rs : List CommRespEvent)
      → IsInfo info
      → Arrive info.grp_info info.resp_q rs
      → (info.ev.op ≡ get_op → All (Answers (length info.value_op)) rs)
      → length rs ≡ awaited info.grp_info info.resp_q
      → 0 < length rs
      → (last : CommReqInfo) × (collect info rs ≡ some (last, at_end last.resp rs))
  unfolding collect Arrive
  collect-once info [] is arrive h all pos = absurd (omega arith)
  collect-once info (r ∷ []) is (size, queue, at_size, at_queue, room, arrive) h all pos =
      let t =
        process_resp-Taken fp_add info r
          (record {
            size = size;
            queue = queue;
            at_size = at_size;
            at_queue = at_queue;
            room = room;
            answers = λ get. (h get).0;
          })
          is in
      (t.after, rw (t.run) (ground (arith, t.fewer, all)))
  collect-once info (r ∷ r' ∷ rs) is (size, queue, at_size, at_queue, room, arrive) h all pos =
      let t =
        process_resp-Taken fp_add info r
          (record {
            size = size;
            queue = queue;
            at_size = at_size;
            at_queue = at_queue;
            room = room;
            answers = λ get. (h get).0;
          })
          is in
      let (last, rest) =
        collect-once t.after (r' ∷ rs) t.is_info
          (Arrive-same _ _ _ _ (r' ∷ rs) (sym t.same.0) (sym t.queued) arrive)
          (λ get.
            subst (λ ops. All (Answers (length ops)) (r' ∷ rs)) (sym t.same.2)
              (h (sym (ap (λ ev. ev.op) t.same.1) ∙ get)).1)
          (omega (arith, t.fewer, all)) (omega arith) in
      (
        last,
        collect-quiet info t.after last r (r' ∷ rs) (at_end last.resp (r' ∷ rs))
            (t.run ∙ ground (arith, t.fewer, all)) rest,
      )

new_info-IsGet :
    (src : ℕ) (ev : CommReqEvent) (sizes : List ℕ)
    → (ev.op ≡ get_op → All (λ op. op ≡ fp_add_op) ev.value_op)
    → ev.op ≡ get_op
    → IsGet (new_info src ev sizes)
unfolding new_info new_resp
new_info-IsGet src ev sizes h get =
    let e : (ev.op == get_op) ≡ true = (==_iff ev.op get_op).1 get in
    record {
      values = rw (e) (length-rows ℕ sizes);
      stamps = rw (e) (length-rows ℕ sizes);
      sums = rw (e) (h get);
      answered = All-rows (All (Answers _)) sizes tt;
    }

new_info-IsInfo :
    (src : ℕ) (ev : CommReqEvent) (sizes : List ℕ)
    → All (λ n. 0 < n) sizes
    → length sizes < 2 ^ 64
    → (ev.op ≡ get_op → All (λ op. op ≡ fp_add_op) ev.value_op)
    → IsInfo (new_info src ev sizes)
unfolding new_info
new_info-IsInfo src ev sizes pos small h = record {
  pending = sym (open_groups-new sizes pos);
  small = small;
  get = new_info-IsGet src ev sizes h;
}

-- A request to less than 2 ^ 64 groups, none of them empty, whose operations are `FP_ADD` if it is
-- a `Get`. As many responses come for each group as it has objects, in any order, each with a value
-- and a stamp for every operation if it is a `Get`: nothing is sent after any of them but the last,
-- and after the last one response is.
pub collect-new_info :
    (fp_add : ℕ → ℕ → ℕ) (src : ℕ) (ev : CommReqEvent) (sizes : List ℕ) (rs : List CommRespEvent)
    → All (λ n. 0 < n) sizes
    → length sizes < 2 ^ 64
    → (ev.op ≡ get_op → All (λ op. op ≡ fp_add_op) ev.value_op)
    → Arrive sizes (rows sizes) rs
    → (ev.op ≡ get_op → All (Answers (length ev.value_op)) rs)
    → length rs ≡ total_size sizes
    → 0 < length rs
    → (last : CommReqInfo) × (collect fp_add (new_info src ev sizes) rs
        ≡ some (last, at_end last.resp rs))
unfolding new_info
collect-new_info fp_add src ev sizes rs pos small sums arrive answers all some_rs =
    collect-once fp_add (new_info src ev sizes) rs (new_info-IsInfo src ev sizes pos small sums)
      arrive (λ get. rw ((==_iff ev.op get_op).1 get) (answers get)) (all ∙ sym (awaited-new sizes))
      some_rs
