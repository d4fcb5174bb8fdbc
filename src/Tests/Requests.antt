-- ===== src/Tests/Requests.antt =====
-- A request to two groups, of two objects and of one.
use pwrapi.Prelude.{ℕ, ◌+◌, ◌<◌, ◌≡◌, refl, some, List, [], ◌∷◌, length, replicate, All, arith}
use pwrapi.Events.{CommEvent}
use pwrapi.Events.Requests.{CommReqEvent}
use pwrapi.Events.Responses.{CommRespEvent}
use pwrapi.Router.Collect.{CommReqInfo, gather, new_info, new_resp, rows}
use pwrapi.Router.Collect.Sums.{Answers, nth, total, gather-sums}
use pwrapi.Router.Collect.Pending.{total_size, open_groups}
use pwrapi.Router.Collect.Complete.{IsInfo, IsExpected, Taken, process_resp-Taken}
use pwrapi.Router.Collect.Run.{Arrive, at_end, collect, collect-new_info}

abbrev comm : CommEvent
comm = record { event = record { type = 3; id = 5; status = 0 }; comm_id = 7; op = 1 }

abbrev request : CommReqEvent
request = record {
  comm = comm;
  grp_index = 0;
  attr_name = 4 ∷ [];
  set_values = [];
  value_op = 1 ∷ [];
}

abbrev answer_of : ℕ → ℕ → CommRespEvent
answer_of group v = record {
  comm = comm;
  time_stamp = (3 ∷ []) ∷ [];
  value = (v ∷ []) ∷ [];
  grp_index = group;
  err_obj = [];
  err_attr = [];
  err_value = [];
}

answer_of-Answers : (g v : ℕ) → Answers 1 (answer_of g v)
answer_of-Answers g v = record {
  row = v ∷ [];
  stamps = 3 ∷ [];
  values = refl;
  times = refl;
  enough_values = omega arith;
  enough_times = omega arith;
}

abbrev answers : List CommRespEvent
answers = answer_of 0 10 ∷ answer_of 1 20 ∷ answer_of 0 30 ∷ []

answers-All : All (Answers 1) answers
answers-All = (answer_of-Answers 0 10, (answer_of-Answers 1 20, (answer_of-Answers 0 30, tt)))

abbrev sizes : List ℕ
sizes = 2 ∷ 1 ∷ []

answers-Arrive : Arrive sizes (rows sizes) answers
unfolding Arrive
answers-Arrive = (
  2,
  [],
  refl,
  refl,
  omega arith,
  (1, [], refl, refl, omega arith, (2, answer_of 0 10 ∷ [], refl, refl, omega arith, tt)),
)

abbrev plus : ℕ → ℕ → ℕ
plus a b = a + b

gather-sums_example :
    (out : List ℕ) × (last : List ℕ) × (gather plus (1 ∷ []) (replicate 1 0) (replicate 1 0) answers
      ≡ some (out, last))
    × ((i : ℕ) → i < 1 → nth out i ≡ total plus 1 i 0 answers answers-All)
gather-sums_example = gather-sums plus (1 ∷ []) answers answers-All (refl, tt)

answers-total : length answers ≡ total_size sizes
unfolding total_size
answers-total = refl

collect-new_info_example :
    (last : CommReqInfo) × (collect plus (new_info 9 request sizes) answers
      ≡ some (last, at_end last.resp answers))
collect-new_info_example =
    collect-new_info plus 9 request sizes answers (ground arith) (omega arith) (λ _. (refl, tt))
      answers-Arrive (λ _. answers-All) answers-total (omega arith)

-- The request before its first response.
abbrev fresh : CommReqInfo
fresh = record {
  src = 9;
  ev = request;
  grp_info = sizes;
  pending = 2;
  value_op = 1 ∷ [];
  resp_q = [] ∷ [] ∷ [];
  resp = new_resp 5 ([] ∷ [] ∷ []);
}

fresh-IsInfo : IsInfo fresh
unfolding new_resp open_groups
fresh-IsInfo = record {
  pending = refl;
  small = omega arith;
  get = λ _. record { values = refl; stamps = refl; sums = (refl, tt); answered = (tt, (tt, tt)) };
}

abbrev first-IsExpected : IsExpected fresh (answer_of 1 20)
first-IsExpected = record {
  size = 1;
  queue = [];
  at_size = refl;
  at_queue = refl;
  room = omega arith;
  answers = λ _. answer_of-Answers 1 20;
}

process_resp-Taken_example : Taken plus fresh (answer_of 1 20) []
process_resp-Taken_example =
    process_resp-Taken plus fresh (answer_of 1 20) first-IsExpected fresh-IsInfo
