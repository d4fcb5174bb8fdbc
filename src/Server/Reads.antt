-- ===== src/Server/Reads.antt =====
-- What a read of attributes of this node does to its request, where the caller does not wait.
use pwrapi.Prelude.{
  ℕ, ◌≡◌, inl, inr, refl, ap, ◌∙◌, Option, none, some, true, false, Bool-cases, List, [], ◌∷◌, map,
  set, All,
}
use pwrapi.Prelude.Int.{ℤ, eq_ℤ}
use pwrapi.Prelude.Map.{nat_eq, lookup, lookup-insert_self}
use pwrapi.Objects.{
  success, ret_status, ret_invalid, Status, is_empty, add_error, pop, popped_error, DeviceOps,
  Object, Slot, attr_get_values, get_slots, attr_get_values_device, is_valid,
}
use pwrapi.Dist.{Kind, dist_get, DistRequest, Ctx}
use pwrapi.Dist.Request.{finished, no_reqs, exec_callback}
use pwrapi.Dist.Object.{
  DistObject, as_object, put, finish, ask, ask_for, first_name, all_same, same_comm, error_of,
  names_of, values_of, stamps_of, get_values_req, attr_get_values_nb,
}
use pwrapi.Server.{get_slots_of}

-- None of the errors of a status has the code of success.
abbrev pub Nonzero : Status → Type 0
Nonzero st = All (λ e. eq_ℤ e.error success ≡ false) st

-- The attributes are not on another node.
abbrev pub Local : {Dev : Type 0} → DistObject Dev → List ℕ → Type 0
Local o names = All (λ n. o.comm n ≡ none) names

Nonzero-add_error :
    (st : Status) (obj name : ℕ) (ret : ℤ)
    → Nonzero st
    → eq_ℤ ret success ≡ false
    → Nonzero (add_error st obj name ret)
unfolding add_error
Nonzero-add_error [] obj name ret n bad = (bad, tt)
Nonzero-add_error (e ∷ st) obj name ret (p, n) bad = (p, Nonzero-add_error st obj name ret n bad)

module _ {World Dev : Type 0} (ops : DeviceOps World Dev) where
  get_slots-Nonzero :
      (o : Object Dev) (slots : List Slot) (st : Status) (w : World)
      → Nonzero st
      → Nonzero (get_slots ops o slots st w).0.1
  unfolding get_slots
  get_slots-Nonzero o [] st w n = n
  get_slots-Nonzero o (s ∷ slots) st w n =
      let clear : Slot = record s { value = 0; stamp = 0 } in
      let got = attr_get_values_device ops (o.attr_info s.name) clear w in
      elim (Bool-cases (is_valid (o.attr_info s.name))) [
        | inl valid ↦ elim (Bool-cases (eq_ℤ got.0.0 success)) [
          | inl good ↦ rw (valid, good) (get_slots-Nonzero o slots st got.1 n)
          | inr bad ↦ rw (valid, bad) (Nonzero-add_error st o.id s.name got.0.0 n bad)
        ]
        | inr invalid ↦ rw (invalid) (Nonzero-add_error st o.id s.name ret_invalid n refl)
      ]

  pub attr_get_values-Nonzero :
      (o : Object Dev) (slots : List Slot) (w : World)
      → Nonzero (attr_get_values ops o slots [] w).0.2
  unfolding attr_get_values
  attr_get_values-Nonzero o slots w = get_slots-Nonzero o slots [] w tt

  all_same-Local :
      (o : DistObject Dev) (names : List ℕ)
      → Local o names
      → all_same none (map o.comm names) ≡ true
  unfolding all_same same_comm
  all_same-Local o [] near = refl
  all_same-Local o (n ∷ names) (p, near) = rw (p) (all_same-Local o names near)

  names-get_slots_of : (names : List ℕ) → names_of (get_slots_of names) ≡ names
  names-get_slots_of [] = refl
  names-get_slots_of (n ∷ names) = ap (λ (ns : List ℕ). n ∷ ns) (names-get_slots_of names)

  ask_for-Local :
      (o : DistObject Dev) (n : ℕ) (names : List ℕ) (kind : Kind) (a : ℕ)
      (call : ℕ → ℕ → Ctx → Option Ctx) (ctx : Ctx)
      → Local o (n ∷ names)
      → ask_for o (get_slots_of (n ∷ names)) kind a call ctx ≡ some ctx
  unfolding ask_for first_name ask
  ask_for-Local o n names kind a call ctx near =
      let here : o.comm n ≡ none = near.0 in
      let all : all_same (o.comm n) (map o.comm (names_of (get_slots_of (n ∷ names)))) ≡ true =
        rw (names-get_slots_of names) (
          ap (λ (d : Option ℕ). all_same d (map o.comm (n ∷ names))) here
          ∙ all_same-Local o (n ∷ names) near) in
      rw (all, here) refl

  finish-success :
      (a : ℕ) (r : DistRequest) (ctx : Ctx)
      → lookup a ctx.requests ≡ some r
      → r.comm_reqs ≡ []
      → finish success a ctx ≡ some (put a (exec_callback r) ctx)
  unfolding finish finished no_reqs
  finish-success a r ctx at e = rw (at, e) refl

  finish-status :
      (a : ℕ) (r : DistRequest) (ctx : Ctx)
      → lookup a ctx.requests ≡ some r
      → finish ret_status a ctx ≡ some ctx
  unfolding finish
  finish-status a r ctx at = rw (at) refl

  -- The request after a read: its arrays are those of the slots.
  abbrev pub read_into : DistRequest → List Slot → DistRequest
  read_into r slots = record r {
    rows = set r.rows 0 (some 0);
    values = values_of slots;
    times = stamps_of slots;
  }

  abbrev pub after_read : Status → ℕ → DistRequest → Ctx → Ctx
  after_read [] a r ctx = put a (exec_callback r) (put a r ctx)
  after_read (e ∷ es) a r ctx = put a r ctx

  abbrev pub code_after : Status → ℤ
  code_after [] = success
  code_after (e ∷ es) = e.error

  pub attr_get_values_nb-Local :
      (unset : ℕ) (o : DistObject Dev) (n : ℕ) (names : List ℕ) (a : ℕ) (r : DistRequest)
      (ctx : Ctx) (w w' : World) (ret : ℤ) (slots : List Slot) (st : Status)
      → Local o (n ∷ names)
      → lookup a ctx.requests ≡ some r
      → r.comm_reqs ≡ []
      → attr_get_values ops (as_object o) (get_slots_of (n ∷ names)) [] w ≡ ((ret, slots, st), w')
      → attr_get_values_nb ops unset o (get_slots_of (n ∷ names)) a ctx w
        ≡ some ((code_after st, slots), after_read st a (read_into r slots) ctx, w')
  unfolding attr_get_values_nb get_values_req is_empty error_of popped_error pop
  attr_get_values_nb-Local unset o n names a r ctx w w' ret slots [] near live none_ read =
      let r' = read_into r slots in
      rw
        (
          read,
          live,
          ask_for-Local o n names dist_get a _ (put a r' ctx) near,
          finish-success a r' (put a r' ctx) (lookup-insert_self a r' ctx.requests) none_,
        )
        refl
  attr_get_values_nb-Local unset o n names a r ctx w w' ret slots (e ∷ es) near live none_ read =
      let r' = read_into r slots in
      rw
        (
          read,
          live,
          ask_for-Local o n names dist_get a _ (put a r' ctx) near,
          finish-status a r' (put a r' ctx) (lookup-insert_self a r' ctx.requests),
        )
        refl
