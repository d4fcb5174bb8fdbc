-- ===== src/Dist/Object/Remote.antt =====
-- A read of attributes that are on another node: what is sent, and what the response gives.
use pwrapi.Prelude.{
  ℕ, suc, ◌≡◌, refl, ap, ◌∙◌, Option, some, true, List, [], ◌∷◌, ◌++◌, map, set, All, ==_self,
  arith,
}
use pwrapi.Prelude.Int.{ℤ}
use pwrapi.Prelude.Map.{nat_eq, lookup, insert, lookup-insert_self}
use pwrapi.Objects.{
  Status, DeviceOps, Slot, is_valid, no_devices, combine, attr_get_values_device, get_slots,
  attr_get_values, read_devices,
}
use pwrapi.Events.Message.{Message}
use pwrapi.Dist.{Kind, dist_get, DistComm, DistRequest, Ctx}
use pwrapi.Dist.Request.{finished, no_reqs}
use pwrapi.Dist.Comm.{send_on, get_event, get_values, insert_req}
use pwrapi.Dist.Comm.Sent.{greeting, send_on-kept}
use pwrapi.Dist.Object.{
  DistObject, as_object, is_set, same_comm, all_same, put, finish, ask, code_of, names_of,
  values_of, stamps_of, first_name, ask_for, get_values_req,
}

-- The attributes of the slots are on the node of a communicator.
abbrev pub Remote : {Dev : Type 0} → DistObject Dev → ℕ → List Slot → Type 0
Remote o c slots = All (λ s. (o.comm s.name ≡ some c) × (o.devices s.name ≡ [])) slots

abbrev pub cleared : List Slot → List Slot
cleared slots = map (λ (s : Slot). record s { value = 0; stamp = 0 }) slots

abbrev pub inserted : Kind → ℕ → DistRequest → Ctx → Ctx
inserted kind a r ctx = record ctx {
  requests = insert a (record r { comm_reqs = ctx.next ∷ r.comm_reqs }) ctx.requests;
  comm_reqs = insert ctx.next (record { kind = kind; req = a }) ctx.comm_reqs;
  next = suc ctx.next;
}

pub insert_req-inserted :
    (kind : Kind) (a : ℕ) (r : DistRequest) (ctx : Ctx)
    → lookup a ctx.requests ≡ some r
    → insert_req kind a ctx ≡ some (ctx.next, inserted kind a r ctx)
unfolding insert_req
insert_req-inserted kind a r ctx live = rw (live) refl

-- A part is inserted and its event is sent; the rest of the context stays.
pub ask-sent :
    (c : ℕ) (comm : DistComm) (kind : Kind) (a : ℕ) (ev : ℕ → DistComm → Message) (r : DistRequest)
    (ctx : Ctx)
    → lookup a ctx.requests ≡ some r
    → lookup c ctx.comms ≡ some comm
    → (ctx' : Ctx) × (ask (some c) kind a (λ (d id : ℕ). send_on d (ev id)) ctx ≡ some ctx')
      × (ctx'.requests ≡ insert a (record r { comm_reqs = ctx.next ∷ r.comm_reqs }) ctx.requests)
      × (ctx'.comm_reqs ≡ insert ctx.next (record { kind = kind; req = a }) ctx.comm_reqs)
      × (ctx'.sent ≡ ctx.sent ++ (greeting comm ++ ev ctx.next comm ∷ []))
unfolding ask
ask-sent c comm kind a ev r ctx live known =
    let (ctx', on, requests, parts, sent) =
      send_on-kept c (ev ctx.next) comm (inserted kind a r ctx) known in
    (ctx', rw (insert_req-inserted kind a r ctx live) on, requests, parts, sent)

module _ {World Dev : Type 0} (ops : DeviceOps World Dev) where
  -- No device is read: the slots are cleared.
  local_part :
      (o : DistObject Dev) (c : ℕ) (slots : List Slot) (st : Status) (w : World)
      → Remote o c slots
      → get_slots ops (as_object o) slots st w ≡ ((cleared slots, st), w)
  unfolding get_slots as_object is_set attr_get_values_device read_devices combine is_valid
      no_devices
  local_part o c [] st w remote = refl
  local_part o c (s ∷ slots) st w ((there, nowhere), remote) =
      ground (arith, there, nowhere, local_part o c slots st w remote)

  pub finish-waiting :
      (ret : ℤ) (a id : ℕ) (ids : List ℕ) (ctx : Ctx) (r : DistRequest)
      → lookup a ctx.requests ≡ some r
      → r.comm_reqs ≡ id ∷ ids
      → finish ret a ctx ≡ some ctx
  unfolding finish finished no_reqs
  finish-waiting ret a id ids ctx r at e = ground (arith, at, e)

  one_comm :
      (o : DistObject Dev) (c : ℕ) (slots : List Slot)
      → Remote o c slots
      → all_same (some c) (map o.comm (names_of slots)) ≡ true
  unfolding all_same same_comm
  one_comm o c [] remote = refl
  one_comm o c (s ∷ slots) ((there, nowhere), remote) =
      rw (there, ==_self c) (one_comm o c slots remote)

  ask_for-Remote :
      (o : DistObject Dev) (c : ℕ) (s : Slot) (slots : List Slot) (kind : Kind) (a : ℕ)
      (call : ℕ → ℕ → Ctx → Option Ctx) (ctx : Ctx)
      → Remote o c (s ∷ slots)
      → ask_for o (s ∷ slots) kind a call ctx ≡ ask (some c) kind a call ctx
  unfolding ask_for first_name
  ask_for-Remote o c s slots kind a call ctx remote =
      let here : o.comm s.name ≡ some c = remote.0.0 in
      let all : all_same (o.comm s.name) (map o.comm (names_of (s ∷ slots))) ≡ true =
        ap (λ (d : Option ℕ). all_same d (map o.comm (names_of (s ∷ slots)))) here
        ∙ one_comm o c (s ∷ slots) remote in
      rw (all, here) refl

  -- The request of a read: its part is inserted, and the event sent.
  pub get_values_req-asked :
      (unset : ℕ) (o : DistObject Dev) (c : ℕ) (comm : DistComm) (s : Slot) (slots : List Slot)
      (st : Status) (a : ℕ) (r : DistRequest) (ctx : Ctx) (w : World)
      → Remote o c (s ∷ slots)
      → lookup a ctx.requests ≡ some r
      → lookup c ctx.comms ≡ some comm
      → (ctx' : Ctx) × (get_values_req ops unset o (s ∷ slots) st a ctx w
          ≡ some ((code_of st, cleared (s ∷ slots), st), ctx', w))
        × (lookup a ctx'.requests
            ≡ some (record r {
              comm_reqs = ctx.next ∷ r.comm_reqs;
              rows = set r.rows 0 (some 0);
              values = values_of (cleared (s ∷ slots));
              times = stamps_of (cleared (s ∷ slots));
            }))
        × (lookup ctx.next ctx'.comm_reqs ≡ some (record { kind = dist_get; req = a }))
        × (ctx'.sent
            ≡ ctx.sent
              ++ (greeting comm
                  ++ get_event
                      (names_of (s ∷ slots))
                      (map o.value_op (names_of (s ∷ slots)))
                      ctx.next
                      comm
                    ∷ []))
  unfolding get_values_req attr_get_values get_values
  get_values_req-asked unset o c comm s slots st a r ctx w remote live known =
      let r₀ : DistRequest = record r {
        rows = set r.rows 0 (some 0);
        values = values_of (cleared (s ∷ slots));
        times = stamps_of (cleared (s ∷ slots));
      } in
      let (ctx', asked, requests, parts, sent) =
        ask-sent c comm dist_get a
          (λ id. get_event (names_of (s ∷ slots)) (map o.value_op (names_of (s ∷ slots))) id) r₀
          (put a r₀ ctx) (lookup-insert_self a r₀ ctx.requests) known in
      let call = λ (d id : ℕ).
        get_values d (names_of (s ∷ slots)) (map o.value_op (names_of (s ∷ slots))) id in
      let asked' : ask (some c) dist_get a call (put a r₀ ctx) ≡ some ctx' = asked in
      let at' : lookup a ctx'.requests ≡ some (record r₀ { comm_reqs = ctx.next ∷ r.comm_reqs }) =
        ap (lookup a) requests ∙ lookup-insert_self a _ _ in
      (
        ctx',
        rw
            (
              local_part o c (s ∷ slots) st w remote,
              live,
              ask_for-Remote o c s slots dist_get a call (put a r₀ ctx) remote,
              asked',
              finish-waiting (code_of st) a ctx.next r.comm_reqs ctx' _ at' refl,
            )
            refl,
        at',
        ap (lookup ctx.next) parts ∙ lookup-insert_self ctx.next _ _,
        sent,
      )
