-- ===== src/Dist/Comm/Sent.antt =====
-- What a communicator has sent after any of its operations, and its identity.
use pwrapi.Prelude.{
  ℕ, Bool-cases, inl, inr, ◌+◌, ◌*◌, ◌%◌, ◌/◌, ◌^◌, ◌<◌, ◌≡◌, refl, sym, ap, ◌∙◌, Option, some,
  true, false, List, [], ◌∷◌, ◌++◌, append-nil, append_assoc, bit_or, map, if◌then◌else◌, ◌>>=◌,
  arith,
}
use mathlib.Core.Path.{fun_ext}
use pwrapi.Prelude.Bits.{bit_or-fields}
use pwrapi.Prelude.Map.{nat_eq, lookup, insert, lookup-insert, beq_self}
use pwrapi.Events.{
  CommEvent, EventType, comm_create, comm_req, comm_log_req, comm_get_samples_req, code,
}
use pwrapi.Events.Message.{Message, create, req, log_req, samples_req}
use pwrapi.Dist.{DistComm, Ctx}
use pwrapi.Dist.Comm.{
  comm_event, new_comm_id, send, create_event, get_channel, send_on, get_event, set_event,
  log_event, samples_event, get_values, set_values, start_log, stop_log, get_samples,
}

-- An operation of a communicator.
pub data Op : Type 0 where
  get : List ℕ → List ℕ → ℕ → Op
  set_to : ℕ → List ℕ → List ℕ → ℕ → Op
  start : ℕ → ℕ → Op
  stop : ℕ → ℕ → Op
  samples : ℕ → ℕ → ℕ → ℕ → ℕ → Op

-- A `CommEvent` of a communicator; the operation is a number of `OpType`.
abbrev pub header : EventType → ℕ → DistComm → ℕ → CommEvent
header type id c op = record {
  event = record { type = code type; id = id; status = 0 };
  comm_id = c.comm_id;
  op = op;
}

-- The event that an operation is for.
unfoldable pub event_for : DistComm → Op → Message
event_for c (get attrs ops id) = req (record {
  comm = header comm_req id c 1;
  grp_index = 0;
  attr_name = attrs;
  set_values = [];
  value_op = ops;
})
event_for c (set_to unset attrs values id) = req (record {
  comm = header comm_req id c 2;
  grp_index = unset;
  attr_name = attrs;
  set_values = values;
  value_op = [];
})
event_for c (start attr id) =
    log_req (record { comm = header comm_log_req id c 3; attr_name = attr })
event_for c (stop attr id) =
    log_req (record { comm = header comm_log_req id c 4; attr_name = attr })
event_for c (samples attr time period count id) = samples_req (record {
  comm = header comm_get_samples_req id c 0;
  attr_name = attr;
  start_time = time;
  period = period;
  count = count;
})

-- The objects of a communicator, as one group, under its identity.
abbrev pub introduction : DistComm → Message
introduction c = create (record { comm = header comm_create 0 c 0; members = c.objects ∷ [] })

unfoldable pub run_op : ℕ → Op → Ctx → Option Ctx
run_op a (get attrs ops id) = get_values a attrs ops id
run_op a (set_to unset attrs values id) = set_values unset a attrs values id
run_op a (start attr id) = start_log a attr id
run_op a (stop attr id) = stop_log a attr id
run_op a (samples attr time period count id) = get_samples a attr time period count id

unfoldable pub run_ops : ℕ → List Op → Ctx → Option Ctx
run_ops a [] ctx = some ctx
run_ops a (op ∷ ops) ctx = run_op a op ctx >>= run_ops a ops

-- An operation does not look at whether the communicator is known.
event_for-opened :
    (c : DistComm) (op : Op) → event_for (record c { opened = true }) op ≡ event_for c op
unfolding event_for
event_for-opened c (get attrs ops id) = refl
event_for-opened c (set_to unset attrs values id) = refl
event_for-opened c (start attr id) = refl
event_for-opened c (stop attr id) = refl
event_for-opened c (samples attr time period count id) = refl

run_op-send_on :
    (a : ℕ) (op : Op) (ctx : Ctx) → run_op a op ctx ≡ send_on a (λ c. event_for c op) ctx
unfolding run_op event_for get_values set_values start_log stop_log get_samples get_event set_event
    log_event samples_event comm_event
run_op-send_on a (get attrs ops id) ctx = refl
run_op-send_on a (set_to unset attrs values id) ctx = refl
run_op-send_on a (start attr id) ctx = refl
run_op-send_on a (stop attr id) ctx = refl
run_op-send_on a (samples attr time period count id) ctx = refl

get_channel-opened :
    (a : ℕ) (c : DistComm) (ctx : Ctx) → c.opened ≡ true → get_channel a c ctx ≡ ctx
unfolding get_channel
get_channel-opened a c ctx known = ground arith

pub send_on-opened :
    (a : ℕ) (ev : DistComm → Message) (c : DistComm) (ctx : Ctx)
    → c.opened ≡ true
    → lookup a ctx.comms ≡ some c
    → send_on a ev ctx ≡ some (send (ev c) ctx)
unfolding send_on
send_on-opened a ev c ctx known at = rw (at, get_channel-opened a c ctx known) refl

-- After its first event a communicator only sends the events of its operations.
run_ops-opened :
    (a : ℕ) (c : DistComm) (ops : List Op) (ctx : Ctx)
    → c.opened ≡ true
    → lookup a ctx.comms ≡ some c
    → run_ops a ops ctx ≡ some (record ctx { sent = ctx.sent ++ map (event_for c) ops })
unfolding run_ops send
run_ops-opened a c [] ctx known at =
    ap (λ (s : List Message). some (record ctx { sent = s })) (sym (append-nil ctx.sent))
run_ops-opened a c (op ∷ ops) ctx known at =
    rw (run_op-send_on a op ctx, send_on-opened a (λ c'. event_for c' op) c ctx known at)
      (run_ops-opened a c ops (send (event_for c op) ctx) known at
        ∙ ap (λ (s : List Message). some (record ctx { sent = s }))
            (append_assoc ctx.sent (event_for c op ∷ []) (map (event_for c) ops)))

get_channel-new :
    (a : ℕ) (c : DistComm) (ctx : Ctx)
    → c.opened ≡ false
    → get_channel a c ctx
      ≡ send
          (create_event c)
          (record ctx { comms = insert a (record c { opened = true }) ctx.comms })
unfolding get_channel
get_channel-new a c ctx new = ground arith

pub send_on-new :
    (a : ℕ) (ev : DistComm → Message) (c : DistComm) (ctx : Ctx)
    → c.opened ≡ false
    → lookup a ctx.comms ≡ some c
    → send_on a ev ctx
      ≡ some (
          send (ev c) (
            send
              (create_event c)
              (record ctx { comms = insert a (record c { opened = true }) ctx.comms })))
unfolding send_on
send_on-new a ev c ctx new at = rw (at, get_channel-new a c ctx new) refl

-- A communicator that the router does not know is made known to it once, before its first event, by
-- its identity and the objects that it stands for, as one group; then each operation sends its own
-- event, in order, with the identity, the id, the attributes and the values of the call, and
-- nothing else of the context changes.
pub run_ops-sent :
    (a : ℕ) (c : DistComm) (op : Op) (ops : List Op) (ctx : Ctx)
    → c.opened ≡ false
    → lookup a ctx.comms ≡ some c
    → run_ops a (op ∷ ops) ctx
      ≡ some (record ctx {
        comms = insert a (record c { opened = true }) ctx.comms;
        sent = ctx.sent ++ introduction c ∷ map (event_for c) (op ∷ ops);
      })
unfolding run_ops send_on send create_event comm_event
run_ops-sent a c op ops ctx new at =
    rw (run_op-send_on a op ctx, at, get_channel-new a c ctx new)
      (run_ops-opened a (record c { opened = true }) ops
          (send (event_for c op) (
            send (create_event c)
              (record ctx { comms = insert a (record c { opened = true }) ctx.comms })))
          refl (lookup-insert a a (record c { opened = true }) ctx.comms ∙ rw (beq_self a) refl)
        ∙ rw
            (
              fun_ext (event_for-opened c),
              append_assoc (ctx.sent ++ create_event c ∷ []) (event_for c op ∷ [])
                  (map (event_for c) ops),
              append_assoc ctx.sent (create_event c ∷ []) (event_for c op ∷ map (event_for c) ops),
            )
            refl)

-- The identity of a communicator fits in 64 bits; the thread that made it and its number there, each
-- within 32 bits, can be read from it, and the next number is within 32 bits.
pub new_comm_id_bounds :
    (tid current : ℕ)
    → tid < 2 ^ 31
    → current < 2 ^ 32
    → ((new_comm_id tid current).0 < 2 ^ 64)
      × ((new_comm_id tid current).0 / 2 ^ 32 ≡ tid)
      × ((new_comm_id tid current).0 % 2 ^ 32 ≡ current)
      × ((new_comm_id tid current).1 < 2 ^ 32)
unfolding new_comm_id
new_comm_id_bounds tid current t c =
    let shift : tid * 2 ^ 32 % 2 ^ 64 ≡ tid * 2 ^ 32 = omega arith in
    let whole : bit_or (tid * 2 ^ 32 % 2 ^ 64) current ≡ tid * 2 ^ 32 + current =
      ap (λ (x : ℕ). bit_or x current) shift ∙ bit_or-fields 32 tid current c in
    (omega (arith, whole), omega (arith, whole), omega (arith, whole), omega arith)

-- What a communicator sends before its first event.
unfoldable pub greeting : DistComm → List Message
greeting c = if c.opened then [] else introduction c ∷ []

-- One event is sent, after the greeting, and the requests stay.
pub send_on-kept :
    (a : ℕ) (ev : DistComm → Message) (c : DistComm) (ctx : Ctx)
    → lookup a ctx.comms ≡ some c
    → (ctx' : Ctx) × (send_on a ev ctx ≡ some ctx')
      × (ctx'.requests ≡ ctx.requests)
      × (ctx'.comm_reqs ≡ ctx.comm_reqs)
      × (ctx'.sent ≡ ctx.sent ++ (greeting c ++ ev c ∷ []))
unfolding greeting send create_event comm_event
send_on-kept a ev c ctx at = elim (Bool-cases c.opened) [
  | inl known ↦
      (send (ev c) ctx, send_on-opened a ev c ctx known at, refl, refl, ground (arith, known))
  | inr new ↦ (
    send (ev c) (
        send (create_event c)
          (record ctx { comms = insert a (record c { opened = true }) ctx.comms })),
    send_on-new a ev c ctx new at,
    refl,
    refl,
    append_assoc ctx.sent (create_event c ∷ []) (ev c ∷ []) ∙ ground (arith, new),
  )
]
