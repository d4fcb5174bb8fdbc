-- ===== src/Server/Local.antt =====
-- A read that a server answers from the devices of its own node.
use pwrapi.Prelude.{
  ℕ, ◌≡◌, refl, ap, ◌∙◌, Option, some, true, false, List, [], ◌∷◌, ◌++◌, ◌==◌, ==_iff, subst,
}
use pwrapi.Prelude.Int.{ℤ, eq_ℤ}
use pwrapi.Prelude.Map.{nat_eq, lookup, erase, lookup-insert_self}
use pwrapi.Objects.{success, Status, DeviceOps, Slot, attr_get_values}
use pwrapi.Events.{Text, comm_resp, router2router, code}
use pwrapi.Events.Responses.{CommRespEvent}
use pwrapi.Events.Requests.{CommReqEvent}
use pwrapi.Events.Routed.{RouterEvent}
use pwrapi.Events.Message.{Message, resp, routed, event_of, message_out}
use pwrapi.Dist.{DistRequest, Ctx}
use pwrapi.Dist.Request.{new_request, exec_callback}
use pwrapi.Dist.Comm.{get_op}
use pwrapi.Dist.Object.{DistObject, as_object, put, values_of, stamps_of, attr_get_values_nb}
use pwrapi.Server.{
  Server, Fini, Answer, resp_to, log_to, samples_to, route_back, answer_of, fini, settle,
  open_callback, get_slots_of, first_object, process_get, with_fini, process_req,
}
use pwrapi.Server.Reads.{
  Nonzero, Local, attr_get_values-Nonzero, read_into, after_read, code_after,
  attr_get_values_nb-Local,
}

-- The response with the values and times of some slots and no errors.
abbrev pub clean_response : CommReqEvent → List Slot → CommRespEvent
clean_response ev slots = record {
  comm = record {
    event = record { type = code comm_resp; id = ev.id; status = 0 };
    comm_id = 0;
    op = ev.op;
  };
  time_stamp = stamps_of slots ∷ [];
  value = values_of slots ∷ [];
  grp_index = ev.grp_index;
  err_obj = [];
  err_attr = [];
  err_value = [];
}

-- The router's event with a response, on a channel, from where another was sent to and to where it
-- came from.
abbrev pub reply : RouterEvent → ℕ → Message → ℕ × Message
reply re chan m = (
  chan,
  routed (record {
    event = record { type = code router2router; id = 0; status = 0 };
    src = re.dest;
    dest = re.src;
    event_type = (event_of m).type;
    payload = message_out m [];
  }),
)

module _ {World Dev : Type 0} (ops : DeviceOps World Dev) (obj_name : ℕ → Text) (get_obj : Text → ℕ)
    (find_obj : Text → Option (DistObject Dev)) (unset : ℕ) where
  fini-known :
      (a : ℕ) (f : Fini) (r : DistRequest) (srv : Server Dev) (ctx : Ctx)
      → lookup a srv.fini_map ≡ some f
      → fini obj_name a r srv ctx
        ≡ some (
          record srv {
            sent = srv.sent ++ (f.chan, route_back f (answer_of obj_name f.answer r)) ∷ [];
            fini_map = erase a srv.fini_map;
          },
          record ctx { requests = erase a ctx.requests },
        )
  unfolding fini
  fini-known a f r srv ctx at = rw (at) refl

  settle-called :
      (ret : ℤ) (a : ℕ) (r : DistRequest) (srv : Server Dev) (ctx : Ctx)
      → lookup a ctx.requests ≡ some r
      → (r.calls == 0) ≡ false
      → settle obj_name ret a srv ctx ≡ fini obj_name a r srv ctx
  unfolding settle
  settle-called ret a r srv ctx live called = rw (live, called) refl

  settle-failed :
      (ret : ℤ) (a : ℕ) (r : DistRequest) (srv : Server Dev) (ctx : Ctx)
      → lookup a ctx.requests ≡ some r
      → (r.calls == 0) ≡ true
      → eq_ℤ ret success ≡ false
      → settle obj_name ret a srv ctx ≡ fini obj_name a r srv ctx
  unfolding settle
  settle-failed ret a r srv ctx live quiet bad = rw (live, quiet, bad) refl

  -- An answer does not look at the calls.
  answer_of-calls :
      (ans : Answer) (r : DistRequest)
      → answer_of obj_name ans (record r { calls = 1 }) ≡ answer_of obj_name ans r
  unfolding answer_of
  answer_of-calls (resp_to op id grp) r = refl
  answer_of-calls (log_to op id) r = refl
  answer_of-calls (samples_to id count) r = refl

  settle-after_read :
      (a : ℕ) (f : Fini) (slots : List Slot) (st : Status) (srv : Server Dev) (ctx : Ctx)
      → Nonzero st
      → lookup a srv.fini_map ≡ some f
      → (srv' : Server Dev) × (ctx' : Ctx) × (settle obj_name
            (code_after ops st)
            a
            srv
            (after_read ops st a (read_into ops (new_request [] true) slots) ctx)
          ≡ some (srv', ctx'))
        × (srv'.sent
            ≡ srv.sent
              ++ (
                f.chan,
                route_back f
                    (answer_of obj_name f.answer (read_into ops (new_request [] true) slots)),
              )
                ∷ [])
  unfolding new_request exec_callback
  settle-after_read a f slots [] srv ctx ok at =
      let r : DistRequest = read_into ops (new_request [] true) slots in
      let r₁ : DistRequest = record r { calls = 1 } in
      (
        _,
        _,
        settle-called success a r₁ srv (put a r₁ (put a r ctx)) (lookup-insert_self a r₁ _) refl
            ∙ fini-known a f r₁ srv (put a r₁ (put a r ctx)) at,
        ap (λ (m : Message). srv.sent ++ (f.chan, route_back f m) ∷ [])
            (answer_of-calls f.answer r),
      )
  settle-after_read a f slots (e ∷ es) srv ctx (bad, ok) at =
      let r : DistRequest = read_into ops (new_request [] true) slots in
      (
        _,
        _,
        settle-failed e.error a r srv (put a r ctx) (lookup-insert_self a r _) refl bad
            ∙ fini-known a f r srv (put a r ctx) at,
        refl,
      )

  answer_of-clean :
      (ev : CommReqEvent) (slots : List Slot)
      → ev.op ≡ get_op
      → answer_of obj_name
          (resp_to ev.op ev.id ev.grp_index)
          (read_into ops (new_request [] true) slots)
        ≡ resp (clean_response ev slots)
  unfolding answer_of new_request
  answer_of-clean ev slots is_get = rw ((==_iff ev.op get_op).1 is_get) refl

  -- A read of attributes of this node is answered at once by one event, back to where the request
  -- came from on the channel it came on, with the values and times that the read has left and with
  -- no errors, also when the read has failed: its errors are in no response.
  pub process_req-Local :
      (o : DistObject Dev) (os : List (Option (DistObject Dev))) (n : ℕ) (names : List ℕ)
      (re : RouterEvent) (chan : ℕ) (ev : CommReqEvent) (srv : Server Dev) (ctx : Ctx)
      (w w' : World) (ret : ℤ) (slots : List Slot) (st : Status)
      → lookup ev.comm_id srv.comm_map ≡ some (some o ∷ os)
      → ev.op ≡ get_op
      → ev.attr_name ≡ n ∷ names
      → Local o (n ∷ names)
      → attr_get_values ops (as_object o) (get_slots_of (n ∷ names)) [] w ≡ ((ret, slots, st), w')
      → (srv' : Server Dev) × (ctx' : Ctx) × (process_req ops obj_name get_obj find_obj unset re
            chan ev srv ctx w
          ≡ some (srv', ctx', w'))
        × (srv'.sent ≡ srv.sent ++ reply re chan (resp (clean_response ev slots)) ∷ [])
  unfolding process_req process_get first_object new_request route_back
  process_req-Local o os n names re chan ev srv ctx w w' ret slots st known is_get attrs near read =
      let a : ℕ = ctx.next in
      let f : Fini = record {
        src = re.src;
        dest = re.dest;
        chan = chan;
        answer = resp_to ev.op ev.id ev.grp_index;
      } in
      let srv₁ : Server Dev =
        with_fini ops obj_name get_obj find_obj unset a re chan f.answer srv in
      let get : (ev.op == get_op) ≡ true = (==_iff ev.op get_op).1 is_get in
      let object : first_object (lookup ev.comm_id srv.comm_map) ≡ some o = ap first_object known in
      let ok : Nonzero st =
        subst Nonzero (ap (λ x. x.0.2) read)
          (attr_get_values-Nonzero ops (as_object o) (get_slots_of (n ∷ names)) w) in
      let done =
        attr_get_values_nb-Local ops unset o n names a (new_request [] true) (open_callback ctx).1 w
          w' ret slots st near (lookup-insert_self a (new_request [] true) ctx.requests) refl
          read in
      let (srv', ctx', settled, sent) =
        settle-after_read a f slots st srv₁ (open_callback ctx).1 ok
          (lookup-insert_self a f srv.fini_map) in
      let done' : attr_get_values_nb ops unset o (get_slots_of ev.attr_name) a (open_callback ctx).1
            w
          ≡ some (
            (code_after ops st, slots),
            after_read ops st a (read_into ops (new_request [] true) slots) (open_callback ctx).1,
            w',
          ) =
        ap
          (λ (ns : List ℕ).
            attr_get_values_nb ops unset o (get_slots_of ns) a (open_callback ctx).1 w)
          attrs
        ∙ done in
      (
        srv',
        ctx',
        rw (object, get, done', settled) refl,
        sent
            ∙ ap (λ (m : Message). srv.sent ++ (chan, route_back f m) ∷ [])
                (answer_of-clean ev slots is_get),
      )
