-- ===== src/Dist/Object/Answered.antt =====
-- A read that waits for its response, from the call to the values in the caller's arrays.
use pwrapi.Prelude.{
  ℕ, suc, ◌-◌, ◌^◌, ◌<◌, ◌≡◌, refl, sym, ap, ◌∙◌, some, true, false, List, [], ◌∷◌, ◌++◌, map,
  length, arith, ltb, if◌then◌else◌, All, append-nil, append_assoc,
}
use pwrapi.Prelude.Map.{nat_eq, lookup, lookup-insert_self}
use pwrapi.Prelude.Int.{ℤ, pos, negsuc}
use pwrapi.Objects.{
  success, ret_status, Status, AttrAccessError, is_empty, add_error, DeviceOps, Slot,
}
use pwrapi.Events.{Text}
use pwrapi.Events.Responses.{CommRespEvent}
use pwrapi.Events.Message.{Message, resp}
use pwrapi.Dist.{DistComm, DistRequest, Ctx}
use pwrapi.Dist.Request.{ret_ipc, new_request, note_errors, int_of}
use pwrapi.Dist.Request.One.{wait-get, get_value-rows, write_rows-whole, wait-closed}
use pwrapi.Dist.Comm.{get_event, comm_event}
use pwrapi.Dist.Object.{
  DistObject, put, names_of, values_of, stamps_of, open_request, close_request, filled,
}
use pwrapi.Dist.Object.Sync.{attr_get_values_sync}
use pwrapi.Dist.Comm.Sent.{greeting, get, event_for}
use pwrapi.Dist.Object.Remote.{Remote, cleared, get_values_req-asked}

length-values : (slots : List Slot) → length (values_of slots) ≡ length slots
length-values [] = refl
length-values (s ∷ slots) = ap suc (length-values slots)

length-stamps : (slots : List Slot) → length (stamps_of slots) ≡ length slots
length-stamps [] = refl
length-stamps (s ∷ slots) = ap suc (length-stamps slots)

length-cleared : (slots : List Slot) → length (cleared slots) ≡ length slots
length-cleared [] = refl
length-cleared (s ∷ slots) = ap suc (length-cleared slots)

filled-cleared :
    (slots : List Slot) (vs ts : List ℕ)
    → length vs ≡ length slots
    → length ts ≡ length slots
    → filled (cleared slots) vs ts ≡ filled slots vs ts
unfolding filled
filled-cleared [] vs ts v t = refl
filled-cleared (s ∷ slots) [] ts v t = absurd (omega arith)
filled-cleared (s ∷ slots) (x ∷ vs) [] v t = absurd (omega arith)
filled-cleared (s ∷ slots) (x ∷ vs) (y ∷ ts) v t =
    ap (λ (rest : List Slot). record s { value = x; stamp = y } ∷ rest)
      (filled-cleared slots vs ts (omega arith) (omega arith))

-- An error of the other node: the object, the attribute and the code.
pub record Reported : Type 0 where
  pub object : Text
  pub attr : ℕ
  pub error : ℤ

-- The bit pattern of an `int`, and its range.
abbrev pub word_of : ℤ → ℕ
word_of (pos n) = n
word_of (negsuc n) = 2 ^ 32 - 1 - n

abbrev pub IsInt : ℤ → Type 0
IsInt (pos n) = n < 2 ^ 31
IsInt (negsuc n) = n < 2 ^ 31

abbrev pub entry : (Text → ℕ) → Reported → AttrAccessError
entry get_obj e = record { obj = get_obj e.object; name = e.attr; error = e.error }

int_of-word_of : (z : ℤ) → IsInt z → int_of (word_of z) ≡ z
unfolding int_of
int_of-word_of (pos n) small =
    let low : ltb n (2 ^ 31) ≡ true = ground (arith, small) in rw (low) refl
int_of-word_of (negsuc n) small =
    let high : ltb (2 ^ 32 - 1 - n) (2 ^ 31) ≡ false = ground (arith, small) in
    rw (high) (ap negsuc (omega (arith, small)))

-- The errors of a response go to the end of the status, in order.
note_errors-entries :
    (get_obj : Text → ℕ) (es : List Reported) (st : Status)
    → All (λ e. IsInt e.error) es
    → note_errors get_obj
        (map (λ (e : Reported). e.object) es)
        (map (λ (e : Reported). e.attr) es)
        (map (λ (e : Reported). word_of e.error) es)
        st
      ≡ some (st ++ map (entry get_obj) es)
unfolding note_errors add_error
note_errors-entries get_obj [] st ints = ap some (sym (append-nil st))
note_errors-entries get_obj (e ∷ es) st (int, ints) = rw (int_of-word_of e.error int) (
    note_errors-entries get_obj es (st ++ entry get_obj e ∷ []) ints
    ∙ ap some (append_assoc st (entry get_obj e ∷ []) (map (entry get_obj) es)))

filled-own : (slots : List Slot) → filled slots (values_of slots) (stamps_of slots) ≡ slots
unfolding filled
filled-own [] = refl
filled-own (s ∷ slots) = ap (λ (rest : List Slot). s ∷ rest) (filled-own slots)

module _ {World Dev : Type 0} (ops : DeviceOps World Dev) (get_obj : Text → ℕ) (unset : ℕ) where
  -- A read of attributes that are on another node asks the node, over a channel that knows the
  -- communicator, and when the response to it comes next, with one value and one time for each
  -- attribute, it leaves these in the caller's arrays, and the errors of the response, each with its
  -- object, its attribute and its code, at the end of the status, in order; it returns success if the
  -- status is then empty and PWR_RET_STATUS if not. The devices of this node are not asked.
  pub attr_get_values_sync-answered :
      (o : DistObject Dev) (c : ℕ) (comm : DistComm) (s : Slot) (slots : List Slot) (st : Status)
      (ev : CommRespEvent) (es : List Reported) (vs ts : List ℕ) (ms : List Message) (ctx : Ctx)
      (w : World)
      → Remote o c (s ∷ slots)
      → lookup c ctx.comms ≡ some comm
      → ev.comm.event.id ≡ suc ctx.next
      → ev.value ≡ vs ∷ []
      → ev.time_stamp ≡ ts ∷ []
      → length vs ≡ length (s ∷ slots)
      → length ts ≡ length (s ∷ slots)
      → ev.err_obj ≡ map (λ (e : Reported). e.object) es
      → ev.err_attr ≡ map (λ (e : Reported). e.attr) es
      → ev.err_value ≡ map (λ (e : Reported). word_of e.error) es
      → All (λ e. IsInt e.error) es
      → (ctx' : Ctx) × (attr_get_values_sync ops get_obj unset o (s ∷ slots) st (resp ev ∷ ms) ctx w
          ≡ some (
            (
              if is_empty (st ++ map (entry get_obj) es) then success else ret_status,
              filled (s ∷ slots) vs ts,
              st ++ map (entry get_obj) es,
            ),
            ms,
            ctx',
            w,
          ))
        × (ctx'.sent
            ≡ ctx.sent
              ++ (greeting comm
                  ++ event_for comm (
                      get
                        (names_of (s ∷ slots))
                        (map o.value_op (names_of (s ∷ slots)))
                        (suc ctx.next))
                    ∷ []))
  unfolding attr_get_values_sync new_request get_event comm_event event_for
  attr_get_values_sync-answered o c comm s slots st ev es vs ts ms ctx w remote known id value stamp
        lv lt objs attrs codes ints =
      let st' : Status = st ++ map (entry get_obj) es in
      let errors : note_errors get_obj ev.err_obj ev.err_attr ev.err_value st ≡ some st' =
        rw (objs, attrs, codes) (note_errors-entries get_obj es st ints) in
      let a : ℕ = ctx.next in
      let ctx₀ : Ctx = (open_request st ctx).1 in
      let (ctx₁, asked, live, part, sent) =
        get_values_req-asked ops unset o c comm s slots st a (new_request st false) ctx₀ w remote
          (lookup-insert_self a (new_request st false) ctx.requests) known in
      let r₁ : DistRequest = record (new_request st false) {
        comm_reqs = suc ctx.next ∷ [];
        rows = some 0 ∷ [];
        values = values_of (cleared (s ∷ slots));
        times = stamps_of (cleared (s ∷ slots));
      } in
      let (ctx₂, waited, at₂, sent₂) =
        wait-get get_obj a (suc ctx.next) ev ms (put a r₁ ctx₁) r₁ _
          (lookup-insert_self a r₁ ctx₁.requests) refl part id
          (get_value-rows get_obj (suc ctx.next) ev r₁ vs ts st' refl
            (write_rows-whole get_obj r₁ ev.value ev.time_stamp vs ts refl value stamp
              (length-values (cleared (s ∷ slots)) ∙ length-cleared (s ∷ slots) ∙ sym lv)
              (length-stamps (cleared (s ∷ slots)) ∙ length-cleared (s ∷ slots) ∙ sym lv)
              (lt ∙ sym lv))
            errors)
          refl in
      (
        close_request a ctx₂,
        rw (asked, live, waited, at₂) (rw (filled-cleared (s ∷ slots) vs ts lv lt) refl),
        sent₂ ∙ sent,
      )

  -- If the channel is closed before the response, the read returns PWR_RET_IPC; the caller's values
  -- and times are 0, and the status is as it was.
  pub attr_get_values_sync-closed :
      (o : DistObject Dev) (c : ℕ) (comm : DistComm) (s : Slot) (slots : List Slot) (st : Status)
      (ctx : Ctx) (w : World)
      → Remote o c (s ∷ slots)
      → lookup c ctx.comms ≡ some comm
      → (ctx' : Ctx) × (attr_get_values_sync ops get_obj unset o (s ∷ slots) st [] ctx w
          ≡ some ((ret_ipc, cleared (s ∷ slots), st), [], ctx', w))
  unfolding attr_get_values_sync new_request
  attr_get_values_sync-closed o c comm s slots st ctx w remote known =
      let a : ℕ = ctx.next in
      let (ctx₁, asked, live, part, sent) =
        get_values_req-asked ops unset o c comm s slots st a (new_request st false)
          (open_request st ctx).1 w remote
          (lookup-insert_self a (new_request st false) ctx.requests) known in
      let r₁ : DistRequest = record (new_request st false) {
        comm_reqs = suc ctx.next ∷ [];
        rows = some 0 ∷ [];
        values = values_of (cleared (s ∷ slots));
        times = stamps_of (cleared (s ∷ slots));
      } in
      let at₁ = lookup-insert_self a r₁ ctx₁.requests in
      (
        close_request a (put a r₁ ctx₁),
        rw (asked, live, wait-closed get_obj a (suc ctx.next) (put a r₁ ctx₁) r₁ at₁ refl, at₁)
            (rw (filled-own (cleared (s ∷ slots))) refl),
      )
