-- ===== src/Router/Send/Carried.antt =====
-- In what form an event goes on to a server or to another router.
use pwrapi.Prelude.{ℕ, ◌≡◌, refl, Option, none, some, Bool, true, false, [], ◌==◌, arith}
use pwrapi.Events.{router2router, code}
use pwrapi.Events.Message.{
  Message, create, destroy, req, resp, log_req, log_resp, samples_req, samples_resp, connect,
  routed, event_of, message_out,
}
use pwrapi.Router.Ids.{app_id, rtr_id, server_id, no_id}
use pwrapi.Router.Send.{State, wrap, put, send_found}

-- A `RouterEvent` with an event, from a router and no server of it.
abbrev pub parcel : ℕ → ℕ → Message → Message
parcel id dest m = routed (record {
  event = record { type = code router2router; id = 0; status = 0 };
  src = app_id id no_id;
  dest = dest;
  event_type = (event_of m).type;
  payload = message_out m [];
})

-- The event that goes on: one of a router as it is, another in a `RouterEvent`.
pub carried : ℕ → ℕ → Message → Message
carried id dest (routed ev) = routed ev
carried id dest m = parcel id dest m

-- What is left of it in the queue of a server that is not there: one of a router is deleted.
unfoldable pub kept : ℕ → ℕ → Message → Option Message
kept id dest (routed ev) = none
kept id dest m = some (parcel id dest m)

pub send_found-put :
    (fp_add : ℕ → ℕ → ℕ) (ec : Option ℕ) (dest : ℕ) (m : Message) (st : State)
    → (server_id dest == no_id) ≡ false
    → send_found fp_add ec dest m st
      ≡ some (put ec (server_id dest) (carried st.id dest m) (kept st.id dest m) st)
unfolding send_found carried kept wrap
send_found-put fp_add ec dest (create ev) st e = refl
send_found-put fp_add ec dest (destroy ev) st e = refl
send_found-put fp_add ec dest (req ev) st e = refl
send_found-put fp_add ec dest (resp ev) st e = refl
send_found-put fp_add ec dest (log_req ev) st e = refl
send_found-put fp_add ec dest (log_resp ev) st e = refl
send_found-put fp_add ec dest (samples_req ev) st e = refl
send_found-put fp_add ec dest (samples_resp ev) st e = refl
send_found-put fp_add ec dest (connect ev) st e = refl
send_found-put fp_add ec dest (routed ev) st e = ground (arith, e)

-- The same for an event that is for another router, whose server may be any.
pub send_found-away :
    (fp_add : ℕ → ℕ → ℕ) (ec : Option ℕ) (dest : ℕ) (m : Message) (st : State)
    → (rtr_id dest == st.id) ≡ false
    → send_found fp_add ec dest m st
      ≡ some (put ec (server_id dest) (carried st.id dest m) (kept st.id dest m) st)
unfolding send_found carried kept wrap
send_found-away fp_add ec dest (create ev) st e = refl
send_found-away fp_add ec dest (destroy ev) st e = refl
send_found-away fp_add ec dest (req ev) st e = refl
send_found-away fp_add ec dest (resp ev) st e = refl
send_found-away fp_add ec dest (log_req ev) st e = refl
send_found-away fp_add ec dest (log_resp ev) st e = refl
send_found-away fp_add ec dest (samples_req ev) st e = refl
send_found-away fp_add ec dest (samples_resp ev) st e = refl
send_found-away fp_add ec dest (connect ev) st e = refl
send_found-away fp_add ec dest (routed ev) st e = ground (arith, e)

-- The event is one that another router has brought.
unfoldable pub from_router : Message → Bool
from_router (routed ev) = true
from_router m = false

pub kept-carried :
    (id dest : ℕ) (m : Message) → from_router m ≡ false → kept id dest m ≡ some (carried id dest m)
unfolding from_router kept carried
kept-carried id dest (create ev) e = refl
kept-carried id dest (destroy ev) e = refl
kept-carried id dest (req ev) e = refl
kept-carried id dest (resp ev) e = refl
kept-carried id dest (log_req ev) e = refl
kept-carried id dest (log_resp ev) e = refl
kept-carried id dest (samples_req ev) e = refl
kept-carried id dest (samples_resp ev) e = refl
kept-carried id dest (connect ev) e = refl
kept-carried id dest (routed ev) e = absurd (ground (arith, e))
