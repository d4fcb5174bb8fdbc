-- ===== src/Events/Routed.antt =====
-- tools/pwrdaemon/router/routerEvent.h: an event wrapped for the way between two routers.
use mathlib.Core.List.{reverse, reverse-reverse}
use pwrapi.Prelude.{ℕ, Option, some, List, ◌>>=◌, ◌≡◌}
use pwrapi.Serial.{Buf, Codec}
use pwrapi.Serial.Vectors.{u32, u64, byte, vector_codec}
use pwrapi.Events.{Event, event_out, event_in}
use pwrapi.Events.RoundTrip.{FitsEvent, event_in-event_out}

pub record RouterEvent : Type 0 where
  pub event : Event
  pub open event use *
  pub src : ℕ
  pub dest : ℕ
  pub event_type : ℕ
  pub payload : Buf

abbrev pub bytes : Codec (List ℕ)
bytes = vector_codec byte

-- `payload.buf` is a vector, whose first byte is the last of the list.
pub router_out : RouterEvent → Buf → Buf
router_out ev b₀ =
    let b₁ = event_out ev.event b₀ in
    let b₂ = u64.push ev.dest b₁ in
    let b₃ = u64.push ev.src b₂ in
    let b₄ = u32.push ev.event_type b₃ in bytes.push (reverse ev.payload) b₄

pub router_in : Buf → Option (RouterEvent × Buf)
router_in b₀ = do
  (payload, b₁) ← bytes.pull b₀
  (event_type, b₂) ← u32.pull b₁
  (src, b₃) ← u64.pull b₂
  (dest, b₄) ← u64.pull b₃
  (event, b₅) ← event_in b₄
  some (
    record {
      event = event;
      src = src;
      dest = dest;
      event_type = event_type;
      payload = reverse payload;
    },
    b₅,
  )

pub record FitsRouter (ev : RouterEvent) : Type 0 where
  pub event : FitsEvent ev.event
  pub src : u64.Fits ev.src
  pub dest : u64.Fits ev.dest
  pub event_type : u32.Fits ev.event_type
  pub payload : bytes.Fits (reverse ev.payload)

-- A `RouterEvent` whose fields are within their types is read back from its bytes, payload included.
pub router_in-router_out :
    (ev : RouterEvent) (buf : Buf) → FitsRouter ev → router_in (router_out ev buf) ≡ some (ev, buf)
unfolding router_in router_out
router_in-router_out ev buf fits = rw (
  bytes.pull-push (reverse ev.payload) _ fits.payload,
  u32.pull-push ev.event_type _ fits.event_type,
  u64.pull-push ev.src _ fits.src,
  u64.pull-push ev.dest _ fits.dest,
  event_in-event_out ev.event buf fits.event,
  reverse-reverse ev.payload,
)
