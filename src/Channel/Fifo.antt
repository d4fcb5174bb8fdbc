-- ===== src/Channel/Fifo.antt =====
-- What is sent is received, once each and in order.
use mathlib.Core.List.{reverse, reverse-reverse}
use pwrapi.Prelude.{
  ℕ, suc, zero, ◌*◌, ◌^◌, ◌<◌, ◌≡◌, refl, sym, ap, ◌∙◌, Option, some, true, false, List, [], ◌∷◌,
  ◌++◌, append_assoc, append-nil, map, length, All, length-reverse, ◌>>=◌, arith,
}
use pwrapi.Serial.{Codec}
use pwrapi.Serial.Vectors.{u32, u64, length-push_u32, length-push_u64}
use pwrapi.Events.{EventType, code}
use pwrapi.Events.Message.{Message, event_of, type_of, message_out}
use pwrapi.Events.Message.RoundTrip.{FitsMessage, Receiver, alloc, takes, alloc-message_out}
use pwrapi.Channel.{Socket, memory, of_memory, exactly, no_bytes, send_event, get_body, get_event}

of_memory-memory : (c : Codec ℕ) (v : ℕ) → c.Fits v → of_memory c (memory c v) ≡ some v
unfolding of_memory memory
of_memory-memory c v fits = rw (reverse-reverse (c.push v []), c.pull-push v [] fits)

length-memory-u32 : (v : ℕ) → length (memory u32 v) ≡ 4
unfolding memory
length-memory-u32 v = length-reverse (u32.push v []) ∙ length-push_u32 v []

length-memory-u64 : (v : ℕ) → length (memory u64 v) ≡ 8
unfolding memory
length-memory-u64 v = length-reverse (u64.push v []) ∙ length-push_u64 v []

exactly-length : (n : ℕ) (bs : List ℕ) → length bs ≡ n → exactly n bs ≡ some bs
unfolding exactly
exactly-length n bs e = ground arith

no_bytes_not : (bs : List ℕ) → length bs ≡ 4 → no_bytes bs ≡ false
unfolding no_bytes
no_bytes_not [] e = absurd (omega arith)
no_bytes_not (b ∷ bs) e = refl

code-fits : (m : Message) → u32.Fits (code (type_of m))
unfolding u32 code
code-fits m = below (type_of m)
  where
    below : (t : EventType) → code t < 2 ^ (8 * 4)
    below t = ground arith

-- The bytes of one event on the wire.
pub frame : Message → List ℕ
frame m =
    memory u32 (event_of m).type
    ++ (memory u64 (length (message_out m [])) ++ reverse (message_out m []))

-- The event's `type` is that of its class, as its constructor sets it.
abbrev pub IsTyped : Message → Type 0
IsTyped m = (event_of m).type ≡ code (type_of m)

typed_frame : Message → List ℕ
typed_frame m =
    memory u32 (code (type_of m))
    ++ (memory u64 (length (message_out m [])) ++ reverse (message_out m []))

frame-IsTyped : (m : Message) → IsTyped m → frame m ≡ typed_frame m
unfolding frame typed_frame
frame-IsTyped m typed = rw (typed) refl

-- An event that is sent adds its frame behind what is in the stream.
pub contents-send_event :
    (os : Socket) (m : Message) (s : os.Stream)
    → os.contents (send_event os m s) ≡ os.contents s ++ frame m
unfolding send_event frame
contents-send_event os m s = simp (os.contents-write, append_assoc)

u64-fits : (v : ℕ) → v < 2 ^ 64 → u64.Fits v
unfolding u64
u64-fits v h = h

module _ (os : Socket) (r : Receiver) where
  -- From a stream that starts with the frame of an event that the receiver takes, that event is read,
  -- and the rest of the stream is left.
  pub get_event-frame :
      (m : Message) (s : os.Stream) (rest : List ℕ)
      → IsTyped m
      → FitsMessage m
      → length (message_out m []) < 2 ^ 64
      → takes r (type_of m) ≡ true
      → os.contents s ≡ frame m ++ rest
      → (s' : os.Stream) × (get_event os (alloc r) s ≡ some (some m, s')) × (os.contents s' ≡ rest)
  unfolding get_event typed_frame
  get_event-frame m s rest typed fits short ok start =
      let e : os.contents s ≡ typed_frame m ++ rest =
        start ∙ ap (λ f. f ++ rest) (frame-IsTyped m typed) in
      let type : List ℕ = memory u32 (code (type_of m)) in
      let len : ℕ = length (message_out m []) in
      let body : List ℕ = reverse (message_out m []) in
      let s₁ = (os.read 4 s).1 in
      let s₂ = (os.read 8 s₁).1 in
      let s₃ = (os.read len s₂).1 in
      let r₁ =
        os.read_whole 4 s type (memory u64 len ++ (body ++ rest)) (length-memory-u32 _)
          (simp (e, append_assoc)) in
      let r₂ = os.read_whole 8 s₁ (memory u64 len) (body ++ rest) (length-memory-u64 _) r₁.1 in
      let r₃ = os.read_whole len s₂ body rest (length-reverse (message_out m [])) r₂.1 in
      let received : get_body os (alloc r) type s₁ ≡ some (some m, s₃) =
        unfold get_body in
        rw (
          exactly-length 4 type (length-memory-u32 _),
          of_memory-memory u32 _ (code-fits m),
          r₂.0,
          exactly-length 8 (memory u64 len) (length-memory-u64 _),
          of_memory-memory u64 len (u64-fits len short),
          r₃.0,
          exactly-length len body (length-reverse (message_out m [])),
          reverse-reverse (message_out m []),
          alloc-message_out r m [] fits,
          ok,
        ) in
      (s₃, rw (r₁.0, no_bytes_not type (length-memory-u32 _)) received, r₃.1)

-- Events sent one after another, and as many received.
pub send_all : (os : Socket) → List Message → os.Stream → os.Stream
send_all os [] s = s
send_all os (m ∷ ms) s = send_all os ms (send_event os m s)

pub receive_all :
    (os : Socket) → Receiver → ℕ → os.Stream → Option (List (Option Message) × os.Stream)
receive_all os r zero s = some ([], s)
receive_all os r (suc n) s = do
  (m, s₁) ← get_event os (alloc r) s
  (ms, s₂) ← receive_all os r n s₁
  some (m ∷ ms, s₂)

frames : List Message → List ℕ
frames [] = []
frames (m ∷ ms) = frame m ++ frames ms

-- An event that the receiver takes, and that is not too long for the channel.
abbrev pub CanReceive : Receiver → Message → Type 0
CanReceive r m =
    IsTyped m × FitsMessage m × (length (message_out m []) < 2 ^ 64) × (takes r (type_of m) ≡ true)

contents-send_all :
    (os : Socket) (ms : List Message) (s : os.Stream)
    → os.contents (send_all os ms s) ≡ os.contents s ++ frames ms
unfolding send_all frames
contents-send_all os [] s = sym (append-nil (os.contents s))
contents-send_all os (m ∷ ms) s =
    contents-send_all os ms (send_event os m s) ∙ simp (contents-send_event, append_assoc)

receive_all-frames :
    (os : Socket) (r : Receiver) (ms : List Message) (s : os.Stream) (rest : List ℕ)
    → All (CanReceive r) ms
    → os.contents s ≡ frames ms ++ rest
    → (s' : os.Stream) × (receive_all os r (length ms) s ≡ some (map some ms, s'))
      × (os.contents s' ≡ rest)
unfolding receive_all frames
receive_all-frames os r [] s rest h e = (s, refl, e)
receive_all-frames os r (m ∷ ms) s rest (h, hs) e =
    let (s₁, got, e₁) =
      get_event-frame os r m s (frames ms ++ rest) h.0 h.1 h.2 h.3 (simp (e, append_assoc)) in
    let (s₂, more, e₂) = receive_all-frames os r ms s₁ rest hs e₁ in (s₂, rw (got, more), e₂)

-- Events that the receiver takes are sent on a socket with nothing in it: as many are received, they
-- are those, in order, and nothing is left.
pub receive_all-send_all :
    (os : Socket) (r : Receiver) (ms : List Message) (s : os.Stream)
    → os.contents s ≡ []
    → All (CanReceive r) ms
    → (s' : os.Stream) × (receive_all os r (length ms) (send_all os ms s) ≡ some (map some ms, s'))
      × (os.contents s' ≡ [])
receive_all-send_all os r ms s empty h =
    receive_all-frames os r ms (send_all os ms s) [] h
      (contents-send_all os ms s ∙ simp (empty, append-nil))
