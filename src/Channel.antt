-- ===== src/Channel.antt =====
-- src/pwr/tcpEventChannel.cc: one event on a connected socket, as its type, the length of its bytes
-- and the bytes. The socket is the operating system's: a parameter.
pub mod Fifo
pub mod Config
pub mod Wait
use mathlib.Core.List.{reverse}
use pwrapi.Prelude.{
  ℕ, ◌≡◌, Option, none, some, Bool, true, false, List, [], ◌∷◌, ◌++◌, ◌==◌, if◌then◌else◌, length,
  ◌>>=◌, arith,
}
use pwrapi.Serial.{Buf, Codec}
use pwrapi.Serial.Vectors.{u32, u64}
use pwrapi.Events.{code}
use pwrapi.Events.Message.{Message, event_of, message_out}

-- A stream socket: what is written comes out in order, and a `read` for which there are bytes
-- enough is served whole, which the source asserts.
pub record Socket : Type 1 where
  pub Stream : Type 0
  pub contents : Stream → List ℕ
  pub write : List ℕ → Stream → Stream
  pub read : ℕ → Stream → List ℕ × Stream
  pub contents-write : (bs : List ℕ) (s : Stream) → contents (write bs s) ≡ contents s ++ bs
  pub read_whole :
      (n : ℕ) (s : Stream) (bs rest : List ℕ)
      → length bs ≡ n
      → contents s ≡ bs ++ rest
      → ((read n s).0 ≡ bs) × (contents (read n s).1 ≡ rest)

-- A word as it lies in memory, on a little-endian host.
pub memory : Codec ℕ → ℕ → List ℕ
memory c v = reverse (c.push v [])

pub of_memory : Codec ℕ → List ℕ → Option ℕ
of_memory c bs = do (v, rest) ← c.pull (reverse bs); some v

-- `nbytes = read( .. ); assert( nbytes == .. )`
exactly : ℕ → List ℕ → Option (List ℕ)
exactly n bs = if length bs == n then some bs else none

no_bytes : List ℕ → Bool
no_bytes [] = true
no_bytes (b ∷ bs) = false

module _ (os : Socket) where
  open os use {Stream, write, read}

  -- `TcpEventChannel::sendEvent`, once connected.
  pub send_event : Message → Stream → Stream
  send_event m s₀ =
      let buf : Buf = message_out m [] in
      let s₁ = write (memory u32 (event_of m).type) s₀ in
      let s₂ = write (memory u64 (length buf)) s₁ in write (reverse buf) s₂

  -- What follows the type.
  get_body : (ℕ → Buf → Option Message) → List ℕ → Stream → Option (Option Message × Stream)
  get_body alloc head s₀ = do
    type ← exactly 4 head >>= of_memory u32
    let (size, s₁) = read 8 s₀
    len ← exactly 8 size >>= of_memory u64
    let (bytes, s₂) = read len s₁
    body ← exactly len bytes
    ev ← alloc type (reverse body)
    some (some ev, s₂)

  -- `TcpEventChannel::getEvent`, with the channel's `m_allocFunc`. The inner `none` is the NULL for
  -- a connection that the other side has closed, the outer one a failed assertion.
  pub get_event : (ℕ → Buf → Option Message) → Stream → Option (Option Message × Stream)
  get_event alloc s₀ =
      let (head, s₁) = read 4 s₀ in
      if no_bytes head then some (none, s₁) else get_body alloc head s₁
