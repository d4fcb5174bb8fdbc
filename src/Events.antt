-- ===== src/Events.antt =====
-- src/pwr/event.h, events.h and tools/pwrdaemon/router/routerEvent.h: the events as records, and
-- their `serialize_out` and `serialize_in`. An integer field is its bit pattern; a text is a list of
-- bytes.
pub mod RoundTrip
pub mod Requests
pub mod Responses
pub mod Routed
pub mod Message
use pwrapi.Prelude.{ℕ, Option, some, List, ◌>>=◌}
use pwrapi.Serial.{Buf, Codec}
use pwrapi.Serial.Vectors.{u32, u64, byte, string_codec, vector_codec}
use mathlib.Core.List.{reverse}

abbrev pub Text : Type 0
Text = List ℕ

-- `std::vector` of the enums, of `int` and of the 64-bit types.
abbrev pub u32s : Codec (List ℕ)
u32s = vector_codec u32

abbrev pub u64s : Codec (List ℕ)
u64s = vector_codec u64

-- `enum EventType`, and the number of each.
pub data EventType : Type 0 where
  not_set comm_create comm_destroy comm_req comm_resp comm_log_req comm_log_resp : EventType
  comm_get_samples_req comm_get_samples_resp server_connect router2router : EventType

unfoldable pub code : EventType → ℕ
code not_set = 0
code comm_create = 1
code comm_destroy = 2
code comm_req = 3
code comm_resp = 4
code comm_log_req = 5
code comm_log_resp = 6
code comm_get_samples_req = 7
code comm_get_samples_resp = 8
code server_connect = 9
code router2router = 10

pub record Event : Type 0 where
  pub type : ℕ
  pub id : ℕ
  pub status : ℕ

unfoldable pub event_out : Event → Buf → Buf
event_out ev buf = u32.push ev.status (u32.push ev.type (u64.push ev.id buf))

pub event_in : Buf → Option (Event × Buf)
event_in b₀ = do
  (status, b₁) ← u32.pull b₀
  (type, b₂) ← u32.pull b₁
  (id, b₃) ← u64.pull b₂
  some (record { type = type; id = id; status = status }, b₃)

pub record ServerConnectEvent : Type 0 where
  pub event : Event
  pub name : Text

unfoldable pub server_connect_out : ServerConnectEvent → Buf → Buf
server_connect_out ev buf = string_codec.push ev.name (event_out ev.event buf)

pub server_connect_in : Buf → Option (ServerConnectEvent × Buf)
server_connect_in b₀ = do
  (name, b₁) ← string_codec.pull b₀
  (event, b₂) ← event_in b₁
  some (record { event = event; name = name }, b₂)

pub record CommEvent : Type 0 where
  pub event : Event
  pub open event use *
  pub comm_id : ℕ
  pub op : ℕ

pub comm_out : CommEvent → Buf → Buf
comm_out ev buf = u32.push ev.op (u64.push ev.comm_id (event_out ev.event buf))

pub comm_in : Buf → Option (CommEvent × Buf)
comm_in b₀ = do
  (op, b₁) ← u32.pull b₀
  (comm_id, b₂) ← u64.pull b₁
  (event, b₃) ← event_in b₂
  some (record { event = event; comm_id = comm_id; op = op }, b₃)

pub record CommCreateEvent : Type 0 where
  pub comm : CommEvent
  pub open comm use *
  pub members : List (List Text)

abbrev pub members_codec : Codec (List (List Text))
members_codec = vector_codec (vector_codec string_codec)

pub comm_create_out : CommCreateEvent → Buf → Buf
comm_create_out ev buf = members_codec.push ev.members (comm_out ev.comm buf)

pub comm_create_in : Buf → Option (CommCreateEvent × Buf)
comm_create_in b₀ = do
  (members, b₁) ← members_codec.pull b₀
  (comm, b₂) ← comm_in b₁
  some (record { comm = comm; members = members }, b₂)

pub record CommDestroyEvent : Type 0 where
  pub comm : CommEvent
  pub open comm use *

pub comm_destroy_out : CommDestroyEvent → Buf → Buf
comm_destroy_out ev buf = comm_out ev.comm buf

pub comm_destroy_in : Buf → Option (CommDestroyEvent × Buf)
comm_destroy_in b₀ = do (comm, b₁) ← comm_in b₀; some (record { comm = comm }, b₁)
