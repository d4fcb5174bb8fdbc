-- ===== src/Events/RoundTrip.antt =====
-- Every event read by its `serialize_in` is the one that its `serialize_out` wrote.
use pwrapi.Prelude.{◌≡◌, some}
use pwrapi.Serial.{Buf}
use pwrapi.Serial.Vectors.{u32, u64, string_codec}
use pwrapi.Events.{
  Event, event_out, event_in, ServerConnectEvent, server_connect_out, server_connect_in, CommEvent,
  comm_out, comm_in, CommCreateEvent, members_codec, comm_create_out, comm_create_in,
  CommDestroyEvent, comm_destroy_out, comm_destroy_in,
}

pub record FitsEvent (ev : Event) : Type 0 where
  pub type : u32.Fits ev.type
  pub id : u64.Fits ev.id
  pub status : u32.Fits ev.status

pub event_in-event_out :
    (ev : Event) (buf : Buf) → FitsEvent ev → event_in (event_out ev buf) ≡ some (ev, buf)
unfolding event_in event_out
event_in-event_out ev buf fits = rw (
  u32.pull-push ev.status _ fits.status,
  u32.pull-push ev.type _ fits.type,
  u64.pull-push ev.id _ fits.id,
)

pub record FitsComm (ev : CommEvent) : Type 0 where
  pub event : FitsEvent ev.event
  pub comm_id : u64.Fits ev.comm_id
  pub op : u32.Fits ev.op

pub comm_in-comm_out :
    (ev : CommEvent) (buf : Buf) → FitsComm ev → comm_in (comm_out ev buf) ≡ some (ev, buf)
unfolding comm_in comm_out
comm_in-comm_out ev buf fits = rw (
  u32.pull-push ev.op _ fits.op,
  u64.pull-push ev.comm_id _ fits.comm_id,
  event_in-event_out ev.event buf fits.event,
)

pub record FitsCreate (ev : CommCreateEvent) : Type 0 where
  pub comm : FitsComm ev.comm
  pub members : members_codec.Fits ev.members

-- A `CommCreateEvent` whose fields are within their types is read back from its bytes.
pub comm_create_in-comm_create_out :
    (ev : CommCreateEvent) (buf : Buf)
    → FitsCreate ev
    → comm_create_in (comm_create_out ev buf) ≡ some (ev, buf)
unfolding comm_create_in comm_create_out
comm_create_in-comm_create_out ev buf fits =
    rw (members_codec.pull-push ev.members _ fits.members, comm_in-comm_out ev.comm buf fits.comm)

pub record FitsDestroy (ev : CommDestroyEvent) : Type 0 where
  pub comm : FitsComm ev.comm

pub comm_destroy_in-comm_destroy_out :
    (ev : CommDestroyEvent) (buf : Buf)
    → FitsDestroy ev
    → comm_destroy_in (comm_destroy_out ev buf) ≡ some (ev, buf)
unfolding comm_destroy_in comm_destroy_out
comm_destroy_in-comm_destroy_out ev buf fits = rw (comm_in-comm_out ev.comm buf fits.comm)

pub record FitsConnect (ev : ServerConnectEvent) : Type 0 where
  pub event : FitsEvent ev.event
  pub name : string_codec.Fits ev.name

pub server_connect_in-server_connect_out :
    (ev : ServerConnectEvent) (buf : Buf)
    → FitsConnect ev
    → server_connect_in (server_connect_out ev buf) ≡ some (ev, buf)
unfolding server_connect_in server_connect_out
server_connect_in-server_connect_out ev buf fits =
    rw (string_codec.pull-push ev.name _ fits.name, event_in-event_out ev.event buf fits.event)
