-- ===== src/Events/Requests/RoundTrip.antt =====
-- `serialize_in` after `serialize_out`, for each request.
use pwrapi.Prelude.{◌≡◌, some}
use pwrapi.Serial.{Buf}
use pwrapi.Serial.Vectors.{u32, u64}
use pwrapi.Events.{u32s, u64s}
use pwrapi.Events.RoundTrip.{FitsComm, comm_in-comm_out}
use pwrapi.Events.Requests.{
  CommReqEvent, comm_req_out, comm_req_in, CommLogReqEvent, comm_log_req_out, comm_log_req_in,
  CommGetSamplesReqEvent, comm_get_samples_req_out, comm_get_samples_req_in,
}

pub record FitsReq (ev : CommReqEvent) : Type 0 where
  pub comm : FitsComm ev.comm
  pub grp_index : u64.Fits ev.grp_index
  pub attr_name : u32s.Fits ev.attr_name
  pub set_values : u64s.Fits ev.set_values
  pub value_op : u32s.Fits ev.value_op

-- A `CommReqEvent` whose fields are within their types is read back from its bytes.
pub comm_req_in-comm_req_out :
    (ev : CommReqEvent) (buf : Buf)
    → FitsReq ev
    → comm_req_in (comm_req_out ev buf) ≡ some (ev, buf)
unfolding comm_req_in comm_req_out
comm_req_in-comm_req_out ev buf fits = rw (
  u64.pull-push ev.grp_index _ fits.grp_index,
  u32s.pull-push ev.value_op _ fits.value_op,
  u32s.pull-push ev.attr_name _ fits.attr_name,
  u64s.pull-push ev.set_values _ fits.set_values,
  comm_in-comm_out ev.comm buf fits.comm,
)

pub record FitsLogReq (ev : CommLogReqEvent) : Type 0 where
  pub comm : FitsComm ev.comm
  pub attr_name : u32.Fits ev.attr_name

pub comm_log_req_in-comm_log_req_out :
    (ev : CommLogReqEvent) (buf : Buf)
    → FitsLogReq ev
    → comm_log_req_in (comm_log_req_out ev buf) ≡ some (ev, buf)
unfolding comm_log_req_in comm_log_req_out
comm_log_req_in-comm_log_req_out ev buf fits =
    rw (u32.pull-push ev.attr_name _ fits.attr_name, comm_in-comm_out ev.comm buf fits.comm)

pub record FitsGetSamplesReq (ev : CommGetSamplesReqEvent) : Type 0 where
  pub comm : FitsComm ev.comm
  pub attr_name : u32.Fits ev.attr_name
  pub start_time : u64.Fits ev.start_time
  pub period : u64.Fits ev.period
  pub count : u32.Fits ev.count

pub comm_get_samples_req_in-comm_get_samples_req_out :
    (ev : CommGetSamplesReqEvent) (buf : Buf)
    → FitsGetSamplesReq ev
    → comm_get_samples_req_in (comm_get_samples_req_out ev buf) ≡ some (ev, buf)
unfolding comm_get_samples_req_in comm_get_samples_req_out
comm_get_samples_req_in-comm_get_samples_req_out ev buf fits = rw (
  u32.pull-push ev.attr_name _ fits.attr_name,
  u64.pull-push ev.start_time _ fits.start_time,
  u64.pull-push ev.period _ fits.period,
  u32.pull-push ev.count _ fits.count,
  comm_in-comm_out ev.comm buf fits.comm,
)
