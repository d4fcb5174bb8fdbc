-- ===== src/Events/Responses/RoundTrip.antt =====
-- `serialize_in` after `serialize_out`, for each response.
use pwrapi.Prelude.{◌≡◌, some}
use pwrapi.Serial.{Buf}
use pwrapi.Serial.Vectors.{u32, u64}
use pwrapi.Events.{u32s, u64s}
use pwrapi.Events.RoundTrip.{FitsComm, comm_in-comm_out}
use pwrapi.Events.Responses.{
  u64ss, strings, CommRespEvent, comm_resp_out, comm_resp_in, CommLogRespEvent, comm_log_resp_out,
  comm_log_resp_in, CommGetSamplesRespEvent, comm_get_samples_resp_out, comm_get_samples_resp_in,
}

pub record FitsResp (ev : CommRespEvent) : Type 0 where
  pub comm : FitsComm ev.comm
  pub time_stamp : u64ss.Fits ev.time_stamp
  pub value : u64ss.Fits ev.value
  pub grp_index : u64.Fits ev.grp_index
  pub err_obj : strings.Fits ev.err_obj
  pub err_attr : u32s.Fits ev.err_attr
  pub err_value : u32s.Fits ev.err_value

-- A `CommRespEvent` whose fields are within their types is read back from its bytes.
pub comm_resp_in-comm_resp_out :
    (ev : CommRespEvent) (buf : Buf)
    → FitsResp ev
    → comm_resp_in (comm_resp_out ev buf) ≡ some (ev, buf)
unfolding comm_resp_in comm_resp_out
comm_resp_in-comm_resp_out ev buf fits = rw (
  strings.pull-push ev.err_obj _ fits.err_obj,
  u32s.pull-push ev.err_attr _ fits.err_attr,
  u32s.pull-push ev.err_value _ fits.err_value,
  u64.pull-push ev.grp_index _ fits.grp_index,
  u64ss.pull-push ev.value _ fits.value,
  u64ss.pull-push ev.time_stamp _ fits.time_stamp,
  comm_in-comm_out ev.comm buf fits.comm,
)

pub record FitsLogResp (ev : CommLogRespEvent) : Type 0 where
  pub comm : FitsComm ev.comm
  pub err_obj : strings.Fits ev.err_obj
  pub err_attr : u32s.Fits ev.err_attr
  pub err_value : u32s.Fits ev.err_value

pub comm_log_resp_in-comm_log_resp_out :
    (ev : CommLogRespEvent) (buf : Buf)
    → FitsLogResp ev
    → comm_log_resp_in (comm_log_resp_out ev buf) ≡ some (ev, buf)
unfolding comm_log_resp_in comm_log_resp_out
comm_log_resp_in-comm_log_resp_out ev buf fits = rw (
  strings.pull-push ev.err_obj _ fits.err_obj,
  u32s.pull-push ev.err_attr _ fits.err_attr,
  u32s.pull-push ev.err_value _ fits.err_value,
  comm_in-comm_out ev.comm buf fits.comm,
)

pub record FitsGetSamplesResp (ev : CommGetSamplesRespEvent) : Type 0 where
  pub comm : FitsComm ev.comm
  pub start_time : u64.Fits ev.start_time
  pub count : u32.Fits ev.count
  pub samples : u64s.Fits ev.samples
  pub err_obj : strings.Fits ev.err_obj
  pub err_attr : u32s.Fits ev.err_attr
  pub err_value : u32s.Fits ev.err_value

-- A `CommGetSamplesRespEvent` whose fields are within their types is read back from its bytes.
pub comm_get_samples_resp_in-comm_get_samples_resp_out :
    (ev : CommGetSamplesRespEvent) (buf : Buf)
    → FitsGetSamplesResp ev
    → comm_get_samples_resp_in (comm_get_samples_resp_out ev buf) ≡ some (ev, buf)
unfolding comm_get_samples_resp_in comm_get_samples_resp_out
comm_get_samples_resp_in-comm_get_samples_resp_out ev buf fits = rw (
  u64.pull-push ev.start_time _ fits.start_time,
  u32.pull-push ev.count _ fits.count,
  u64s.pull-push ev.samples _ fits.samples,
  u32s.pull-push ev.err_value _ fits.err_value,
  u32s.pull-push ev.err_attr _ fits.err_attr,
  strings.pull-push ev.err_obj _ fits.err_obj,
  comm_in-comm_out ev.comm buf fits.comm,
)
