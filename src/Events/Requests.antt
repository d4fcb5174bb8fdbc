-- ===== src/Events/Requests.antt =====
-- src/pwr/events.h: the requests `CommReqEvent`, `CommLogReqEvent` and `CommGetSamplesReqEvent`.
pub mod RoundTrip
use pwrapi.Prelude.{ℕ, Option, some, List, ◌>>=◌, ◌≡◌}
use pwrapi.Serial.{Buf}
use pwrapi.Serial.Vectors.{u32, u64, byte, string_codec, vector_codec}
use pwrapi.Events.{Text, u32s, u64s, CommEvent, comm_out, comm_in}

pub record CommReqEvent : Type 0 where
  pub comm : CommEvent
  pub open comm use *
  pub grp_index : ℕ
  pub attr_name : List ℕ
  pub set_values : List ℕ
  pub value_op : List ℕ

pub comm_req_out : CommReqEvent → Buf → Buf
comm_req_out ev b₀ =
    let b₁ = comm_out ev.comm b₀ in
    let b₂ = u64s.push ev.set_values b₁ in
    let b₃ = u32s.push ev.attr_name b₂ in
    let b₄ = u32s.push ev.value_op b₃ in u64.push ev.grp_index b₄

pub comm_req_in : Buf → Option (CommReqEvent × Buf)
comm_req_in b₀ = do
  (grp_index, b₁) ← u64.pull b₀
  (value_op, b₂) ← u32s.pull b₁
  (attr_name, b₃) ← u32s.pull b₂
  (set_values, b₄) ← u64s.pull b₃
  (comm, b₅) ← comm_in b₄
  some (
    record {
      comm = comm;
      grp_index = grp_index;
      attr_name = attr_name;
      set_values = set_values;
      value_op = value_op;
    },
    b₅,
  )

pub record CommLogReqEvent : Type 0 where
  pub comm : CommEvent
  pub open comm use *
  pub attr_name : ℕ

pub comm_log_req_out : CommLogReqEvent → Buf → Buf
comm_log_req_out ev buf = u32.push ev.attr_name (comm_out ev.comm buf)

pub comm_log_req_in : Buf → Option (CommLogReqEvent × Buf)
comm_log_req_in b₀ = do
  (attr_name, b₁) ← u32.pull b₀
  (comm, b₂) ← comm_in b₁
  some (record { comm = comm; attr_name = attr_name }, b₂)

pub record CommGetSamplesReqEvent : Type 0 where
  pub comm : CommEvent
  pub open comm use *
  pub attr_name : ℕ
  pub start_time : ℕ
  pub period : ℕ
  pub count : ℕ

pub comm_get_samples_req_out : CommGetSamplesReqEvent → Buf → Buf
comm_get_samples_req_out ev b₀ =
    let b₁ = comm_out ev.comm b₀ in
    let b₂ = u32.push ev.count b₁ in
    let b₃ = u64.push ev.period b₂ in let b₄ = u64.push ev.start_time b₃ in u32.push ev.attr_name b₄

pub comm_get_samples_req_in : Buf → Option (CommGetSamplesReqEvent × Buf)
comm_get_samples_req_in b₀ = do
  (attr_name, b₁) ← u32.pull b₀
  (start_time, b₂) ← u64.pull b₁
  (period, b₃) ← u64.pull b₂
  (count, b₄) ← u32.pull b₃
  (comm, b₅) ← comm_in b₄
  some (
    record {
      comm = comm;
      attr_name = attr_name;
      start_time = start_time;
      period = period;
      count = count;
    },
    b₅,
  )
