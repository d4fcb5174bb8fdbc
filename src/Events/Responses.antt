-- ===== src/Events/Responses.antt =====
-- src/pwr/events.h: the responses `CommRespEvent`, `CommLogRespEvent` and
-- `CommGetSamplesRespEvent`.
pub mod RoundTrip
use pwrapi.Prelude.{ℕ, Option, some, List, ◌>>=◌, ◌≡◌}
use pwrapi.Serial.{Buf, Codec}
use pwrapi.Serial.Vectors.{u32, u64, byte, string_codec, vector_codec}
use pwrapi.Events.{Text, u32s, u64s, CommEvent, comm_out, comm_in}

-- `std::vector< std::vector<uint64_t> >` and `std::vector<ObjID>`.
abbrev pub u64ss : Codec (List (List ℕ))
u64ss = vector_codec u64s

abbrev pub strings : Codec (List Text)
strings = vector_codec string_codec

pub record CommRespEvent : Type 0 where
  pub comm : CommEvent
  pub open comm use *
  pub time_stamp : List (List ℕ)
  pub value : List (List ℕ)
  pub grp_index : ℕ
  pub err_obj : List Text
  pub err_attr : List ℕ
  pub err_value : List ℕ

pub comm_resp_out : CommRespEvent → Buf → Buf
comm_resp_out ev b₀ =
    let b₁ = comm_out ev.comm b₀ in
    let b₂ = u64ss.push ev.time_stamp b₁ in
    let b₃ = u64ss.push ev.value b₂ in
    let b₄ = u64.push ev.grp_index b₃ in
    let b₅ = u32s.push ev.err_value b₄ in
    let b₆ = u32s.push ev.err_attr b₅ in strings.push ev.err_obj b₆

pub comm_resp_in : Buf → Option (CommRespEvent × Buf)
comm_resp_in b₀ = do
  (err_obj, b₁) ← strings.pull b₀
  (err_attr, b₂) ← u32s.pull b₁
  (err_value, b₃) ← u32s.pull b₂
  (grp_index, b₄) ← u64.pull b₃
  (value, b₅) ← u64ss.pull b₄
  (time_stamp, b₆) ← u64ss.pull b₅
  (comm, b₇) ← comm_in b₆
  some (
    record {
      comm = comm;
      time_stamp = time_stamp;
      value = value;
      grp_index = grp_index;
      err_obj = err_obj;
      err_attr = err_attr;
      err_value = err_value;
    },
    b₇,
  )

pub record CommLogRespEvent : Type 0 where
  pub comm : CommEvent
  pub open comm use *
  pub err_obj : List Text
  pub err_attr : List ℕ
  pub err_value : List ℕ

pub comm_log_resp_out : CommLogRespEvent → Buf → Buf
comm_log_resp_out ev b₀ =
    let b₁ = comm_out ev.comm b₀ in
    let b₂ = u32s.push ev.err_value b₁ in
    let b₃ = u32s.push ev.err_attr b₂ in strings.push ev.err_obj b₃

pub comm_log_resp_in : Buf → Option (CommLogRespEvent × Buf)
comm_log_resp_in b₀ = do
  (err_obj, b₁) ← strings.pull b₀
  (err_attr, b₂) ← u32s.pull b₁
  (err_value, b₃) ← u32s.pull b₂
  (comm, b₄) ← comm_in b₃
  some (record { comm = comm; err_obj = err_obj; err_attr = err_attr; err_value = err_value }, b₄)

pub record CommGetSamplesRespEvent : Type 0 where
  pub comm : CommEvent
  pub open comm use *
  pub start_time : ℕ
  pub count : ℕ
  pub samples : List ℕ
  pub err_obj : List Text
  pub err_attr : List ℕ
  pub err_value : List ℕ

pub comm_get_samples_resp_out : CommGetSamplesRespEvent → Buf → Buf
comm_get_samples_resp_out ev b₀ =
    let b₁ = comm_out ev.comm b₀ in
    let b₂ = strings.push ev.err_obj b₁ in
    let b₃ = u32s.push ev.err_attr b₂ in
    let b₄ = u32s.push ev.err_value b₃ in
    let b₅ = u64s.push ev.samples b₄ in let b₆ = u32.push ev.count b₅ in u64.push ev.start_time b₆

pub comm_get_samples_resp_in : Buf → Option (CommGetSamplesRespEvent × Buf)
comm_get_samples_resp_in b₀ = do
  (start_time, b₁) ← u64.pull b₀
  (count, b₂) ← u32.pull b₁
  (samples, b₃) ← u64s.pull b₂
  (err_value, b₄) ← u32s.pull b₃
  (err_attr, b₅) ← u32s.pull b₄
  (err_obj, b₆) ← strings.pull b₅
  (comm, b₇) ← comm_in b₆
  some (
    record {
      comm = comm;
      start_time = start_time;
      count = count;
      samples = samples;
      err_obj = err_obj;
      err_attr = err_attr;
      err_value = err_value;
    },
    b₇,
  )
