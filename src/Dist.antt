-- ===== src/Dist.antt =====
-- src/pwr/distRequest.h, distComm.h and communicator.h: what a context keeps of its requests to other
-- nodes. Objects of the source are kept by their addresses, and an array of the caller is a list.
pub mod Request
pub mod Comm
pub mod Object
pub mod Group
pub mod Cntxt
use pwrapi.Prelude.{ℕ, Option, Bool, List}
use pwrapi.Objects.{Status}
use pwrapi.Events.{Text}
use pwrapi.Events.Message.{Message}

-- The subclasses of `DistCommReq`.
pub data Kind : Type 0 where
  dist_get dist_set dist_start_log dist_stop_log dist_get_samples : Kind

-- A `DistCommReq`: its class and `m_req`.
pub record DistCommReq : Type 0 where
  pub kind : Kind
  pub req : ℕ

-- `comm_reqs` is `m_commReqs`. `value` and `timeStamp` point to the same places of the caller's two
-- arrays, `rows`, or are NULL. `calls` counts the calls of the callback.
pub record DistRequest : Type 0 where
  pub comm_reqs : List ℕ
  pub rows : List (Option ℕ)
  pub values : List ℕ
  pub times : List ℕ
  pub status : Status
  pub has_callback : Bool
  pub calls : ℕ

-- A `DistComm`: `opened` is whether `m_ec` is set.
pub record DistComm : Type 0 where
  pub comm_id : ℕ
  pub objects : List Text
  pub opened : Bool

-- The live requests, communication requests and communicators, the next address, and what was sent
-- on the channel.
pub record Ctx : Type 0 where
  pub requests : List (ℕ × DistRequest)
  pub comm_reqs : List (ℕ × DistCommReq)
  pub comms : List (ℕ × DistComm)
  pub next : ℕ
  pub sent : List Message
