-- ===== src/AcpClient/Types.antt =====
-- The records of internal/acpclient/spec.go. A time is a number, and 0 is Go's zero time.
use ratchet_cli.Base.{ℕ, String, Option, List, Bool, true, false}

-- Go's string constants. `unset` is "", `other` any string that is none of them.
pub data SessionStatus : Type 0 where
  unset queued running completed canceled cancel_requested : SessionStatus
  other : String → SessionStatus

pub data QueueStatus : Type 0 where
  unset pending running completed canceled failed : QueueStatus
  other : String → QueueStatus

pub data PendingStatus : Type 0 where
  pending canceled : PendingStatus
  other : String → PendingStatus

pub record TurnSummary : Type 0 where
  pub prompt : String
  pub response : String
  pub stop_reason : String
  pub created_at : ℕ

pub record PendingPrompt : Type 0 where
  pub id : String
  pub prompt : String
  pub status : PendingStatus
  pub created_at : ℕ
  pub canceled_at : Option ℕ

pub record QueuedPrompt : Type 0 where
  pub id : String
  pub prompt : String
  pub status : QueueStatus
  pub created_at : ℕ
  pub started_at : Option ℕ
  pub completed_at : Option ℕ
  pub canceled_at : Option ℕ
  pub response : String
  pub stop_reason : String
  pub error : String

pub record SessionRecord : Type 0 where
  pub id : String
  pub acp_session_id : String
  pub agent : String
  pub command_fingerprint : String
  pub cwd : String
  pub status : SessionStatus
  pub created_at : ℕ
  pub updated_at : ℕ
  pub last_stop_reason : String
  pub summary : String
  pub turns : List TurnSummary
  pub pending_prompt : Option PendingPrompt
  pub prompt_queue : List QueuedPrompt

-- Comparisons of a status with one constant.
abbrev pub is_canceled : SessionStatus → Bool
is_canceled SessionStatus.canceled = true
is_canceled _ = false

abbrev pub is_pending : QueueStatus → Bool
is_pending QueueStatus.pending = true
is_pending _ = false

abbrev pub is_running : QueueStatus → Bool
is_running QueueStatus.running = true
is_running _ = false

-- cancellationLatched
abbrev pub cancellation_latched : SessionStatus → Bool
cancellation_latched SessionStatus.cancel_requested = true
cancellation_latched SessionStatus.canceled = true
cancellation_latched _ = false
