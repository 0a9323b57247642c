-- ===== src/AcpClient/Normalize.antt =====
-- The repair of loaded and saved records in internal/acpclient/store.go.
pub mod Laws
use ratchet_cli.Base.{
  ℕ, String, Bool, true, false, Option, none, some, List, [], ◌∷◌, ◌++◌, map, ◌==◌, eqb, any,
  if◌then◌else◌,
}
use ratchet_cli.AcpClient.Types.{
  SessionStatus, QueueStatus, PendingStatus, PendingPrompt, QueuedPrompt, SessionRecord,
}
use ratchet_cli.AcpClient.Records.{Sessions}

-- `if t.IsZero() { t = default }`
abbrev pub or_time : ℕ → ℕ → ℕ
or_time t default = if eqb t 0 then default else t

abbrev pub or_completed : SessionStatus → SessionStatus
or_completed SessionStatus.unset = SessionStatus.completed
or_completed s = s

abbrev pub or_pending : QueueStatus → QueueStatus
or_pending QueueStatus.unset = QueueStatus.pending
or_pending s = s

-- the first loop of normalizePromptQueue
unfoldable pub normalize_prompt : ℕ → QueuedPrompt → QueuedPrompt
normalize_prompt created p = record p {
  status = or_pending p.status;
  created_at = or_time p.created_at created;
}

abbrev pub queue_status_of : PendingStatus → QueueStatus
queue_status_of PendingStatus.canceled = QueueStatus.canceled
queue_status_of _ = QueueStatus.pending

-- The encoding of an id as a file name, `storeKey`, is a parameter.
module _ (store_key : String → String) where
  abbrev pub pending_id : PendingPrompt → String
  pending_id p = if p.id == "" then store_key p.prompt else p.id

  unfoldable pub queued_of : PendingPrompt → QueuedPrompt
  queued_of p = record {
    id = pending_id p;
    prompt = p.prompt;
    status = queue_status_of p.status;
    created_at = p.created_at;
    started_at = none;
    completed_at = none;
    canceled_at = p.canceled_at;
    response = "";
    stop_reason = "";
    error = "";
  }

  -- the rest of normalizePromptQueue: a pending prompt that no queued prompt stands for is queued
  unfoldable pub append_pending : Option PendingPrompt → List QueuedPrompt → List QueuedPrompt
  append_pending none queue = queue
  append_pending (some p) queue =
      if any (λ q. q.id == pending_id p) queue then queue else queue ++ queued_of p ∷ []

  unfoldable pub normalize_prompt_queue : SessionRecord → SessionRecord
  unfolding normalize_prompt append_pending queued_of
  normalize_prompt_queue rec = record rec {
    prompt_queue =
        append_pending rec.pending_prompt (map (normalize_prompt rec.created_at) rec.prompt_queue);
  }

  -- the body of the loop of normalizeRecords
  unfoldable pub normalize_record : ℕ → SessionRecord → SessionRecord
  unfolding normalize_prompt_queue
  normalize_record now rec =
      let created = or_time rec.created_at now in
      normalize_prompt_queue (record rec {
        created_at = created;
        updated_at = or_time rec.updated_at created;
        status = or_completed rec.status;
      })

  unfoldable pub normalize_records : ℕ → Sessions → Sessions
  unfolding normalize_record
  normalize_records now = map (normalize_record now)
