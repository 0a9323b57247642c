-- ===== src/AcpClient/Mutate/Session.antt =====
-- Transition functions on whole records: insert, upsert, life cycle, cancellation.
use ratchet_cli.Base.{
  ℕ, String, Bool, Option, none, some, List, [], ◌∷◌, ◌++◌, not, ◌&&◌, ◌==◌, eqb, if◌then◌else◌,
}
use ratchet_cli.AcpClient.Types.{
  SessionStatus, TurnSummary, QueuedPrompt, SessionRecord, cancellation_latched, is_canceled,
}
use ratchet_cli.AcpClient.Records.{Sessions, find_session, put_session}
use ratchet_cli.AcpClient.Normalize.{or_time}
use ratchet_cli.AcpClient.Mutate.{
  StoreError, Mutation, changed, unchanged, refused, with_session, preserve_latch,
}

-- `if rec.CreatedAt.IsZero() { … }; if rec.UpdatedAt.IsZero() { … }`
unfoldable pub stamp : ℕ → SessionRecord → SessionRecord
stamp now rec =
    let created = or_time rec.created_at now in
    record rec { created_at = created; updated_at = or_time rec.updated_at created }

-- insertSessionRecord
unfoldable pub insert_session_record : ℕ → SessionRecord → Sessions → Mutation
unfolding stamp
insert_session_record now rec ss = elim (find_session ss rec.id) [
  | some _ ↦ refused StoreError.archive_collision
  | none ↦ changed (ss ++ stamp now rec ∷ [])
]

-- Upsert
unfoldable pub upsert : ℕ → SessionRecord → Sessions → Mutation
unfolding stamp preserve_latch
upsert now rec ss =
    let new = stamp now rec in
    elim (find_session ss rec.id) [
      | none ↦ changed (ss ++ new ∷ [])
      | some existing ↦
          let kept = record new {
            created_at = if eqb rec.created_at 0 then existing.created_at else new.created_at;
          } in
          changed (put_session rec.id (preserve_latch existing.status kept) ss)
    ]

abbrev pub add_turn : Option TurnSummary → List TurnSummary → List TurnSummary
add_turn none turns = turns
add_turn (some turn) turns = turns ++ turn ∷ []

-- the record that replaces `existing` in updateSessionLifecycleRecord
unfoldable pub lifecycle_record :
    ℕ → SessionRecord → Option TurnSummary → SessionRecord → SessionRecord
unfolding preserve_latch
lifecycle_record now rec turn existing = preserve_latch existing.status (record rec {
  acp_session_id = if rec.acp_session_id == "" then existing.acp_session_id else rec.acp_session_id;
  created_at = existing.created_at;
  updated_at = or_time rec.updated_at now;
  turns = add_turn turn existing.turns;
  pending_prompt = existing.pending_prompt;
  prompt_queue = existing.prompt_queue;
})

-- updateSessionLifecycleRecord
unfoldable pub update_session_lifecycle_record :
    ℕ → SessionRecord → Option TurnSummary → Bool → Sessions → Mutation
unfolding stamp lifecycle_record
update_session_lifecycle_record now rec turn terminal ss = elim (find_session ss rec.id) [
  | none ↦
      let new = stamp now rec in changed (ss ++ record new { turns = add_turn turn rec.turns } ∷ [])
  | some existing ↦
      if cancellation_latched existing.status && not terminal
      then refused StoreError.cancel_requested
      else changed (put_session rec.id (lifecycle_record now rec turn existing) ss)
]

abbrev pub or_text : String → String → String
or_text s default = if s == "" then default else s

-- mergeSessionMetadata
unfoldable pub merge_session_metadata : SessionRecord → SessionRecord → SessionRecord
merge_session_metadata existing update = record existing {
  acp_session_id = or_text update.acp_session_id existing.acp_session_id;
  agent = or_text update.agent existing.agent;
  command_fingerprint = or_text update.command_fingerprint existing.command_fingerprint;
  cwd = or_text update.cwd existing.cwd;
  created_at = or_time update.created_at existing.created_at;
}

abbrev pub enqueue : QueuedPrompt → SessionRecord → SessionRecord
enqueue prompt rec = record rec {
  status = SessionStatus.queued;
  updated_at = prompt.created_at;
  prompt_queue = rec.prompt_queue ++ prompt ∷ [];
}

-- the transition of AppendQueuedPrompt, for a prompt whose id, time and status are set
unfoldable pub append_queued_prompt : SessionRecord → QueuedPrompt → Sessions → Mutation
unfolding merge_session_metadata
append_queued_prompt rec prompt ss = elim (find_session ss rec.id) [
  | none ↦
      if cancellation_latched rec.status
      then refused StoreError.cancel_requested
      else changed (
          ss
          ++ enqueue prompt (record rec { created_at = or_time rec.created_at prompt.created_at })
            ∷ [])
  | some existing ↦
      if cancellation_latched existing.status
      then refused StoreError.cancel_requested
      else changed (put_session rec.id (enqueue prompt (merge_session_metadata existing rec)) ss)
]

-- the transition of requestCancel
unfoldable pub request_cancel : String → ℕ → Sessions → Mutation
request_cancel id requested_at ss = elim (find_session ss id) [
  | none ↦ changed (
      ss
      ++ record {
        id = id;
        acp_session_id = "";
        agent = "";
        command_fingerprint = "";
        cwd = "";
        status = SessionStatus.cancel_requested;
        created_at = requested_at;
        updated_at = requested_at;
        last_stop_reason = "";
        summary = "";
        turns = [];
        pending_prompt = none;
        prompt_queue = [];
      }
        ∷ [])
  | some rec ↦ changed (
      put_session id
        (record rec {
          status = if is_canceled rec.status then rec.status else SessionStatus.cancel_requested;
          updated_at = requested_at;
        })
        ss)
]

-- the transition of setACPSessionID
unfoldable pub set_acp_session_id : String → String → Sessions → Mutation
set_acp_session_id id acp ss = with_session ss id λ rec.
    if rec.acp_session_id == ""
    then changed (put_session id (record rec { acp_session_id = acp }) ss)
    else unchanged
