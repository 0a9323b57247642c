-- ===== src/AcpClient/Mutate.antt =====
-- The transition functions of internal/acpclient/store.go: what each operation of `Store` does to the
-- loaded records, before anything is written. `now` is the time that the body reads.
pub mod Session
pub mod Queue
pub mod QueueLaws
pub mod Keeping
pub mod Latch
use ratchet_cli.Base.{String, Option, none, some}
use ratchet_cli.AcpClient.Types.{SessionStatus, SessionRecord}
use ratchet_cli.AcpClient.Records.{Sessions, find_session}

-- the errors that the operations of `Store` return
pub data StoreError : Type 0 where
  id_required queue_id_required session_not_found prompt_not_found archive_collision : StoreError
  cancel_requested not_pending no_pending_prompt : StoreError
  lock_failed load_failed log_unreadable invalid_message write_failed commit_unconfirmed
        release_failed :
      StoreError

-- the results `(true, nil)`, `(false, nil)` and `(_, err)` of a transition function
pub data Mutation : Type 0 where
  changed : Sessions → Mutation
  unchanged : Mutation
  refused : StoreError → Mutation

-- `rec, err := findSessionRecord(data, id); if err != nil { return false, err }`
abbrev pub with_session : Sessions → String → (SessionRecord → Mutation) → Mutation
with_session data_ id body = elim (find_session data_ id) [
  | none ↦ refused StoreError.session_not_found
  | some rec ↦ body rec
]

abbrev latched_update : SessionStatus → SessionStatus
latched_update SessionStatus.completed = SessionStatus.canceled
latched_update SessionStatus.canceled = SessionStatus.canceled
latched_update _ = SessionStatus.cancel_requested

-- preserveCancellationLatch; of the existing record it reads the status
unfoldable pub preserve_latch : SessionStatus → SessionRecord → SessionRecord
preserve_latch SessionStatus.canceled update = record update { status = SessionStatus.canceled }
preserve_latch SessionStatus.cancel_requested update = record update {
  status = latched_update update.status;
}
preserve_latch _ update = update
