-- ===== src/AcpClient/Tests.antt =====
-- Runs of the store's operations on a small file, and instances of its theorems.
use mathlib.Core.List.Perm
use ratchet_cli.Base.{
  false, ◌+◌, ◌≤◌, ◌≡◌, refl, String, true, none, some, List, [], ◌∷◌, ◌++◌, arith, ◌==◌, not,
  length, if◌then◌else◌, inl, trim_space,
}
use ratchet_cli.AcpClient.Types.{
  SessionStatus, QueueStatus, PendingStatus, QueuedPrompt, SessionRecord,
}
use ratchet_cli.AcpClient.Records.{find_session, put_session, find_prompt, put_prompt, IsUnique}
use ratchet_cli.AcpClient.Normalize.{normalize_record, normalize_records}
use ratchet_cli.AcpClient.Normalize.Laws.{normalize_record_idem}
use ratchet_cli.AcpClient.EventLog.{EventDirection, EventLine, encode_event_log, next_seq}
use ratchet_cli.AcpClient.EventLog.Numbering.{Numbered, append-Numbered}
use ratchet_cli.AcpClient.Mutate.{StoreError}
use ratchet_cli.AcpClient.Mutate.Keeping.{latch_rank}
use ratchet_cli.AcpClient.Mutate.Session.{request_cancel}
use ratchet_cli.AcpClient.Mutate.Queue.{
  pending_count, recover_running_queue_items, recovered_record,
}
use ratchet_cli.AcpClient.Mutate.QueueLaws.{running_count, recovered_queue}
use ratchet_cli.AcpClient.Store.{
  Runtime, World, Env, Write, nothing, released, fault, transition_session,
}
use ratchet_cli.AcpClient.Store.Ops
use ratchet_cli.AcpClient.Store.Runs.{Op, perform, run_ops}
use ratchet_cli.AcpClient.Store.Latch.{cancellation_latch}
use ratchet_cli.AcpClient.Store.Atomic.{SameFiles, transition_all_or_nothing, transition_commits}

abbrev pub runtime : Runtime
runtime = record {
  store_key = λ id. id;
  new_queue_id = λ prompt now. prompt;
  valid_message = λ m. not (m == "");
  sort_records = λ ss. ss;
  sort_perm = Perm.refl;
}

abbrev pub good : Env
good = record {
  lock = true;
  unlock = true;
  load = true;
  log_lock = true;
  log_unlock = true;
  log_read = true;
  log_write = Write.committed;
  save = Write.committed;
  restore = Write.committed;
  cancel_write = Write.committed;
  now = 50;
  loaded_at = 51;
  saved_at = 52;
}

abbrev pub queued : String → QueueStatus → QueuedPrompt
queued id status = record {
  id = id;
  prompt = "explain";
  status = status;
  created_at = 10;
  started_at = none;
  completed_at = none;
  canceled_at = none;
  response = "";
  stop_reason = "";
  error = "";
}

abbrev pub work : SessionRecord
work = record {
  id = "work";
  acp_session_id = "";
  agent = "codex";
  command_fingerprint = "f";
  cwd = "/tmp";
  status = SessionStatus.running;
  created_at = 10;
  updated_at = 11;
  last_stop_reason = "";
  summary = "";
  turns = [];
  pending_prompt = none;
  prompt_queue = queued "a" QueueStatus.running ∷ queued "b" QueueStatus.pending ∷ [];
}

abbrev pub world : World
world = record { sessions = work ∷ []; logs = λ id. none; cancels = λ id. none }

abbrev story : List (Env × Op)
story =
    (good, Op.request_cancel "work" 20)
    ∷ (good, Op.mark_queue_completed "work" "a" "done" "end_turn" [] 21)
    ∷ (good, Op.recover_running_queue_items "work" 22)
    ∷ (good, Op.mark_queue_running "work" "b" 23)
    ∷ []

-- A prompt that completes after a cancellation was requested ends the session as canceled.
story_ends_canceled : latch_rank (find_session (run_ops runtime story world).sessions "work") ≡ 3
unfolding perform find_session put_session find_prompt put_prompt Ops.mark_queue_running
    Ops.recover_running_queue_items Ops.mark_queue_completed Ops.request_cancel
story_ends_canceled = refl

cancellation_latch_example :
    IsUnique (run_ops runtime story world).sessions
    × ((id : String)
        → latch_rank (find_session (work ∷ []) id)
          ≤ latch_rank (find_session (run_ops runtime story world).sessions id))
cancellation_latch_example = cancellation_latch runtime story world (tt, tt)

abbrev line : EventLine
line = record { seq = 0; direction = EventDirection.unset; at = 0; message = "{}" }

abbrev full_disk : Env
full_disk = record good { save = Write.failed }

canceled_work : List SessionRecord
canceled_work =
    put_session "work" (record work { status = SessionStatus.cancel_requested; updated_at = 20 })
      (work ∷ [])

abbrev stuck_lock : Env
stuck_lock = record good { unlock = false }

-- A lock that is not released makes an error of a transition that has changed the file.
unreleased_test :
    let (o, w') =
      transition_session runtime stuck_lock nothing "work" [] (request_cancel "work" 20) world in
    (o ≡ fault StoreError.release_failed)
    × (w'.sessions ≡ normalize_records (λ id. id) 52 canceled_work)
unfolding transition_session released request_cancel find_session put_session canceled_work
unreleased_test = (refl, refl)

transition_all_or_nothing_example :
    SameFiles world
      (transition_session runtime full_disk nothing "work"
        (line ∷ [])
        (request_cancel "work" 20)
        world).1
unfolding transition_session released request_cancel find_session put_session
transition_all_or_nothing_example =
    transition_all_or_nothing runtime full_disk nothing "work" (line ∷ [])
      (request_cancel "work" 20) world StoreError.write_failed refl (λ e. cc) (λ e. cc) refl refl

transition_commits_example :
    let (outcome, w') =
      transition_session runtime good nothing "work" (line ∷ []) (request_cancel "work" 20) world in
    (w'.sessions ≡ normalize_records (λ id. id) 52 canceled_work)
    × ((lines : List EventLine) × (encode_event_log
            (λ m. not (m == ""))
            50
            (line ∷ [])
            (next_seq [])
          ≡ some lines)
        × ((j : String)
            → w'.logs j ≡ (if trim_space "work" == j then some ([] ++ lines) else none)))
unfolding transition_session released request_cancel find_session put_session canceled_work
    trim_space
transition_commits_example =
    transition_commits runtime good nothing "work" line [] (request_cancel "work" 20) world
      (put_session "work" (record work { status = SessionStatus.cancel_requested; updated_at = 20 })
        (work ∷ []))
      refl (inl refl)

abbrev logged : List EventLine
logged = record line { seq = 1; at = 5 } ∷ record line { seq = 2; at = 6 } ∷ []

abbrev third : List EventLine
third = record line { seq = 3; at = 7; direction = EventDirection.inbound } ∷ []

append-Numbered_example :
    Numbered 1 (logged ++ third) × (length (logged ++ third) ≡ length logged + length (line ∷ []))
unfolding encode_event_log next_seq
append-Numbered_example =
    append-Numbered (λ m. not (m == "")) 7 logged (line ∷ []) third (refl, (refl, tt)) refl

abbrev pub latched_work : SessionRecord
latched_work = record work { status = SessionStatus.cancel_requested }

recovered_queue_example :
    (rec' : SessionRecord) × (find_session
        (put_session "work" (recovered_record 30 latched_work) (latched_work ∷ []))
        "work"
      ≡ some rec')
    × (length rec'.prompt_queue ≡ 2)
    × (running_count rec'.prompt_queue ≡ 0)
    × (pending_count rec'.prompt_queue ≡ 0)
    × (rec'.status ≡ SessionStatus.canceled)
unfolding recover_running_queue_items find_session put_session
recovered_queue_example = recovered_queue (latched_work ∷ []) _ "work" 30 latched_work refl refl

abbrev waiting : SessionRecord
waiting = record work {
  pending_prompt = some (record {
    id = "";
    prompt = "later";
    status = PendingStatus.canceled;
    created_at = 9;
    canceled_at = some 10;
  });
  created_at = 0;
  updated_at = 0;
}

normalize_record_idem_example :
    normalize_record (λ id. id) 70 (normalize_record (λ id. id) 60 waiting)
    ≡ normalize_record (λ id. id) 60 waiting
normalize_record_idem_example =
    normalize_record_idem (λ id. id) 60 70 waiting (λ e. omega arith) (λ p e. ground (arith, e))
