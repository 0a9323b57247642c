-- ===== src/AcpClient/BackgroundTests.antt =====
-- Runs of the background workers of internal/acpclient.
use ratchet_cli.Base.{◌&&◌, ◌≡◌, ◌≢◌, refl, true, false, some, [], ◌∷◌, ◌⊎◌, inl, arith, trim_space}
use ratchet_cli.AcpClient.Background.Keyed.{find_by}
use ratchet_cli.AcpClient.Background.Policies.{
  refused, unconfirmed, BackgroundState, Outcome, Action, BackgroundPolicy, Transition, landed,
}
use ratchet_cli.AcpClient.Background.Audit.{
  AuditRecord, allowed, blank, validate_record, AuditFile, decode, AppendEnv, append,
  field_required, entry, part,
}
use ratchet_cli.AcpClient.Background.Recording.{
  Disk, RecordEnv, audit_record, with_degraded, persist_terminal_transition,
}
use ratchet_cli.AcpClient.Background.Reconcile.{
  busy, reconcile_terminal_audits, reconcile_transitions, Recorder, ReconcileEnv, redo, taken,
}
use ratchet_cli.AcpClient.Background.Launching.{LaunchEnv, persist_before_launch, get_status}
use ratchet_cli.AcpClient.Background.Ending.{
  is_manager_cancellation, WorkerError, EndEnv, end_worker,
}
use ratchet_cli.AcpClient.Background.EndLaws.{is_landed, is_uncalled, Reported, worker_ended}
use ratchet_cli.AcpClient.Background.Log.{count_id, IsLog, smooth_append}
use ratchet_cli.AcpClient.Background.StoreLaws.{stored, IsTrimmed, journal_at}
use ratchet_cli.AcpClient.Background.Recovery.{IsSound, Settled, settled_policy, append_once}
use ratchet_cli.AcpClient.Background.Redo.{smooth_record, IsSmooth, redo_settles, redo_stuck}
use ratchet_cli.AcpClient.Background.NeverEnabled.{reconcile_enables_none}
use ratchet_cli.AcpClient.Background.LaunchLaws.{Finished, launch_guarded}

abbrev policy : BackgroundPolicy
policy = record {
  session_id = "s1";
  profile = "p";
  descriptor_hash = "h";
  policy_version = 1;
  acknowledged_at = 5;
  enabled = true;
  state = BackgroundState.running;
  outcome = Outcome.started;
  persistence_degraded = false;
  started_at = 5;
  updated_at = 5;
}

abbrev stopped_policy : BackgroundPolicy
stopped_policy = record policy { state = BackgroundState.disabled; outcome = Outcome.stopped }

abbrev transition : Transition
transition = record { policy = stopped_policy; action = Action.stop; event_id = "e2" }

abbrev first_record : AuditRecord
first_record = audit_record (record { policy = policy; action = Action.start; event_id = "e1" })

-- a log with one record, and a part of another
abbrev torn_log : AuditFile
torn_log = record { lines = entry first_record ∷ []; torn = true }

torn_log-IsLog : IsLog torn_log
unfolding decode validate_record blank allowed
torn_log-IsLog = record { records = first_record ∷ []; decodes = refl; unique = λ id. ground arith }

-- the write of the line ends early
abbrev part_append : AppendEnv
part_append = record smooth_append { written = part }

append_torn_test : (append part_append (audit_record transition) torn_log).0 ≡ torn_log
unfolding append
append_torn_test = refl

append_repaired_test :
    (append smooth_append (audit_record transition) torn_log).0.lines
    ≡ entry first_record ∷ entry (audit_record transition) ∷ []
unfolding append
append_repaired_test = refl

append_once_example :
    IsLog (append part_append (audit_record transition) torn_log).0
    × (((append part_append (audit_record transition) torn_log).1 ≢ [])
        ⊎ (count_id "e2" (append part_append (audit_record transition) torn_log).0.lines ≡ 1))
append_once_example = append_once part_append (audit_record transition) torn_log torn_log-IsLog

abbrev disk : Disk
disk = record { files = record { policies = policy ∷ []; transitions = [] }; audit = torn_log }

abbrev recorder : Recorder
recorder = record { disk = disk; terminal = [] }

abbrev torn_record : RecordEnv
torn_record = record smooth_record { audit = part_append }

stopped_policy-IsTrimmed : IsTrimmed stopped_policy
unfolding trim_space
stopped_policy-IsTrimmed = record {
  session_id = refl;
  profile = refl;
  has_session = refl;
  has_profile = refl;
}

transition-IsSound : IsSound transition
unfolding validate_record
transition-IsSound = record { trimmed = stopped_policy-IsTrimmed; accepted = refl }

abbrev smooth_env : ReconcileEnv
smooth_env = record {
  lease = taken true;
  journal_readable = true;
  recording = smooth_record;
  store_readable = true;
  audit_opened = true;
  audit_reading = smooth_append.reading;
  audit_closed = true;
  audit_ended = true;
  event = some "e3";
  update = landed;
  now = 9;
}

smooth_env-IsSmooth : IsSmooth smooth_env
smooth_env-IsSmooth = record { readable = refl; recording = refl }

-- A recording that fails at the log leaves the journal entry, and the next reconciliation ends it.
interrupted_test :
    (persist_terminal_transition torn_record transition true disk).0.files.transitions
    ≡ record { policy = with_degraded true stopped_policy; action = Action.stop; event_id = "e2" }
      ∷ []
unfolding persist_terminal_transition
interrupted_test = refl

abbrev journaled_recorder : Recorder
journaled_recorder = record recorder {
  disk = record disk { files = record { policies = policy ∷ []; transitions = transition ∷ [] } };
}

transition_is_pending : journal_at "s1" journaled_recorder.disk.files ≡ some transition
unfolding find_by
transition_is_pending = refl

redo_settles_example :
    ((redo smooth_env "s1" journaled_recorder).1 ≡ [])
    × Settled transition false (redo smooth_env "s1" journaled_recorder).0.disk
    × (get_status true "s1" (redo smooth_env "s1" journaled_recorder).0
        ≡ inl (settled_policy transition))
redo_settles_example =
    redo_settles smooth_env transition journaled_recorder smooth_env-IsSmooth transition-IsSound
      torn_log-IsLog transition_is_pending

-- a transition of a policy without a descriptor hash
abbrev hashless : Transition
hashless = record {
  policy = record policy { descriptor_hash = ""; outcome = Outcome.profile_untrusted };
  action = Action.block;
  event_id = "e4";
}

hashless-IsTrimmed : IsTrimmed hashless.policy
unfolding trim_space
hashless-IsTrimmed = record {
  session_id = refl;
  profile = refl;
  has_session = refl;
  has_profile = refl;
}

hashless_is_refused : validate_record (audit_record hashless) ≡ some field_required
unfolding validate_record
hashless_is_refused = refl

abbrev stuck_recorder : Recorder
stuck_recorder = record recorder {
  disk = record disk { files = record { policies = []; transitions = hashless ∷ [] } };
}

hashless_is_pending : journal_at "s1" stuck_recorder.disk.files ≡ some hashless
unfolding find_by
hashless_is_pending = refl

redo_stuck_example :
    ((redo smooth_env "s1" stuck_recorder).1 ≢ [])
    × (journal_at "s1" (redo smooth_env "s1" stuck_recorder).0.disk.files ≡ some hashless)
redo_stuck_example =
    redo_stuck smooth_env hashless stuck_recorder field_required hashless-IsTrimmed
      hashless_is_refused hashless_is_pending

abbrev launch_env : LaunchEnv
launch_env = record {
  event = some "e5";
  journal = landed;
  state = landed;
  audit = part_append;
  clear = landed;
  failure_event = some "e6";
  recording = smooth_record;
  now = 8;
}

policy-IsTrimmed : IsTrimmed policy
unfolding trim_space
policy-IsTrimmed = record {
  session_id = refl;
  profile = refl;
  has_session = refl;
  has_profile = refl;
}

-- the policy of a launch whose audit record is not written
launch_failed_test :
    (persist_before_launch launch_env policy Action.start recorder).1.outcome
    ≡ Outcome.audit_append_failed
unfolding persist_before_launch
launch_failed_test = refl

launch_guarded_example :
    Finished launch_env policy disk.files
      (persist_before_launch launch_env policy Action.start recorder)
launch_guarded_example =
    launch_guarded launch_env policy Action.start recorder policy-IsTrimmed torn_log-IsLog

-- the worker of a manager that shuts down
abbrev shutdown_env : EndEnv
shutdown_env = record {
  cause = true;
  admission = landed;
  cancellation = some false;
  recording = smooth_record;
  event = some "e7";
  released = true;
  now = 11;
}

-- A worker that a shutdown cancels leaves its policy enabled, for the next Resume.
worker_shutdown_test :
    end_worker shutdown_env Outcome.worker_error
      (some (WorkerError.wrapped WorkerError.context_canceled))
      policy
      recorder
    ≡ recorder
unfolding end_worker
worker_shutdown_test = refl

-- A worker that fails is recorded with the outcome of its error.
worker_failed_test :
    let m =
      end_worker shutdown_env Outcome.worker_panic (some WorkerError.other_error) policy recorder in
    m.disk.files.policies
    ≡ record policy {
      enabled = false;
      state = BackgroundState.error;
      outcome = Outcome.worker_panic;
      updated_at = 11;
    }
      ∷ []
unfolding end_worker
worker_failed_test = refl

worker_ended_example :
    let m' =
      end_worker shutdown_env Outcome.completed
        (some WorkerError.context_canceled)
        policy
        recorder in
    let by_manager =
      is_uncalled shutdown_env.cancellation (some WorkerError.context_canceled)
      && is_manager_cancellation shutdown_env.cause (some WorkerError.context_canceled) in
    let stays = is_landed shutdown_env.admission && (by_manager && shutdown_env.released) in
    ((stays ≡ true) × (m' ≡ recorder)) ⊎ ((stays ≡ false) × Reported "s1" m')
worker_ended_example =
    worker_ended shutdown_env Outcome.completed (some WorkerError.context_canceled) policy recorder

-- The journal has a transition of a policy that is stored as enabled; its reconciliation disables it.
reconcile_test :
    let m = (reconcile_terminal_audits true (λ id. smooth_env) journaled_recorder).0 in
    (reconcile_transitions true (λ id. smooth_env) m).0.disk.files
    ≡ record { policies = with_degraded false stopped_policy ∷ []; transitions = [] }
unfolding reconcile_terminal_audits reconcile_transitions
reconcile_test = refl

-- Another session's lease is busy, and its policy stays as it is.
abbrev busy_env : ReconcileEnv
busy_env = record smooth_env { lease = busy }

busy_policy_stays :
    let m = (reconcile_terminal_audits true (λ id. busy_env) journaled_recorder).0 in
    stored "s1" (reconcile_transitions true (λ id. busy_env) m).0.disk.files ≡ some policy
unfolding reconcile_terminal_audits reconcile_transitions find_by
busy_policy_stays = refl

reconcile_enables_none_example :
    (q : BackgroundPolicy) × (stored "s1" journaled_recorder.disk.files ≡ some q)
    × (q.enabled ≡ true)
reconcile_enables_none_example =
    reconcile_enables_none true true (λ id. busy_env) (λ id. busy_env) journaled_recorder "s1"
      policy busy_policy_stays refl

-- The journal entry of a launch is removed, but that is reported as failed, and then the journal takes
-- no entry of the failure.
abbrev left_env : LaunchEnv
left_env = record launch_env {
  audit = smooth_append;
  clear = unconfirmed;
  recording = record smooth_record { journal = refused };
}

-- The launch is reported as failed, and its policy stays enabled without a journal entry.
launch_left_enabled_test :
    let (m, status, es) = persist_before_launch left_env policy Action.start recorder in
    (status.enabled ≡ false) × (m.disk.files ≡ record { policies = policy ∷ []; transitions = [] })
unfolding persist_before_launch
launch_left_enabled_test = (refl, refl)
