-- ===== src/AcpClient/Background/Ending.antt =====
-- What workerDone of internal/acpclient/background.go records of a worker that has ended: how it
-- reads the worker's error, and what it makes of the policy. The lease is in the steps of a worker.
use ratchet_cli.Base.{
  ℕ, String, Bool, true, false, not, ◌&&◌, ◌||◌, Option, none, some, [], ◌∷◌, ◌++◌, if◌then◌else◌,
}
use ratchet_cli.AcpClient.Records.{is_found}
use ratchet_cli.AcpClient.Background.Policies.{
  BackgroundState, Outcome, worker_error, Action, BackgroundPolicy, SaveReply, landed, refused,
  unconfirmed,
}
use ratchet_cli.AcpClient.Background.Recording.{
  Disk, lock_failed, RecordingResult, RecordEnv, persist_terminal,
}
use ratchet_cli.AcpClient.Background.Reconcile.{Recorder, remember_terminal}
use ratchet_cli.AcpClient.Background.Launching.{admission_failure_result}

-- A Go error: context.Canceled, ErrCancelRequested, another one, or one that unwraps.
mutual
  pub data WorkerError : Type 0 where
    context_canceled cancel_requested other_error : WorkerError
    wrapped : WorkerError → WorkerError
    joined : WorkerErrors → WorkerError

  pub data WorkerErrors : Type 0 where
    no_errors : WorkerErrors
    and_error : WorkerError → WorkerErrors → WorkerErrors

-- backgroundCancellationOnly, and its loop over the joined errors
unfoldable mutual
  pub background_cancellation_only : WorkerError → Bool
  background_cancellation_only context_canceled = true
  background_cancellation_only cancel_requested = true
  background_cancellation_only other_error = false
  background_cancellation_only (wrapped e) = background_cancellation_only e
  background_cancellation_only (joined no_errors) = false
  background_cancellation_only (joined (and_error e es)) =
      background_cancellation_only e && all_cancellations es

  pub all_cancellations : WorkerErrors → Bool
  all_cancellations no_errors = true
  all_cancellations (and_error e es) = background_cancellation_only e && all_cancellations es

-- `errors.Is(err, ErrCancelRequested)`
unfoldable mutual
  pub is_cancel_requested : WorkerError → Bool
  is_cancel_requested cancel_requested = true
  is_cancel_requested context_canceled = false
  is_cancel_requested other_error = false
  is_cancel_requested (wrapped e) = is_cancel_requested e
  is_cancel_requested (joined es) = some_cancel_requested es

  pub some_cancel_requested : WorkerErrors → Bool
  some_cancel_requested no_errors = false
  some_cancel_requested (and_error e es) = is_cancel_requested e || some_cancel_requested es

abbrev pub cancellation_only : Option WorkerError → Bool
cancellation_only none = false
cancellation_only (some e) = background_cancellation_only e

abbrev pub requested : Option WorkerError → Bool
requested none = false
requested (some e) = is_cancel_requested e

-- isManagerCancellation; the flag says whether the context's cause is a stop or a shutdown
abbrev pub is_manager_cancellation : Bool → Option WorkerError → Bool
is_manager_cancellation cause e = cancellation_only e && cause

-- isSessionCancellation
abbrev pub is_session_cancellation : Option WorkerError → Bool
is_session_cancellation e = cancellation_only e && requested e

-- What a worker's end depends on: the cause of its context, the lock of the launch admission, the
-- answer of CheckCancellation (none is an error), the recording and the release of the lease.
pub record EndEnv : Type 0 where
  pub cause : Bool
  pub admission : SaveReply
  pub cancellation : Option Bool
  pub recording : RecordEnv
  pub event : Option String
  pub released : Bool
  pub now : ℕ

-- How workerDone sees the end of the worker, once it has asked for a cancellation.
pub record Verdict : Type 0 where
  pub by_manager : Bool
  pub by_session : Bool
  pub failed : Bool
  pub outcome : Outcome

unfoldable pub verdict : EndEnv → Outcome → Option WorkerError → Verdict
unfolding background_cancellation_only is_cancel_requested
verdict env o e = elim env.cancellation [
  | none ↦ record { by_manager = false; by_session = false; failed = true; outcome = worker_error }
  | some asked ↦
      let ended : Verdict = record {
        by_manager = is_manager_cancellation env.cause e;
        by_session = is_session_cancellation e;
        failed = is_found e;
        outcome = o;
      } in
      if asked && (not (is_found e) || cancellation_only e)
      then record ended { by_manager = false; by_session = true }
      else ended
]

-- the policy and the action of the three cases
unfoldable pub ended_policy : Verdict → ℕ → BackgroundPolicy → BackgroundPolicy × Action
ended_policy v now p =
    let off : BackgroundPolicy = record p { enabled = false; updated_at = now } in
    if v.by_session
    then (record off { state = BackgroundState.disabled; outcome = Outcome.stopped }, Action.stop)
    else if v.failed
    then (record off { state = BackgroundState.error; outcome = v.outcome }, Action.error)
    else (record off { state = BackgroundState.disabled; outcome = Outcome.completed }, Action.stop)

-- the branch of a lease that is not released
abbrev pub unreleased : ℕ → BackgroundPolicy → RecordingResult → RecordingResult
unreleased now p r = record r {
  policy = record p {
    enabled = false;
    state = BackgroundState.error;
    outcome = worker_error;
    persistence_degraded = true;
    updated_at = now;
  };
  errors = r.errors ++ lock_failed ∷ [];
}

-- no recording has taken place
abbrev pub nothing_recorded : BackgroundPolicy → RecordingResult
nothing_recorded p = record {
  policy = record p { session_id = "" };
  state_recorded = false;
  audit_recorded = false;
  errors = [];
}

-- the result of the operation under the admission's lock: none for a stop or a shutdown
unfoldable pub end_recording : EndEnv → Verdict → BackgroundPolicy → Disk → Disk × RecordingResult
unfolding ended_policy persist_terminal
end_recording env v p d =
    let (q, action) = ended_policy v env.now p in
    let recording = persist_terminal env.recording env.event q action d in
    if v.by_manager then (d, nothing_recorded p) else recording

unfoldable pub remember_end : EndEnv → BackgroundPolicy → RecordingResult → Recorder → Recorder
unfolding remember_terminal
remember_end env p r m = remember_terminal (if env.released then r else unreleased env.now p r) m

-- what follows the admission, by how its lock was taken and released
unfoldable pub end_admitted : EndEnv → SaveReply → Verdict → BackgroundPolicy → Recorder → Recorder
unfolding end_recording admission_failure_result remember_end
end_admitted env refused v p m =
    remember_end env p (admission_failure_result p (nothing_recorded p) (lock_failed ∷ []) env.now)
      m
end_admitted env unconfirmed v p m =
    let (d, r) = end_recording env v p m.disk in
    remember_end env p (admission_failure_result p r (lock_failed ∷ []) env.now)
      (record m { disk = d })
end_admitted env landed v p m =
    let (d, r) = end_recording env v p m.disk in
    let stored = record m { disk = d } in
    if v.by_manager && env.released then stored else remember_end env p r stored

-- what workerDone records and remembers, where the worker owns the recording
unfoldable pub end_worker :
    EndEnv → Outcome → Option WorkerError → BackgroundPolicy → Recorder → Recorder
unfolding verdict end_admitted
end_worker env o e p m = end_admitted env env.admission (verdict env o e) p m
