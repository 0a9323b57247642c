-- ===== src/AcpClient/Background/Launching.antt =====
-- What internal/acpclient/background.go records before a worker starts, and what it records and
-- reports of a policy that it blocks.
use ratchet_cli.Base.{
  ℕ, String, Bool, true, false, Option, none, some, List, [], ◌∷◌, ◌++◌, ◌==◌, ◌⊎◌, inl,
  if◌then◌else◌,
}
use ratchet_cli.Base.Dict.{lookup}
use ratchet_cli.AcpClient.Background.Policies.{
  BackgroundState, Outcome, worker_error, state_write_failed, audit_append_failed, Action,
  BackgroundPolicy, Transition, SaveReply, PolicyError, upsert, get_policy, put_transition,
  remove_transition,
}
use ratchet_cli.AcpClient.Background.Audit.{AppendEnv}
use ratchet_cli.AcpClient.Background.Recording.{
  Disk, RecordingError, no_event_id, journal_failed, state_failed, clear_failed, RecordingResult,
  RecordEnv, append_audit, on_files, persist_terminal,
}
use ratchet_cli.AcpClient.Background.Reconcile.{
  Recorder, remember_terminal, recorded, recording_failure,
}

-- The calls of one launch, and those of the recording of its failure.
pub record LaunchEnv : Type 0 where
  pub event : Option String
  pub journal : SaveReply
  pub state : SaveReply
  pub audit : AppendEnv
  pub clear : SaveReply
  pub failure_event : Option String
  pub recording : RecordEnv
  pub now : ℕ

-- the four error branches of persistBeforeLaunch
unfoldable pub fail_launch :
    LaunchEnv
    → Outcome
    → List RecordingError
    → BackgroundPolicy
    → Recorder
    → Recorder × BackgroundPolicy × List RecordingError
unfolding persist_terminal remember_terminal
fail_launch env o es p m =
    let failed = recording_failure env.now o p in
    let (d, r) = persist_terminal env.recording env.failure_event failed Action.error m.disk in
    (remember_terminal r (record m { disk = d }), r.policy, es ++ r.errors)

-- from the append on, in persistBeforeLaunch
unfoldable pub finish_launch :
    LaunchEnv
    → BackgroundPolicy
    → Transition
    → Recorder
    → Recorder × BackgroundPolicy × List RecordingError
unfolding on_files append_audit remove_transition fail_launch
finish_launch env p t m =
    let (d3, e3) = append_audit env.audit t m.disk in
    let (d4, e4) = on_files (remove_transition env.clear p.session_id) d3 in
    let at = λ (d : Disk). record m { disk = d } in
    elim e3 [
      | e ∷ es ↦ fail_launch env audit_append_failed (e ∷ es) p (at d3)
      | [] ↦ elim e4 [
        | some e ↦ fail_launch env state_write_failed (clear_failed e ∷ []) p (at d4)
        | none ↦ (at d4, p, [])
      ]
    ]

-- persistBeforeLaunch
unfoldable pub persist_before_launch :
    LaunchEnv
    → BackgroundPolicy
    → Action
    → Recorder
    → Recorder × BackgroundPolicy × List RecordingError
unfolding on_files put_transition upsert fail_launch finish_launch
persist_before_launch env p action m = elim env.event [
  | none ↦ (m, p, no_event_id ∷ [])
  | some id ↦
      let t : Transition = record { policy = p; action = action; event_id = id } in
      let (d1, e1) = on_files (put_transition env.journal t) m.disk in
      let (d2, e2) = on_files (upsert env.state p) d1 in
      let at = λ (d : Disk). record m { disk = d } in
      elim e1 [
        | some e ↦ fail_launch env state_write_failed (journal_failed e ∷ []) p (at d1)
        | none ↦ elim e2 [
          | some e ↦ fail_launch env state_write_failed (state_failed e ∷ []) p (at d2)
          | none ↦ finish_launch env p t (at d2)
        ]
      ]
]

-- block
unfoldable pub block :
    RecordEnv
    → Option String
    → ℕ
    → Outcome
    → BackgroundPolicy
    → Recorder
    → Recorder × List RecordingError
unfolding persist_terminal recorded
block env event now o p m =
    let blocked : BackgroundPolicy = record p {
      enabled = false;
      state = BackgroundState.blocked;
      outcome = o;
      updated_at = now;
    } in
    recorded (persist_terminal env event blocked Action.block m.disk) m

-- backgroundAdmissionFailureResult
unfoldable pub admission_failure_result :
    BackgroundPolicy → RecordingResult → List RecordingError → ℕ → RecordingResult
admission_failure_result fallback r es now =
    let told = r.errors ++ es in
    let failed : BackgroundPolicy = record fallback {
      enabled = false;
      state = BackgroundState.error;
      outcome = worker_error;
      persistence_degraded = true;
      updated_at = now;
    } in
    if r.policy.session_id == ""
    then record { policy = failed; state_recorded = false; audit_recorded = false; errors = told }
    else record r { policy = record r.policy { persistence_degraded = true }; errors = told }

-- Get of the manager
unfoldable pub get_status : Bool → String → Recorder → BackgroundPolicy ⊎ PolicyError
unfolding lookup get_policy
get_status readable id m = elim (lookup id m.terminal) [
  | some guard ↦ inl guard.status
  | none ↦ get_policy readable id m.disk.files
]
