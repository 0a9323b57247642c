-- ===== src/AcpClient/Background/Reconcile.antt =====
-- What BackgroundManager of internal/acpclient/background.go does with the records of an earlier
-- process: reconcileTransitions and reconcileTerminalAudits. What a manager reports of a session is
-- its terminal guard, and else the stored policy.
use ratchet_cli.Base.{
  ℕ, String, Bool, true, false, ◌&&◌, Option, none, some, List, [], ◌∷◌, ◌++◌, ◌==◌, inl, inr,
  if◌then◌else◌,
}
use ratchet_cli.Base.Dict.{Dict, insert}
use ratchet_cli.AcpClient.Background.Policies.{
  BackgroundState, Outcome, audit_append_failed, Action, BackgroundPolicy, SaveReply, storage,
  is_not_found, upsert, get_policy, get_transition, list_transition_ids, list_policies, policy_key,
}
use ratchet_cli.AcpClient.Background.Audit.{AuditRecord, AuditError, ReadEnv, read_audit}
use ratchet_cli.AcpClient.Background.Recording.{
  Disk, RecordingError, degraded, lock_failed, state_failed, RecordingResult, RecordEnv,
  audit_errors, on_files, persist_terminal_transition, persist_terminal,
}

-- backgroundTerminalGuard
pub record TerminalGuard : Type 0 where
  pub status : BackgroundPolicy
  pub state_recorded : Bool
  pub audit_recorded : Bool

pub record Recorder : Type 0 where
  pub disk : Disk
  pub terminal : Dict TerminalGuard

-- rememberTerminal
unfoldable pub remember_terminal : RecordingResult → Recorder → Recorder
unfolding insert
remember_terminal r m = record m {
  terminal =
      insert r.policy.session_id
        (record {
          status = r.policy;
          state_recorded = r.state_recorded;
          audit_recorded = r.audit_recorded;
        })
        m.terminal;
}

unfoldable pub recorded : Disk × RecordingResult → Recorder → Recorder × List RecordingError
unfolding remember_terminal
recorded (d, r) m = (remember_terminal r (record m { disk = d }), r.errors)

-- recordingFailure
abbrev pub recording_failure : ℕ → Outcome → BackgroundPolicy → BackgroundPolicy
recording_failure now o p = record p {
  enabled = false;
  state = BackgroundState.error;
  outcome = o;
  updated_at = now;
}

-- What reserveTransition answers, with the release of the lease where it is taken.
pub data LeaseReply : Type 0 where
  busy unavailable : LeaseReply
  taken : Bool → LeaseReply

abbrev pub lease_errors : Bool → List RecordingError
lease_errors true = []
lease_errors false = lock_failed ∷ []

pub record ReconcileEnv : Type 0 where
  pub lease : LeaseReply
  pub journal_readable : Bool
  pub recording : RecordEnv
  pub store_readable : Bool
  pub audit_opened : Bool
  pub audit_reading : ReadEnv
  pub audit_closed : Bool
  pub audit_ended : Bool
  pub event : Option String
  pub update : SaveReply
  pub now : ℕ

-- reconcileTransition, once it has the lease
unfoldable pub redo : ReconcileEnv → String → Recorder → Recorder × List RecordingError
unfolding get_transition persist_terminal_transition recorded
redo env id m = elim (get_transition env.journal_readable id m.disk.files) [
  | none ↦ (m, degraded ∷ state_failed storage ∷ [])
  | some none ↦ (m, [])
  | some (some t) ↦ recorded (persist_terminal_transition env.recording t false m.disk) m
]

-- A lease that is busy is passed over by the two loops, an error of its own is not.
unfoldable pub with_lease :
    LeaseReply
    → (Recorder → Recorder × List RecordingError)
    → Recorder
    → Recorder × List RecordingError
with_lease busy f m = (m, [])
with_lease unavailable f m = (m, lock_failed ∷ [])
with_lease (taken released) f m = let (m', es) = f m in (m', es ++ lease_errors released)

-- the loop of reconcileTransitions
unfoldable pub redo_all :
    (String → ReconcileEnv) → List String → Recorder → Recorder × List RecordingError
unfolding with_lease redo
redo_all env [] m = (m, [])
redo_all env (id ∷ ids) m =
    let (m', es) = with_lease (env id).lease (redo (env id) id) m in
    let (m'', es') = redo_all env ids m' in (m'', es ++ es')

-- reconcileTransitions
unfoldable pub reconcile_transitions :
    Bool → (String → ReconcileEnv) → Recorder → Recorder × List RecordingError
unfolding list_transition_ids redo_all
reconcile_transitions listed env m = elim (list_transition_ids listed m.disk.files) [
  | none ↦ (m, degraded ∷ state_failed storage ∷ [])
  | some ids ↦ redo_all env ids m
]

-- backgroundAuditTerminal
abbrev pub background_audit_terminal : Action → Bool
background_audit_terminal Action.block = true
background_audit_terminal Action.error = true
background_audit_terminal Action.stop = true
background_audit_terminal _ = false

-- the switch of reconcileTerminalAudit
abbrev pub state_after : Action → BackgroundState → BackgroundState
state_after Action.block s = BackgroundState.blocked
state_after Action.error s = BackgroundState.error
state_after Action.stop s = BackgroundState.disabled
state_after _ s = s

-- the last record of the session
unfoldable pub last_record : String → List AuditRecord → Option AuditRecord
last_record id [] = none
last_record id (r ∷ rs) =
    let rest = last_record id rs in
    elim rest [ some r' ↦ some r' | none ↦ if r.session_id == id then some r else none ]

abbrev pub as_recorded : AuditRecord → BackgroundPolicy → BackgroundPolicy
as_recorded r p = record p {
  enabled = false;
  persistence_degraded = false;
  state = state_after r.action p.state;
  outcome = r.outcome;
  updated_at = r.at;
}

-- from the write of the policy on
unfoldable pub adopt :
    SaveReply → AuditRecord → BackgroundPolicy → Recorder → Recorder × List RecordingError
unfolding on_files upsert remember_terminal
adopt reply r p m =
    let p' = as_recorded r p in
    let (d, e) = on_files (upsert reply p') m.disk in
    let stored = record m { disk = d } in
    elim e [
      | some x ↦ (stored, degraded ∷ state_failed x ∷ [])
      | none ↦ (
        remember_terminal
            (record { policy = p'; state_recorded = true; audit_recorded = true; errors = [] })
            stored,
        [],
      )
    ]

-- where the log cannot be read
unfoldable pub without_log :
    ReconcileEnv → List AuditError → BackgroundPolicy → Recorder → Recorder × List RecordingError
unfolding audit_errors persist_terminal recorded
without_log env es p m =
    let failed = recording_failure env.now audit_append_failed p in
    let (m', more) =
      recorded (persist_terminal env.recording env.event failed Action.error m.disk) m in
    if p.enabled then (m', degraded ∷ audit_errors es ++ more) else (m, degraded ∷ audit_errors es)

-- reconcileTerminalAudit, once it has the lease
unfoldable pub project : ReconcileEnv → String → Recorder → Recorder × List RecordingError
unfolding get_policy read_audit last_record adopt without_log
project env id m = elim (get_policy env.store_readable id m.disk.files) [
  | inr e ↦ (m, if is_not_found e then [] else degraded ∷ state_failed e ∷ [])
  | inl p ↦
      let (file, records) =
        read_audit env.audit_opened env.audit_reading env.audit_closed env.audit_ended
          m.disk.audit in
      let seen = record m { disk = record m.disk { audit = file } } in
      elim records [
        | inr es ↦ without_log env es p seen
        | inl rs ↦ elim (last_record id rs) [
          | none ↦ (seen, [])
          | some r ↦
              if background_audit_terminal r.action
                && (r.profile == p.profile)
                && (r.descriptor_hash == p.descriptor_hash)
              then adopt env.update r p seen
              else (seen, [])
        ]
      ]
]

-- the loop of reconcileTerminalAudits
unfoldable pub project_all :
    (String → ReconcileEnv) → List BackgroundPolicy → Recorder → Recorder × List RecordingError
unfolding with_lease project
project_all env [] m = (m, [])
project_all env (p ∷ ps) m =
    let id = policy_key p in
    let (m', es) = with_lease (env id).lease (project (env id) id) m in
    let (m'', es') = project_all env ps m' in (m'', es ++ es')

-- reconcileTerminalAudits
unfoldable pub reconcile_terminal_audits :
    Bool → (String → ReconcileEnv) → Recorder → Recorder × List RecordingError
unfolding list_policies project_all
reconcile_terminal_audits listed env m = elim (list_policies listed m.disk.files) [
  | none ↦ (m, degraded ∷ state_failed storage ∷ [])
  | some ps ↦ project_all env ps m
]
