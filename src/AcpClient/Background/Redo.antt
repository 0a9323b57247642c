-- ===== src/AcpClient/Background/Redo.antt =====
-- A reconciliation of internal/acpclient/background.go finishes what an earlier recording left in the
-- journal. Where a process dies between two calls, the disk is as after a recording whose further calls
-- are refused.
use mathlib.Core.Path.{subst}
use ratchet_cli.Base.{
  ◌≡◌, ◌≢◌, eq_refl, refl, ap, ◌∙◌, Bool, true, false, some, [], ◌∷◌, ◌++◌, ◌⊎◌, inl, inr,
  Bool-cases, Option-cases,
}
use ratchet_cli.Base.Dict.{lookup, lookup-insert}
use ratchet_cli.AcpClient.Background.Keyed.{find_by}
use ratchet_cli.AcpClient.Background.Policies.{
  BackgroundPolicy, Transition, transition_key, Files, landed, upsert, put_transition,
  remove_transition, get_transition,
}
use ratchet_cli.AcpClient.Background.Audit.{
  AuditRecord, AuditFile, AppendEnv, AuditError, validate_record, append,
}
use ratchet_cli.AcpClient.Background.Recording.{
  Disk, RecordEnv, state_failed, joined, audit_errors, audit_record, append_audit, with_degraded,
  on_files, clear_journal, record_state, persist_terminal_transition,
}
use ratchet_cli.AcpClient.Background.Reconcile.{
  Recorder, remember_terminal, recorded, ReconcileEnv, redo,
}
use ratchet_cli.AcpClient.Background.Launching.{get_status}
use ratchet_cli.AcpClient.Background.Log.{IsLog, smooth_append, append-smooth}
use ratchet_cli.AcpClient.Background.StoreLaws.{
  journal_at, IsTrimmed, upsert-Upserted, upsert-landed, put_transition-Journaled,
}
use ratchet_cli.AcpClient.Background.Recovery.{
  IsSound, Settled, settled_policy, trimmed_degraded, record_state-Recorded, List-cases, both_none,
  no_audit_errors,
}

abbrev pub smooth_record : RecordEnv
smooth_record = record {
  journal = landed;
  state = landed;
  audit = smooth_append;
  final = landed;
  clear = landed;
  downgrade = landed;
}

-- A reconciliation that nothing hinders.
pub record IsSmooth (env : ReconcileEnv) : Type 0 where
  pub readable : env.journal_readable ≡ true
  pub recording : env.recording ≡ smooth_record

record_state-smooth :
    (t : Transition) (d : Disk)
    → IsSound t
    → IsLog d.audit
    → let r = (record_state smooth_record t d).1 in (r.errors ≡ []) × (r.policy ≡ settled_policy t)
unfolding record_state on_files append_audit clear_journal remove_transition audit_errors
record_state-smooth t d h l =
    let p = with_degraded true t.policy in
    let t' : Transition = record t { policy = p } in
    let d1 = (upsert landed p d.files).0 in
    let e1 = upsert-landed p d.files (trimmed_degraded true t.policy h.trimmed) in
    let e2 = append-smooth (audit_record t') d.audit l h.accepted in
    let e3 = upsert-landed (settled_policy t) d1 (trimmed_degraded false t.policy h.trimmed) in
    (rw (e1, e2, e3, record_state) refl, rw (e1, e2, e3, record_state) refl)

record_state-Settled :
    (t : Transition) (d : Disk)
    → IsSound t
    → IsLog d.audit
    → Settled t false (record_state smooth_record t d).0
record_state-Settled t d h l =
    let e = (record_state-smooth t d h l).0 in
    elim (record_state-Recorded smooth_record t d d h.trimmed l refl) [
      | inl i ↦ absurd (cc (i.failed, e))
      | inr (b, s, none_failed) ↦
          subst (λ (c : Bool). Settled t c (record_state smooth_record t d).0) (none_failed e) s
    ]

-- For a journal entry that the log accepts, of trimmed names, and a log that can be read and has no
-- record twice: a reconciliation that nothing hinders reports no error; the policy of the session is
-- stored as disabled and not degraded, with the outcome of the entry; the log has the event once; the
-- entry is gone; and the manager reports that policy.
pub redo_settles :
    (env : ReconcileEnv) (t : Transition) (m : Recorder)
    → IsSmooth env
    → IsSound t
    → IsLog m.disk.audit
    → journal_at t.policy.session_id m.disk.files ≡ some t
    → let done = redo env t.policy.session_id m in
      (done.1 ≡ [])
      × Settled t false done.0.disk
      × (get_status true t.policy.session_id done.0 ≡ inl (settled_policy t))
unfolding redo get_transition persist_terminal_transition recorded get_status
redo_settles env t m o h l j =
    let id = t.policy.session_id in
    let e = record_state-smooth t m.disk h l in
    let at : redo env id m ≡ recorded (record_state smooth_record t m.disk) m =
      rw (o.readable, j, o.recording, redo) refl in
    let r = (record_state smooth_record t m.disk).1 in
    let p_same : r.policy ≡ settled_policy t = e.1 in
    let shown : lookup id (remember_terminal r m).terminal
        ≡ some (record {
          status = r.policy;
          state_recorded = r.state_recorded;
          audit_recorded = r.audit_recorded;
        }) =
      lookup-insert r.policy.session_id id _ m.terminal ∙ rw (p_same, eq_refl id) refl in
    rw at (
      e.0,
      record_state-Settled t m.disk h l,
      rw (shown, get_status) (ap (λ (p : BackgroundPolicy). inl p) p_same),
    )

-- the journal entry that a recording makes
abbrev pub journal_entry : Transition → Transition
journal_entry t = record t { policy = with_degraded true t.policy }

-- What a recording makes of the disk: nothing; or its entry is in the journal; or its outcome is
-- recorded.
pub persist_terminal-cases :
    (env : RecordEnv) (t : Transition) (d : Disk)
    → IsTrimmed t.policy
    → IsLog d.audit
    → let out = persist_terminal_transition env t true d in
      ((out.0 ≡ d) × (out.1.errors ≢ []))
      ⊎ ((journal_at t.policy.session_id out.0.files ≡ some (journal_entry t))
          × IsLog out.0.audit
          × (out.1.errors ≢ []))
      ⊎ ((b : Bool) × Settled t b out.0 × (out.1.errors ≡ [] → b ≡ false))
unfolding persist_terminal_transition on_files put_transition
persist_terminal-cases env t d h l =
    let t' = journal_entry t in
    let put = put_transition-Journaled env.journal t' d.files in
    let d1 : Disk = record d { files = (put_transition env.journal t' d.files).0 } in
    elim (Option-cases (put_transition env.journal t' d.files).1) [
      | inr (x, n) ↦ elim put.either [
        | inl k ↦ inr (
            inl (
              rw (n, persist_terminal_transition) k,
              rw (n, persist_terminal_transition) l,
              rw (n, persist_terminal_transition) (λ e. absurd (cc e)),
            ))
        | inr k ↦ inl (
          rw (n, persist_terminal_transition) (ap (λ (f : Files). record d { files = f }) k),
          rw (n, persist_terminal_transition) (λ e. absurd (cc e)),
        )
      ]
      | inl n ↦ elim (record_state-Recorded env t d1 d1 h l refl) [
        | inl i ↦ inr (
            inl (
              rw (n, persist_terminal_transition) (i.journal ∙ put.done n),
              rw (n, persist_terminal_transition) (i.log),
              rw (n, persist_terminal_transition) (λ e. absurd (cc (i.failed, e))),
            ))
        | inr s ↦ inr (inr (rw (n, persist_terminal_transition) s))
      ]
    ]

refused_append :
    (env : AppendEnv) (r : AuditRecord) (f : AuditFile) (e : AuditError)
    → validate_record r ≡ some e
    → (append env r f).1 ≡ e ∷ []
unfolding append
refused_append env r f e v = rw (v, append) refl

-- For a journal entry of trimmed names whose record the log refuses: whatever the environment answers,
-- the reconciliation fails, and the entry stays in the journal.
pub redo_stuck :
    (env : ReconcileEnv) (t : Transition) (m : Recorder) (e : AuditError)
    → IsTrimmed t.policy
    → validate_record (audit_record t) ≡ some e
    → journal_at t.policy.session_id m.disk.files ≡ some t
    → let done = redo env t.policy.session_id m in
      (done.1 ≢ []) × (journal_at t.policy.session_id done.0.disk.files ≡ some t)
unfolding redo get_transition persist_terminal_transition recorded record_state on_files
    append_audit
redo_stuck env t m e h v j =
    let id = t.policy.session_id in
    let p = with_degraded true t.policy in
    let first =
      upsert-Upserted env.recording.state p m.disk.files (trimmed_degraded true t.policy h) in
    let r = audit_record (journal_entry t) in
    let refusal = refused_append env.recording.audit r m.disk.audit e v in
    let es = audit_errors (append env.recording.audit r m.disk.audit).1 in
    let kept = ap (find_by transition_key id) first.transitions ∙ j in
    elim (Bool-cases (env.journal_readable)) [
      | inr q ↦ rw (q, redo) (λ n. absurd (cc n), j)
      | inl q ↦
          elim (List-cases
            (joined state_failed (upsert env.recording.state p m.disk.files).1 ++ es)) [
              | inr (x, xs, n) ↦ rw (q, j, n, redo, record_state) (λ k. absurd (cc k), kept)
              | inl n ↦
                  let k = no_audit_errors _ (both_none state_failed _ es n).1 in
                  absurd (cc (refusal, k))
            ]
    ]
