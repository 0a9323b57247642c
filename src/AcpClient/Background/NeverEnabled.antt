-- ===== src/AcpClient/Background/NeverEnabled.antt =====
-- The reconciliations of internal/acpclient/background.go enable no policy, whatever fails.
use ratchet_cli.Base.{
  ◌≡◌, refl, sym, ap, ◌∙◌, String, Bool, true, ◌&&◌, none, some, List, [], ◌∷◌, arith, ◌==◌, ◌⊎◌,
  inl, inr, Bool-cases, Option-cases,
}
use ratchet_cli.AcpClient.Background.Policies.{
  audit_append_failed, Action, BackgroundPolicy, policy_key, SaveReply, upsert, get_transition,
  get_policy, list_policies, list_transition_ids,
}
use ratchet_cli.AcpClient.Background.Audit.{AuditRecord, AuditError, read_audit}
use ratchet_cli.AcpClient.Background.Recording.{
  RecordingError, on_files, persist_terminal_transition,
}
use ratchet_cli.AcpClient.Background.Reconcile.{
  Recorder, remember_terminal, recorded, recording_failure, LeaseReply, busy, unavailable, taken,
  ReconcileEnv, redo, with_lease, redo_all, reconcile_transitions, background_audit_terminal,
  last_record, as_recorded, adopt, without_log, project, project_all, reconcile_terminal_audits,
}
use ratchet_cli.AcpClient.Background.StoreLaws.{stored}
use ratchet_cli.AcpClient.Background.NotEnabled.{
  NotEnabled, upsert-NotEnabled, record_state-NotEnabled, persist_terminal-NotEnabled,
}

redo-NotEnabled :
    (env : ReconcileEnv) (key : String) (m : Recorder) (id : String)
    → NotEnabled id m.disk.files
    → NotEnabled id (redo env key m).0.disk.files
unfolding redo recorded persist_terminal_transition remember_terminal
redo-NotEnabled env key m id h =
    elim (Option-cases (get_transition env.journal_readable key m.disk.files)) [
      | inl q ↦ rw (q, redo) h
      | inr (none, q) ↦ rw (q, redo) h
      | inr (some t, q) ↦ rw (q, redo) (record_state-NotEnabled env.recording t m.disk id h)
    ]

adopt-NotEnabled :
    (reply : SaveReply) (r : AuditRecord) (p : BackgroundPolicy) (m : Recorder) (id : String)
    → NotEnabled id m.disk.files
    → NotEnabled id (adopt reply r p m).0.disk.files
unfolding adopt on_files remember_terminal
adopt-NotEnabled reply r p m id h =
    let h' = upsert-NotEnabled reply (as_recorded r p) m.disk.files id refl h in
    elim (Option-cases (upsert reply (as_recorded r p) m.disk.files).1) [
      | inl q ↦ rw (q, adopt) h'
      | inr (x, q) ↦ rw (q, adopt) h'
    ]

without_log-NotEnabled :
    (env : ReconcileEnv) (es : List AuditError) (p : BackgroundPolicy) (m : Recorder) (id : String)
    → NotEnabled id m.disk.files
    → NotEnabled id (without_log env es p m).0.disk.files
unfolding without_log recorded remember_terminal
without_log-NotEnabled env es p m id h = elim (Bool-cases p.enabled) [
  | inl q ↦
      let failed = recording_failure env.now audit_append_failed p in
      simp (q, without_log)
        (persist_terminal-NotEnabled env.recording env.event failed Action.error m.disk id h)
  | inr q ↦ rw (q, without_log) h
]

Sum-cases {ℓ κ} :
    {A : Type ℓ} {B : Type κ} (x : A ⊎ B) → ((a : A) × (x ≡ inl a)) ⊎ ((b : B) × (x ≡ inr b))
Sum-cases (inl a) = inl (a, refl)
Sum-cases (inr b) = inr (b, refl)

project-NotEnabled :
    (env : ReconcileEnv) (key : String) (m : Recorder) (id : String)
    → NotEnabled id m.disk.files
    → NotEnabled id (project env key m).0.disk.files
unfolding project
project-NotEnabled env key m id h =
    elim (Sum-cases (get_policy env.store_readable key m.disk.files)) [
      | inr (e, q) ↦ rw (q, project) h
      | inl (p, q) ↦
          let log =
            read_audit env.audit_opened env.audit_reading env.audit_closed env.audit_ended
              m.disk.audit in
          let seen : Recorder = record m { disk = record m.disk { audit = log.0 } } in
          elim (Sum-cases log.1) [
            | inr (es, n) ↦ rw (q, n, project) (without_log-NotEnabled env es p seen id h)
            | inl (rs, n) ↦ elim (Option-cases (last_record key rs)) [
              | inl k ↦ rw (q, n, k, project) h
              | inr (r, k) ↦
                  elim (Bool-cases (
                    background_audit_terminal r.action
                    && (r.profile == p.profile)
                    && (r.descriptor_hash == p.descriptor_hash))) [
                      | inl b ↦ rw (q, n, k, b, project) (adopt-NotEnabled env.update r p seen id h)
                      | inr b ↦ rw (q, n, k, b, project) h
                    ]
            ]
          ]
    ]

-- a pass over one session, as the loops make it
abbrev Pass : Type 0
Pass = Recorder → Recorder × List RecordingError

with_lease-NotEnabled :
    (lease : LeaseReply) (f : Pass) (m : Recorder) (id : String)
    → NotEnabled id m.disk.files
    → NotEnabled id (f m).0.disk.files
    → NotEnabled id (with_lease lease f m).0.disk.files
unfolding with_lease
with_lease-NotEnabled busy f m id h h' = h
with_lease-NotEnabled unavailable f m id h h' = h
with_lease-NotEnabled (taken b) f m id h h' = h'

redo_all-NotEnabled :
    (env : String → ReconcileEnv) (keys : List String) (m : Recorder) (id : String)
    → NotEnabled id m.disk.files
    → NotEnabled id (redo_all env keys m).0.disk.files
unfolding redo_all
redo_all-NotEnabled env [] m id h = h
redo_all-NotEnabled env (key ∷ keys) m id h =
    let one = redo (env key) key in
    redo_all-NotEnabled env keys (with_lease (env key).lease one m).0 id
      (with_lease-NotEnabled (env key).lease one m id h (redo-NotEnabled (env key) key m id h))

project_all-NotEnabled :
    (env : String → ReconcileEnv) (ps : List BackgroundPolicy) (m : Recorder) (id : String)
    → NotEnabled id m.disk.files
    → NotEnabled id (project_all env ps m).0.disk.files
unfolding project_all
project_all-NotEnabled env [] m id h = h
project_all-NotEnabled env (p ∷ ps) m id h =
    let key = policy_key p in
    let one = project (env key) key in
    project_all-NotEnabled env ps (with_lease (env key).lease one m).0 id
      (with_lease-NotEnabled (env key).lease one m id h (project-NotEnabled (env key) key m id h))

reconciled-NotEnabled :
    (listed listed' : Bool) (env env' : String → ReconcileEnv) (m : Recorder) (id : String)
    → NotEnabled id m.disk.files
    → let m' = (reconcile_terminal_audits listed env m).0 in
      NotEnabled id (reconcile_transitions listed' env' m').0.disk.files
unfolding reconcile_terminal_audits reconcile_transitions
reconciled-NotEnabled listed listed' env env' m id h =
    let m' = (reconcile_terminal_audits listed env m).0 in
    let h' : NotEnabled id m'.disk.files = elim (Option-cases (list_policies listed m.disk.files)) [
      | inl q ↦ rw (q, reconcile_terminal_audits) h
      | inr (ps, q) ↦ rw (q, reconcile_terminal_audits) (project_all-NotEnabled env ps m id h)
    ] in
    elim (Option-cases (list_transition_ids listed' m'.disk.files)) [
      | inl q ↦ rw (q, reconcile_transitions) h'
      | inr (ids, q) ↦ rw (q, reconcile_transitions) (redo_all-NotEnabled env' ids m' id h')
    ]

-- A policy that is stored as enabled after the two reconciliations of a Resume was stored as enabled
-- before them, whatever fails and whatever the journal and the log hold.
pub reconcile_enables_none :
    (listed listed' : Bool) (env env' : String → ReconcileEnv) (m : Recorder) (id : String)
    (p : BackgroundPolicy)
    → let m' = (reconcile_terminal_audits listed env m).0 in
      stored id (reconcile_transitions listed' env' m').0.disk.files ≡ some p
      → p.enabled ≡ true
      → (q : BackgroundPolicy) × (stored id m.disk.files ≡ some q) × (q.enabled ≡ true)
reconcile_enables_none listed listed' env env' m id p e on =
    let kept = λ (h : NotEnabled id m.disk.files).
      (reconciled-NotEnabled listed listed' env env' m id h).off p e in
    elim (Option-cases (stored id m.disk.files)) [
      | inl n ↦ absurd (cc (on, kept (record { off = λ q k. absurd (cc (n, k)) })))
      | inr (q, n) ↦ elim (Bool-cases q.enabled) [
        | inl b ↦ (q, n, b)
        | inr b ↦
            let h : NotEnabled id m.disk.files = record {
              off = λ x k.
                  let same : q ≡ x = ground (arith, n, k) in
                  sym (ap (λ (y : BackgroundPolicy). y.enabled) same) ∙ b;
            } in
            absurd (cc (on, kept h))
      ]
    ]
