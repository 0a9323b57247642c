-- ===== src/AcpClient/Background/LaunchLaws.antt =====
-- What persistBeforeLaunch of internal/acpclient/background.go leaves on the disk: a launch that fails
-- leaves no policy enabled that a Resume would start before it has reconciled the journal.
use mathlib.Core.Path.{subst}
use ratchet_cli.Base.{
  ◌≡◌, ◌≢◌, refl, sym, ap, ◌∙◌, String, false, Option, none, some, List, [], ◌∷◌, ◌⊎◌, inl, inr,
  Option-cases,
}
use ratchet_cli.AcpClient.Background.Keyed.{find_by}
use ratchet_cli.AcpClient.Background.Policies.{
  BackgroundPolicy, Transition, policy_key, transition_key, Files, Outcome, state_write_failed,
  audit_append_failed, Action, unconfirmed, upsert, put_transition, remove_transition,
}
use ratchet_cli.AcpClient.Background.Audit.{append}
use ratchet_cli.AcpClient.Background.Recording.{
  Disk, RecordingError, journal_failed, state_failed, clear_failed, RecordEnv, audit_errors,
  audit_record, append_audit, on_files, persist_terminal,
}
use ratchet_cli.AcpClient.Background.Reconcile.{Recorder, recording_failure}
use ratchet_cli.AcpClient.Background.Launching.{
  LaunchEnv, fail_launch, finish_launch, persist_before_launch,
}
use ratchet_cli.AcpClient.Background.Log.{count_id, IsLog, append-Appended}
use ratchet_cli.AcpClient.Background.StoreLaws.{
  stored, journal_at, IsTrimmed, upsert-Upserted, put_transition-Journaled,
  remove_transition-Cleared, remove_transition-failed,
}
use ratchet_cli.AcpClient.Background.Recovery.{List-cases, no_audit_errors}
use ratchet_cli.AcpClient.Background.Redo.{persist_terminal-cases}

-- The stored policy of the session is as before or disabled, or the journal has an entry of the session.
abbrev pub Guarded : String → Files → Files → Type 0
Guarded id before d =
    (stored id d ≡ stored id before)
    ⊎ ((p : BackgroundPolicy) × (stored id d ≡ some p) × (p.enabled ≡ false))
    ⊎ ((t : Transition) × (journal_at id d ≡ some t))

persist_terminal-Guarded :
    (env : RecordEnv) (event : Option String) (p : BackgroundPolicy) (action : Action)
    (before : Files) (d : Disk)
    → IsTrimmed p
    → IsLog d.audit
    → Guarded p.session_id before d.files
    → Guarded p.session_id before (persist_terminal env event p action d).0.files
unfolding persist_terminal
persist_terminal-Guarded env none p action before d h l g = g
persist_terminal-Guarded env (some id) p action before d h l g =
    let t : Transition = record { policy = p; action = action; event_id = id } in
    elim (persist_terminal-cases env t d h l) [
      | inl (same, e) ↦ subst (λ (x : Disk). Guarded p.session_id before x.files) (sym same) g
      | inr (inl (j, l', e)) ↦ inr (inr (_, j))
      | inr (inr (b, s, e)) ↦ inr (inl (_, s.policy, refl))
    ]

fail_launch-Guarded :
    (env : LaunchEnv) (o : Outcome) (e : RecordingError) (es : List RecordingError)
    (p : BackgroundPolicy) (before : Files) (m : Recorder)
    → IsTrimmed p
    → IsLog m.disk.audit
    → Guarded p.session_id before m.disk.files
    → let (m', status, all) = fail_launch env o (e ∷ es) p m in
      (all ≢ []) × Guarded p.session_id before m'.disk.files
unfolding fail_launch
fail_launch-Guarded env o e es p before m h l g =
    let failed = recording_failure env.now o p in
    let h' : IsTrimmed failed = record {
      session_id = h.session_id;
      profile = h.profile;
      has_session = h.has_session;
      has_profile = h.has_profile;
    } in
    (
      λ n. absurd (cc n),
      persist_terminal-Guarded env.recording env.failure_event failed Action.error before m.disk h'
          l g,
    )

-- What a launch that is told to go ahead has on the disk.
pub record Launched (env : LaunchEnv) (p : BackgroundPolicy) (d : Disk) : Type 0 where
  pub policy : stored p.session_id d.files ≡ some p
  pub cleared : journal_at p.session_id d.files ≡ none
  pub event : String
  pub drawn : env.event ≡ some event
  pub logged : count_id event d.audit.lines ≡ 1

abbrev pub Finished :
    LaunchEnv
    → BackgroundPolicy
    → Files
    → Recorder × BackgroundPolicy × List RecordingError
    → Type 0
Finished env p before (m', status, es) =
    ((es ≡ []) × (status ≡ p) × Launched env p m'.disk)
    ⊎ ((es ≢ []) × (Guarded p.session_id before m'.disk.files ⊎ (env.clear ≡ unconfirmed)))

finish_launch-Finished :
    (env : LaunchEnv) (p : BackgroundPolicy) (t : Transition) (before : Files) (m : Recorder)
    → IsTrimmed p
    → IsLog m.disk.audit
    → env.event ≡ some t.event_id
    → stored p.session_id m.disk.files ≡ some p
    → journal_at p.session_id m.disk.files ≡ some t
    → Finished env p before (finish_launch env p t m)
unfolding finish_launch on_files append_audit
finish_launch-Finished env p t before m h l ev s k =
    let key = p.session_id in
    let files = m.disk.files in
    let log = append-Appended env.audit (audit_record t) m.disk.audit l in
    let file = (append env.audit (audit_record t) m.disk.audit).0 in
    let d4 = (remove_transition env.clear key files).0 in
    let out = remove_transition-Cleared env.clear key files in
    let at = λ (f : Files). record m { disk = record { files = f; audit = file } } in
    let waiting : Guarded key before files = inr (inr (t, k)) in
    elim (List-cases (audit_errors (append env.audit (audit_record t) m.disk.audit).1)) [
      | inr (e, es, n3) ↦
          let (some_error, g) =
            fail_launch-Guarded env audit_append_failed e es p before (at files) h log.log
              waiting in
          inr (rw (n3, finish_launch) (some_error, inl g))
      | inl n3 ↦ elim (Option-cases (remove_transition env.clear key files).1) [
        | inl n4 ↦ inl (
            rw (n3, n4, finish_launch)
              (
                refl,
                refl,
                record {
                  policy = ap (find_by policy_key key) out.policies ∙ s;
                  cleared = out.done n4;
                  event = t.event_id;
                  drawn = ev;
                  logged = log.done (no_audit_errors _ n3);
                },
              ))
        | inr (x, n4) ↦ elim (remove_transition-failed env.clear key files x n4) [
          | inl u ↦ inr (rw (n3, n4, finish_launch) (λ e. absurd (cc e), inr u))
          | inr same ↦
              let (some_error, g) =
                fail_launch-Guarded env state_write_failed (clear_failed x) [] p before (at d4) h
                  log.log (subst (Guarded key before) (sym same) waiting) in
              inr (rw (n3, n4, finish_launch) (some_error, inl g))
        ]
      ]
    ]

-- For a policy of trimmed names and a log that can be read and has no record twice, whatever fails:
-- persistBeforeLaunch reports no error, and then the policy is stored, the log has the event once and
-- the journal has no entry of the session; or it reports one, and then the stored policy is the earlier
-- one or disabled, or the journal has an entry of the session, unless the removal of the entry was
-- made and reported as failed.
pub launch_guarded :
    (env : LaunchEnv) (p : BackgroundPolicy) (action : Action) (m : Recorder)
    → IsTrimmed p
    → IsLog m.disk.audit
    → Finished env p m.disk.files (persist_before_launch env p action m)
unfolding persist_before_launch on_files
launch_guarded env p action m h l = elim (Option-cases env.event) [
  | inl n ↦ inr (rw (n, persist_before_launch) ((λ e. absurd (cc e)), inl (inl refl)))
  | inr (id, ev) ↦
      let t : Transition = record { policy = p; action = action; event_id = id } in
      let key = p.session_id in
      let files = m.disk.files in
      let d1 = (put_transition env.journal t files).0 in
      let put = put_transition-Journaled env.journal t files in
      let d2 = (upsert env.state p d1).0 in
      let up = upsert-Upserted env.state p d1 h in
      let old : stored key d1 ≡ stored key files = ap (find_by policy_key key) put.policies in
      let at = λ (f : Files). record m { disk = record m.disk { files = f } } in
      elim (Option-cases (put_transition env.journal t files).1) [
        | inr (x, n1) ↦
            let (some_error, g) =
              fail_launch-Guarded env state_write_failed (journal_failed x) [] p files (at d1) h l
                (inl old) in
            inr (rw (ev, n1, persist_before_launch) (some_error, inl g))
        | inl n1 ↦
            let kept : journal_at key d2 ≡ some t =
              ap (find_by transition_key key) up.transitions ∙ put.done n1 in
            elim (Option-cases (upsert env.state p d1).1) [
              | inr (x, n2) ↦
                  let (some_error, g) =
                    fail_launch-Guarded env state_write_failed (state_failed x) [] p files (at d2) h
                      l (inr (inr (t, kept))) in
                  inr (rw (ev, n1, n2, persist_before_launch) (some_error, inl g))
              | inl n2 ↦
                  let end : persist_before_launch env p action m ≡ finish_launch env p t (at d2) =
                    rw (ev, n1, n2, persist_before_launch) refl in
                  subst (Finished env p files) (sym end)
                    (finish_launch-Finished env p t files (at d2) h l ev (up.done n2) kept)
            ]
      ]
]
