-- ===== src/AcpClient/Background/Recovery.antt =====
-- What a recording of internal/acpclient/background.go leaves when it fails on the way, and what the
-- next reconciliation makes of it.
use ratchet_cli.Base.{
  ◌≡◌, ◌≢◌, refl, ap, ◌∙◌, Bool, true, false, Option, none, some, List, [], ◌∷◌, ◌++◌, ◌⊎◌, inl,
  inr, Option-cases,
}
use ratchet_cli.AcpClient.Background.Keyed.{find_by}
use ratchet_cli.AcpClient.Background.Policies.{
  transition_key, BackgroundPolicy, Transition, PolicyError, upsert, remove_transition,
}
use ratchet_cli.AcpClient.Background.Audit.{
  AuditRecord, AuditError, AuditFile, AppendEnv, validate_record, append,
}
use ratchet_cli.AcpClient.Background.Recording.{
  Disk, RecordingError, degraded, state_failed, RecordingResult, RecordEnv, joined, audit_errors,
  audit_record, append_audit, with_degraded, on_files, clear_journal, record_state,
}
use ratchet_cli.AcpClient.Background.Log.{count_id, IsLog, append-Appended}
use ratchet_cli.AcpClient.Background.StoreLaws.{
  stored, journal_at, IsTrimmed, upsert-Upserted, remove_transition-Cleared,
}

-- A transition that the log accepts, of a policy with trimmed names.
pub record IsSound (t : Transition) : Type 0 where
  pub trimmed : IsTrimmed t.policy
  pub accepted : validate_record (audit_record t) ≡ none

-- The outcome of the transition is in all three places.
pub record Settled (t : Transition) (b : Bool) (d : Disk) : Type 0 where
  pub policy : stored t.policy.session_id d.files ≡ some (with_degraded b t.policy)
  pub logged : count_id t.event_id d.audit.lines ≡ 1
  pub cleared : journal_at t.policy.session_id d.files ≡ none
  pub log : IsLog d.audit

-- The recording has failed, and the journal has what it had.
pub record Interrupted (t : Transition) (before d : Disk) (r : RecordingResult) : Type 0 where
  pub journal : journal_at t.policy.session_id d.files ≡ journal_at t.policy.session_id before.files
  pub log : IsLog d.audit
  pub why : List RecordingError
  pub failed : r.errors ≡ degraded ∷ why

abbrev pub Recorded : Transition → Disk → Disk × RecordingResult → Type 0
Recorded t before (d, r) =
    Interrupted t before d r ⊎ ((b : Bool) × Settled t b d × (r.errors ≡ [] → b ≡ false))

abbrev pub settled_policy : Transition → BackgroundPolicy
settled_policy t = with_degraded false t.policy

pub trimmed_degraded :
    (b : Bool) (p : BackgroundPolicy) → IsTrimmed p → IsTrimmed (with_degraded b p)
trimmed_degraded b p h = record {
  session_id = h.session_id;
  profile = h.profile;
  has_session = h.has_session;
  has_profile = h.has_profile;
}

clear_journal-Recorded :
    (env : RecordEnv) (t : Transition) (before d : Disk)
    → IsTrimmed t.policy
    → IsLog d.audit
    → count_id t.event_id d.audit.lines ≡ 1
    → stored t.policy.session_id d.files ≡ some (settled_policy t)
    → journal_at t.policy.session_id d.files ≡ journal_at t.policy.session_id before.files
    → Recorded t before (clear_journal env (settled_policy t) d)
unfolding clear_journal on_files
clear_journal-Recorded env t before d h l c s j =
    let id = t.policy.session_id in
    let gone = remove_transition-Cleared env.clear id d.files in
    let cleared = (remove_transition env.clear id d.files).0 in
    let p' = with_degraded true t.policy in
    let kept = upsert-Upserted env.downgrade p' cleared (trimmed_degraded true t.policy h) in
    let same : journal_at id (upsert env.downgrade p' cleared).0 ≡ journal_at id cleared =
      ap (find_by transition_key id) kept.transitions in
    let s' : stored id cleared ≡ some (settled_policy t) = rw (gone.policies) s in
    elim (Option-cases (remove_transition env.clear id d.files).1) [
      | inl q ↦
          rw (q, clear_journal)
            (inr (
              false,
              record { policy = s'; logged = c; cleared = gone.done q; log = l },
              λ e. refl,
            ))
      | inr (x, q) ↦
          rw (q, clear_journal)
            (elim gone.either [
              | inr g ↦ inl (record { journal = same ∙ g ∙ j; log = l; why = _; failed = refl })
              | inl g ↦ elim kept.either [
                | inl k ↦ inr (
                  true,
                  record { policy = k; logged = c; cleared = same ∙ g; log = l },
                  λ e. absurd (cc e),
                )
                | inr k ↦ inr (
                  false,
                  record { policy = k ∙ s'; logged = c; cleared = same ∙ g; log = l },
                  λ e. refl,
                )
              ]
            ])
    ]

pub no_audit_errors : (es : List AuditError) → audit_errors es ≡ [] → es ≡ []
unfolding audit_errors
no_audit_errors [] h = refl
no_audit_errors (e ∷ es) h = absurd (cc h)

pub List-cases {ℓ} :
    {A : Type ℓ} (xs : List A) → (xs ≡ []) ⊎ ((x : A) × (rest : List A) × (xs ≡ x ∷ rest))
List-cases [] = inl refl
List-cases (x ∷ xs) = inr (x, xs, refl)

pub both_none :
    (f : PolicyError → RecordingError) (e : Option PolicyError) (es : List RecordingError)
    → joined f e ++ es ≡ []
    → (e ≡ none) × (es ≡ [])
both_none f none es h = (refl, h)
both_none f (some e) es h = absurd (cc h)

-- Whatever fails, the log has no record twice; and the journal has what it had, or the outcome is
-- recorded.
pub record_state-Recorded :
    (env : RecordEnv) (t : Transition) (before d : Disk)
    → IsTrimmed t.policy
    → IsLog d.audit
    → journal_at t.policy.session_id d.files ≡ journal_at t.policy.session_id before.files
    → Recorded t before (record_state env t d)
unfolding record_state on_files append_audit
record_state-Recorded env t before d h l j =
    let id = t.policy.session_id in
    let p = with_degraded true t.policy in
    let t' : Transition = record t { policy = p } in
    let first = upsert-Upserted env.state p d.files (trimmed_degraded true t.policy h) in
    let d1 = (upsert env.state p d.files).0 in
    let logged = append-Appended env.audit (audit_record t') d.audit l in
    let last =
      upsert-Upserted env.final (settled_policy t) d1 (trimmed_degraded false t.policy h) in
    let d2 = (upsert env.final (settled_policy t) d1).0 in
    let j1 : journal_at id d1 ≡ journal_at id before.files =
      ap (find_by transition_key id) first.transitions ∙ j in
    let j2 : journal_at id d2 ≡ journal_at id before.files =
      ap (find_by transition_key id) last.transitions ∙ j1 in
    let es = audit_errors (append env.audit (audit_record t') d.audit).1 in
    elim (List-cases (joined state_failed (upsert env.state p d.files).1 ++ es)) [
      | inr (x, xs, q) ↦
          rw (q, record_state)
            (inl (record { journal = j1; log = logged.log; why = _; failed = refl }))
      | inl q ↦
          let (none_first, none_logged) = both_none state_failed _ es q in
          elim (Option-cases (upsert env.final (settled_policy t) d1).1) [
            | inr (x, n) ↦
                rw (q, n, record_state)
                  (inl (record { journal = j2; log = logged.log; why = _; failed = refl }))
            | inl n ↦
                rw (q, n, record_state)
                  (clear_journal-Recorded env t before _ h logged.log
                    (logged.done (no_audit_errors _ none_logged)) (last.done n) j2)
          ]
    ]

-- For a log that can be read and has no record twice, and any failures: Append leaves such a log, and
-- either reports an error or the log has the record once.
pub append_once :
    (env : AppendEnv) (r : AuditRecord) (f : AuditFile)
    → IsLog f
    → let (f', es) = append env r f in IsLog f' × ((es ≢ []) ⊎ (count_id r.record_id f'.lines ≡ 1))
append_once env r f h =
    let a = append-Appended env r f h in
    (
      a.log,
      elim (List-cases (append env r f).1) [
        | inl n ↦ inr (a.done n)
        | inr (e, es, n) ↦ inl (λ k. absurd (cc (n, k)))
      ],
    )
