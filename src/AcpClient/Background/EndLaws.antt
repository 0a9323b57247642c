-- ===== src/AcpClient/Background/EndLaws.antt =====
-- What a manager of internal/acpclient/background.go reports of a worker that has ended.
use mathlib.Core.Path.{subst}
use ratchet_cli.Base.{
  ℕ, ◌≡◌, refl, sym, ap, ◌∙◌, String, Bool, true, false, not, ◌||◌, ◌&&◌, Option, none, some, List,
  [], ◌∷◌, ◌++◌, ◌==◌, eq_refl, ◌⊎◌, inl, inr, if◌then◌else◌, Bool-cases, Option-cases,
}
use ratchet_cli.Base.Dict.{lookup, lookup-insert}
use ratchet_cli.AcpClient.Records.{is_found}
use ratchet_cli.AcpClient.Background.Policies.{
  Outcome, Action, BackgroundPolicy, Transition, SaveReply, landed, refused, unconfirmed, upsert,
  put_transition, remove_transition,
}
use ratchet_cli.AcpClient.Background.Audit.{append}
use ratchet_cli.AcpClient.Background.Recording.{
  Disk, RecordingError, lock_failed, state_failed, RecordingResult, RecordEnv, joined, audit_errors,
  audit_record, append_audit, with_degraded, on_files, clear_journal, record_state,
  persist_terminal_transition, persist_terminal,
}
use ratchet_cli.AcpClient.Background.Reconcile.{TerminalGuard, Recorder, remember_terminal}
use ratchet_cli.AcpClient.Background.Launching.{admission_failure_result}
use ratchet_cli.AcpClient.Background.Ending.{
  WorkerError, cancellation_only, is_manager_cancellation, EndEnv, Verdict, verdict, ended_policy,
  unreleased, nothing_recorded, end_recording, remember_end, end_admitted, end_worker,
}
use ratchet_cli.AcpClient.Background.Recovery.{List-cases}

-- The result is of the session and not enabled.
pub record IsOff (id : String) (p : BackgroundPolicy) : Type 0 where
  pub session : p.session_id ≡ id
  pub disabled : p.enabled ≡ false

with_degraded-IsOff : (b : Bool) (p : BackgroundPolicy) → IsOff p.session_id (with_degraded b p)
with_degraded-IsOff b p = record { session = refl; disabled = refl }

clear_journal-IsOff :
    (env : RecordEnv) (p : BackgroundPolicy) (d : Disk)
    → p.enabled ≡ false
    → IsOff p.session_id (clear_journal env p d).1.policy
unfolding clear_journal on_files
clear_journal-IsOff env p d off =
    elim (Option-cases (remove_transition env.clear p.session_id d.files).1) [
      | inl q ↦ simp (q, clear_journal) (record { session = refl; disabled = off })
      | inr (x, q) ↦ simp (q, clear_journal) (with_degraded-IsOff true p)
    ]

record_state-IsOff :
    (env : RecordEnv) (t : Transition) (d : Disk)
    → IsOff t.policy.session_id (record_state env t d).1.policy
unfolding record_state on_files append_audit
record_state-IsOff env t d =
    let p = with_degraded true t.policy in
    let t' : Transition = record t { policy = p } in
    let es = audit_errors (append env.audit (audit_record t') d.audit).1 in
    let d1 = (upsert env.state p d.files).0 in
    let settled = with_degraded false t.policy in
    elim (List-cases (joined state_failed (upsert env.state p d.files).1 ++ es)) [
      | inr (x, xs, q) ↦ simp (q, record_state) (with_degraded-IsOff true t.policy)
      | inl q ↦ elim (Option-cases (upsert env.final settled d1).1) [
        | inr (x, n) ↦ simp (q, n, record_state) (with_degraded-IsOff true t.policy)
        | inl n ↦ simp (q, n, record_state) (clear_journal-IsOff env settled _ refl)
      ]
    ]

persist_terminal-IsOff :
    (env : RecordEnv) (event : Option String) (p : BackgroundPolicy) (action : Action) (d : Disk)
    → p.enabled ≡ false
    → IsOff p.session_id (persist_terminal env event p action d).1.policy
unfolding persist_terminal persist_terminal_transition on_files
persist_terminal-IsOff env none p action d off = record { session = refl; disabled = off }
persist_terminal-IsOff env (some id) p action d off =
    let t : Transition = record { policy = p; action = action; event_id = id } in
    let t' : Transition = record t { policy = with_degraded true p } in
    elim (Option-cases (put_transition env.journal t' d.files).1) [
      | inr (x, q) ↦ simp (q, persist_terminal_transition) (with_degraded-IsOff true p)
      | inl q ↦ simp (q, persist_terminal_transition) (record_state-IsOff env t _)
    ]

ended-IsOff :
    (v : Verdict) (now : ℕ) (p : BackgroundPolicy) → IsOff p.session_id (ended_policy v now p).0
unfolding ended_policy
ended-IsOff v now p = elim (Bool-cases v.by_session) [
  | inl q ↦ simp (q, ended_policy) (record { session = refl; disabled = refl })
  | inr q ↦ elim (Bool-cases v.failed) [
    | inl r ↦ simp (q, r, ended_policy) (record { session = refl; disabled = refl })
    | inr r ↦ simp (q, r, ended_policy) (record { session = refl; disabled = refl })
  ]
]

-- The manager reports the session, and not as enabled.
abbrev pub Reported : String → Recorder → Type 0
Reported id m = (g : TerminalGuard) × (lookup id m.terminal ≡ some g) × (g.status.enabled ≡ false)

remember-Reported :
    (id : String) (r : RecordingResult) (m : Recorder)
    → IsOff id r.policy
    → Reported id (remember_terminal r m)
unfolding remember_terminal
remember-Reported id r m off = (
  record {
    status = r.policy;
    state_recorded = r.state_recorded;
    audit_recorded = r.audit_recorded;
  },
  lookup-insert r.policy.session_id id _ m.terminal ∙ rw (off.session, eq_refl id) refl,
  off.disabled,
)

admission-IsOff :
    (p : BackgroundPolicy) (r : RecordingResult) (es : List RecordingError) (now : ℕ)
    → (r.policy.session_id == "" ≡ true) ⊎ IsOff p.session_id r.policy
    → IsOff p.session_id (admission_failure_result p r es now).policy
unfolding admission_failure_result
admission-IsOff p r es now h = elim (Bool-cases (r.policy.session_id == "")) [
  | inl q ↦ simp (q, admission_failure_result) (record { session = refl; disabled = refl })
  | inr q ↦ elim h [
    | inl k ↦ absurd (cc (q, k))
    | inr k ↦
        simp (q, admission_failure_result) (record { session = k.session; disabled = k.disabled })
  ]
]

-- what is remembered, with the branch of a lease that is not released
kept-IsOff :
    (released : Bool) (now : ℕ) (p : BackgroundPolicy) (r : RecordingResult)
    → (released ≡ false) ⊎ IsOff p.session_id r.policy
    → IsOff p.session_id (if released then r else unreleased now p r).policy
kept-IsOff false now p r h = record { session = refl; disabled = refl }
kept-IsOff true now p r (inl q) = absurd (cc q)
kept-IsOff true now p r (inr off) = off

recording-IsOff :
    (env : EndEnv) (v : Verdict) (p : BackgroundPolicy) (d : Disk)
    → let r = (end_recording env v p d).1 in
      (v.by_manager ≡ true → end_recording env v p d ≡ (d, nothing_recorded p))
      × (v.by_manager ≡ false → IsOff p.session_id r.policy)
unfolding end_recording
recording-IsOff env v p d =
    let q = (ended_policy v env.now p).0 in
    let action = (ended_policy v env.now p).1 in
    let r = (persist_terminal env.recording env.event q action d).1 in
    let h = ended-IsOff v env.now p in
    (
      λ b. rw (b, end_recording) refl,
      λ b.
          simp (b, end_recording)
            (subst (λ (k : String). IsOff k r.policy) (h.session)
              (persist_terminal-IsOff env.recording env.event q action d h.disabled)),
    )

remember_end-Reported :
    (env : EndEnv) (p : BackgroundPolicy) (r : RecordingResult) (m : Recorder)
    → (env.released ≡ false) ⊎ IsOff p.session_id r.policy
    → Reported p.session_id (remember_end env p r m)
unfolding remember_end
remember_end-Reported env p r m h =
    let kept = if env.released then r else unreleased env.now p r in
    remember-Reported p.session_id kept m (kept-IsOff env.released env.now p r h)

abbrev pub is_landed : SaveReply → Bool
is_landed landed = true
is_landed _ = false

-- whether the worker's session answers whether it is cancelled, and its cancellation is not what ended
-- the worker
abbrev pub is_uncalled : Option Bool → Option WorkerError → Bool
is_uncalled none e = false
is_uncalled (some asked) e = not (asked && (not (is_found e) || cancellation_only e))

-- Where nothing changes, and where the manager reports the session.
abbrev pub EndsBy : Bool → String → Recorder → Recorder → Type 0
EndsBy stays id m m' = ((stays ≡ true) × (m' ≡ m)) ⊎ ((stays ≡ false) × Reported id m')

admitted-EndsBy :
    (env : EndEnv) (admission : SaveReply) (v : Verdict) (p : BackgroundPolicy) (m : Recorder)
    → EndsBy
        (is_landed admission && (v.by_manager && env.released))
        p.session_id
        m
        (end_admitted env admission v p m)
unfolding end_admitted
admitted-EndsBy env refused v p m =
    let failed = admission-IsOff p (nothing_recorded p) (lock_failed ∷ []) env.now (inl refl) in
    let r = admission_failure_result p (nothing_recorded p) (lock_failed ∷ []) env.now in
    inr (refl, remember_end-Reported env p r m (inr failed))
admitted-EndsBy env unconfirmed v p m =
    let r = (end_recording env v p m.disk).1 in
    let (nothing, off) = recording-IsOff env v p m.disk in
    let known : (r.policy.session_id == "" ≡ true) ⊎ IsOff p.session_id r.policy =
      elim (Bool-cases v.by_manager) [
        | inl b ↦ inl (ap (λ (x : Disk × RecordingResult). x.1.policy.session_id == "") (nothing b))
        | inr b ↦ inr (off b)
      ] in
    let failed = admission-IsOff p r (lock_failed ∷ []) env.now known in
    let r' = admission_failure_result p r (lock_failed ∷ []) env.now in
    let m' : Recorder = record m { disk = (end_recording env v p m.disk).0 } in
    inr (refl, remember_end-Reported env p r' m' (inr failed))
admitted-EndsBy env landed v p m =
    let r = (end_recording env v p m.disk).1 in
    let (nothing, off) = recording-IsOff env v p m.disk in
    let m' : Recorder = record m { disk = (end_recording env v p m.disk).0 } in
    let remembered =
      λ (stops : v.by_manager && env.released ≡ false)
          (k : Reported p.session_id (remember_end env p r m')).
        subst (Reported p.session_id)
          (sym (ap (λ (c : Bool). if c then m' else remember_end env p r m') stops)) k in
    elim (Bool-cases v.by_manager) [
      | inr b ↦
          let stops : v.by_manager && env.released ≡ false = rw b refl in
          inr (stops, remembered stops (remember_end-Reported env p r m' (inr (off b))))
      | inl b ↦ elim (Bool-cases env.released) [
        | inr q ↦
            let stops : v.by_manager && env.released ≡ false = rw (b, q) refl in
            inr (stops, remembered stops (remember_end-Reported env p r m' (inl q)))
        | inl q ↦
            let stays : v.by_manager && env.released ≡ true = rw (b, q) refl in
            inl (stays, simp (b, q) refl)
      ]
    ]

verdict-by_manager :
    (env : EndEnv) (o : Outcome) (e : Option WorkerError)
    → (verdict env o e).by_manager
      ≡ (is_uncalled env.cancellation e && is_manager_cancellation env.cause e)
unfolding verdict
verdict-by_manager env o e = elim (Option-cases env.cancellation) [
  | inl q ↦ rw (q, verdict) refl
  | inr (asked, q) ↦ elim (Bool-cases (asked && (not (is_found e) || cancellation_only e))) [
    | inl b ↦ rw (q, b, verdict) refl
    | inr b ↦ rw (q, b, verdict) refl
  ]
]

-- Of a worker that owns its recording: if the lock of the launch admission was taken and released, the
-- session's record was read and does not cancel the worker, the worker ended by the stop or the shutdown
-- of its manager, and the lease was released, then the policies, the journal, the log and what the
-- manager reports are unchanged. In every other case, whatever fails, the manager reports the session of
-- the worker's policy as not enabled.
pub worker_ended :
    (env : EndEnv) (o : Outcome) (e : Option WorkerError) (p : BackgroundPolicy) (m : Recorder)
    → let m' = end_worker env o e p m in
      let by_manager = is_uncalled env.cancellation e && is_manager_cancellation env.cause e in
      let stays = is_landed env.admission && (by_manager && env.released) in
      ((stays ≡ true) × (m' ≡ m)) ⊎ ((stays ≡ false) × Reported p.session_id m')
unfolding end_worker
worker_ended env o e p m =
    let m' = end_admitted env env.admission (verdict env o e) p m in
    subst (λ (b : Bool). EndsBy (is_landed env.admission && (b && env.released)) p.session_id m m')
      (verdict-by_manager env o e) (admitted-EndsBy env env.admission (verdict env o e) p m)
