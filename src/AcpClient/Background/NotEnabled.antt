-- ===== src/AcpClient/Background/NotEnabled.antt =====
-- A recording of internal/acpclient/background.go enables no policy, whatever fails.
use ratchet_cli.Base.{
  ◌≡◌, refl, sym, ap, ◌∙◌, String, true, false, Option, none, some, ◌++◌, arith, ◌==◌, inl, inr,
  Bool-cases, Option-cases,
}
use ratchet_cli.AcpClient.Background.Keyed.{find_by}
use ratchet_cli.AcpClient.Background.Policies.{
  Action, BackgroundPolicy, Transition, policy_key, SaveReply, is_refused, Files, trimmed,
  upserted_policies, upsert_trimmed, upsert, put_transition, remove_transition,
}
use ratchet_cli.AcpClient.Background.Audit.{append}
use ratchet_cli.AcpClient.Background.Recording.{
  Disk, state_failed, RecordEnv, joined, audit_errors, audit_record, append_audit, with_degraded,
  on_files, clear_journal, record_state, persist_terminal_transition, persist_terminal,
}
use ratchet_cli.AcpClient.Background.StoreLaws.{
  stored, find_by-upserted_policies, remove_transition-Cleared, put_transition-Journaled,
}
use ratchet_cli.AcpClient.Background.Recovery.{List-cases}

-- No policy of the session is stored as enabled.
pub record NotEnabled (id : String) (d : Files) : Type 0 where
  pub off : (p : BackgroundPolicy) → stored id d ≡ some p → p.enabled ≡ false

pub same-NotEnabled :
    (id : String) (d d' : Files) → d'.policies ≡ d.policies → NotEnabled id d → NotEnabled id d'
same-NotEnabled id d d' e h = record {
  off = λ p q. h.off p (sym (ap (find_by policy_key id) e) ∙ q);
}

upsert_trimmed-NotEnabled :
    (reply : SaveReply) (p : BackgroundPolicy) (d : Files) (id : String)
    → p.enabled ≡ false
    → NotEnabled id d
    → NotEnabled id (upsert_trimmed reply p d).0
unfolding upsert_trimmed
upsert_trimmed-NotEnabled reply p d id off h = elim (Bool-cases (p.session_id == "")) [
  | inl a ↦ simp (a, upsert_trimmed) h
  | inr a ↦ elim (Bool-cases (p.profile == "")) [
    | inl b ↦ simp (a, b, upsert_trimmed) h
    | inr b ↦ elim (Bool-cases (is_refused reply)) [
      | inl c ↦ simp (a, b, c, upsert_trimmed) h
      | inr c ↦
          let d' : Files = record d { policies = upserted_policies p d.policies } in
          let h' : NotEnabled id d' = record {
            off = λ q e.
                let f = sym (find_by-upserted_policies p d.policies id) ∙ e in
                elim (Bool-cases (p.session_id == id)) [
                  | inl k ↦
                      let same : Option.some p ≡ some q = rw k at f in
                      let same' : p ≡ q = ground (arith, same) in
                      sym (ap (λ (x : BackgroundPolicy). x.enabled) same') ∙ off
                  | inr k ↦ h.off q (rw k at f)
                ];
          } in
          simp (a, b, c, upsert_trimmed) h'
    ]
  ]
]

pub upsert-NotEnabled :
    (reply : SaveReply) (p : BackgroundPolicy) (d : Files) (id : String)
    → p.enabled ≡ false
    → NotEnabled id d
    → NotEnabled id (upsert reply p d).0
unfolding upsert trimmed
upsert-NotEnabled reply p d id off h = upsert_trimmed-NotEnabled reply (trimmed p) d id off h

clear_journal-NotEnabled :
    (env : RecordEnv) (p : BackgroundPolicy) (d : Disk) (id : String)
    → NotEnabled id d.files
    → NotEnabled id (clear_journal env p d).0.files
unfolding clear_journal on_files
clear_journal-NotEnabled env p d id h =
    let cleared = (remove_transition env.clear p.session_id d.files).0 in
    let gone = remove_transition-Cleared env.clear p.session_id d.files in
    let h' = same-NotEnabled id d.files cleared gone.policies h in
    elim (Option-cases (remove_transition env.clear p.session_id d.files).1) [
      | inl q ↦ rw (q, clear_journal) h'
      | inr (x, q) ↦
          rw (q, clear_journal)
            (upsert-NotEnabled env.downgrade (with_degraded true p) cleared id refl h')
    ]

pub record_state-NotEnabled :
    (env : RecordEnv) (t : Transition) (d : Disk) (id : String)
    → NotEnabled id d.files
    → NotEnabled id (record_state env t d).0.files
unfolding record_state on_files append_audit
record_state-NotEnabled env t d id h =
    let p = with_degraded true t.policy in
    let t' : Transition = record t { policy = p } in
    let es = audit_errors (append env.audit (audit_record t') d.audit).1 in
    let d1 = (upsert env.state p d.files).0 in
    let h1 = upsert-NotEnabled env.state p d.files id refl h in
    let settled = with_degraded false t.policy in
    let h2 = upsert-NotEnabled env.final settled d1 id refl h1 in
    elim (List-cases (joined state_failed (upsert env.state p d.files).1 ++ es)) [
      | inr (x, xs, q) ↦ rw (q, record_state) h1
      | inl q ↦ elim (Option-cases (upsert env.final settled d1).1) [
        | inr (x, n) ↦ rw (q, n, record_state) h2
        | inl n ↦ rw (q, n, record_state) (clear_journal-NotEnabled env settled _ id h2)
      ]
    ]

pub persist_terminal-NotEnabled :
    (env : RecordEnv) (event : Option String) (p : BackgroundPolicy) (action : Action) (d : Disk)
    (id : String)
    → NotEnabled id d.files
    → NotEnabled id (persist_terminal env event p action d).0.files
unfolding persist_terminal persist_terminal_transition on_files
persist_terminal-NotEnabled env none p action d id h = h
persist_terminal-NotEnabled env (some event) p action d id h =
    let t : Transition = record { policy = p; action = action; event_id = event } in
    let t' : Transition = record t { policy = with_degraded true p } in
    let put = put_transition-Journaled env.journal t' d.files in
    let h' = same-NotEnabled id d.files (put_transition env.journal t' d.files).0 put.policies h in
    elim (Option-cases (put_transition env.journal t' d.files).1) [
      | inr (x, q) ↦ rw (q, persist_terminal_transition) h'
      | inl q ↦ rw (q, persist_terminal_transition) (record_state-NotEnabled env t _ id h')
    ]
