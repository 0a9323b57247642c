-- ===== src/AcpClient/Background/Recording.antt =====
-- How internal/acpclient/background.go records what becomes of a policy: the journal entry first, then
-- the policy, then the audit record, and the journal is cleared last. The event ids are there, an
-- `Option String` that is none where the random source fails.
use ratchet_cli.Base.{
  String, Bool, true, false, not, Option, none, some, List, [], ◌∷◌, ◌++◌, if◌then◌else◌,
}
use ratchet_cli.AcpClient.Background.Policies.{
  Action, BackgroundPolicy, Transition, Files, SaveReply, PolicyError, upsert, put_transition,
  remove_transition,
}
use ratchet_cli.AcpClient.Background.Audit.{AuditRecord, AuditError, AuditFile, AppendEnv, append}

-- What a process leaves on the disk.
pub record Disk : Type 0 where
  pub files : Files
  pub audit : AuditFile

pub data RecordingError : Type 0 where
  degraded no_event_id lock_failed : RecordingError
  journal_failed state_failed clear_failed : PolicyError → RecordingError
  audit_failed : AuditError → RecordingError

-- backgroundRecordingResult, with the joined errors
pub record RecordingResult : Type 0 where
  pub policy : BackgroundPolicy
  pub state_recorded : Bool
  pub audit_recorded : Bool
  pub errors : List RecordingError

-- The calls of one recording, in their order.
pub record RecordEnv : Type 0 where
  pub journal : SaveReply
  pub state : SaveReply
  pub audit : AppendEnv
  pub final : SaveReply
  pub clear : SaveReply
  pub downgrade : SaveReply

abbrev pub joined : (PolicyError → RecordingError) → Option PolicyError → List RecordingError
joined wrap none = []
joined wrap (some e) = wrap e ∷ []

unfoldable pub audit_errors : List AuditError → List RecordingError
audit_errors [] = []
audit_errors (e ∷ es) = audit_failed e ∷ audit_errors es

-- the record of appendAudit
abbrev pub audit_record : Transition → AuditRecord
audit_record t = record {
  record_id = t.event_id;
  at = t.policy.updated_at;
  action = t.action;
  session_id = t.policy.session_id;
  profile = t.policy.profile;
  descriptor_hash = t.policy.descriptor_hash;
  outcome = t.policy.outcome;
}

-- appendAudit
unfoldable pub append_audit : AppendEnv → Transition → Disk → Disk × List RecordingError
unfolding append audit_errors
append_audit env t d =
    let (file, es) = append env (audit_record t) d.audit in
    (record d { audit = file }, audit_errors es)

abbrev pub with_degraded : Bool → BackgroundPolicy → BackgroundPolicy
with_degraded b p = record p { enabled = false; persistence_degraded = b }

unfoldable pub on_files : (Files → Files × Option PolicyError) → Disk → Disk × Option PolicyError
on_files f d = let (files, e) = f d.files in (record d { files = files }, e)

-- from the removal of the journal entry on, in persistTerminalTransition
unfoldable pub clear_journal : RecordEnv → BackgroundPolicy → Disk → Disk × RecordingResult
unfolding on_files remove_transition upsert
clear_journal env p d =
    let (cleared, clear_error) = on_files (remove_transition env.clear p.session_id) d in
    let (kept, keep_error) = on_files (upsert env.downgrade (with_degraded true p)) cleared in
    elim clear_error [
      | none ↦ (
        cleared,
        record { policy = p; state_recorded = true; audit_recorded = true; errors = [] },
      )
      | some e ↦ (
        kept,
        record {
          policy = with_degraded true p;
          state_recorded = elim keep_error [ none ↦ true | some _ ↦ false ];
          audit_recorded = true;
          errors = degraded ∷ clear_failed e ∷ joined state_failed keep_error;
        },
      )
    ]

-- from the first write of the policy on, in persistTerminalTransition
unfoldable pub record_state : RecordEnv → Transition → Disk → Disk × RecordingResult
unfolding on_files upsert append_audit clear_journal
record_state env t d =
    let p = with_degraded true t.policy in
    let t' : Transition = record t { policy = p } in
    let (stored, state_error) = on_files (upsert env.state p) d in
    let (audited, audit_es) = append_audit env.audit t' stored in
    let settled = with_degraded false p in
    let (final, final_error) = on_files (upsert env.final settled) audited in
    elim (joined state_failed state_error ++ audit_es) [
      | e ∷ es ↦ (
        audited,
        record {
          policy = p;
          state_recorded = elim state_error [ none ↦ true | some _ ↦ false ];
          audit_recorded = elim audit_es [ [] ↦ true | _ ∷ _ ↦ false ];
          errors = degraded ∷ e ∷ es;
        },
      )
      | [] ↦ elim final_error [
        | some e ↦ (
          final,
          record {
            policy = p;
            state_recorded = true;
            audit_recorded = true;
            errors = degraded ∷ state_failed e ∷ [];
          },
        )
        | none ↦ clear_journal env settled final
      ]
    ]

-- persistTerminalTransition; the flag says whether the journal gets the transition first
unfoldable pub persist_terminal_transition :
    RecordEnv → Transition → Bool → Disk → Disk × RecordingResult
unfolding on_files put_transition record_state
persist_terminal_transition env t persist d =
    let p = with_degraded true t.policy in
    let t' : Transition = record t { policy = p } in
    let (journaled, journal_error) = on_files (put_transition env.journal t') d in
    if not persist then record_state env t d else elim journal_error [
      | none ↦ record_state env t journaled
      | some e ↦ (
        journaled,
        record {
          policy = p;
          state_recorded = false;
          audit_recorded = false;
          errors = degraded ∷ journal_failed e ∷ [];
        },
      )
    ]

-- persistTerminal
unfoldable pub persist_terminal :
    RecordEnv → Option String → BackgroundPolicy → Action → Disk → Disk × RecordingResult
unfolding persist_terminal_transition
persist_terminal env event p action d = elim event [
  | none ↦ (
    d,
    record {
      policy = record p { persistence_degraded = true };
      state_recorded = false;
      audit_recorded = false;
      errors = degraded ∷ no_event_id ∷ [];
    },
  )
  | some id ↦
      persist_terminal_transition env (record { policy = p; action = action; event_id = id }) true d
]
