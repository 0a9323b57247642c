-- ===== src/AcpClient/Background/Audit.antt =====
-- internal/acpclient/background_audit.go: the log of what became of the background workers. JSON and
-- the calls on the file are there: a line holds a record, or a text that does not decode.
use ratchet_cli.Base.{
  ℕ, String, Bool, true, false, not, ◌||◌, Option, none, some, List, [], ◌∷◌, ◌++◌, ◌==◌, eqb, any,
  ◌⊎◌, inl, inr, trim_space, if◌then◌else◌,
}
use ratchet_cli.AcpClient.Background.Policies.{Outcome, Action}

pub record AuditRecord : Type 0 where
  pub record_id : String
  pub at : ℕ
  pub action : Action
  pub session_id : String
  pub profile : String
  pub descriptor_hash : String
  pub outcome : Outcome

pub data AuditError : Type 0 where
  field_required time_required pair_invalid : AuditError
  file_error corrupt short_write commit_unconfirmed : AuditError

-- the switch of validateBackgroundAuditRecord
unfoldable pub allowed : Action → Outcome → Bool
allowed Action.start Outcome.started = true
allowed Action.resume Outcome.resumed = true
allowed Action.block Outcome.profile_untrusted = true
allowed Action.block Outcome.profile_drift = true
allowed Action.block Outcome.profile_missing = true
allowed Action.block Outcome.session_missing = true
allowed Action.block Outcome.policy_invalid = true
allowed Action.error Outcome.worker_error = true
allowed Action.error Outcome.worker_panic = true
allowed Action.error Outcome.state_write_failed = true
allowed Action.error Outcome.audit_append_failed = true
allowed Action.stop Outcome.stopped = true
allowed Action.stop Outcome.completed = true
allowed _ _ = false

unfoldable pub blank : String → Bool
unfolding trim_space
blank s = trim_space s == ""

abbrev pub blank_action : Action → Bool
blank_action (Action.other s) = blank s
blank_action _ = false

abbrev pub blank_outcome : Outcome → Bool
blank_outcome (Outcome.other s) = blank s
blank_outcome _ = false

-- validateBackgroundAuditRecord
unfoldable pub validate_record : AuditRecord → Option AuditError
unfolding allowed blank
validate_record r =
    if blank r.record_id
      || blank_action r.action
      || blank r.session_id
      || blank r.profile
      || blank r.descriptor_hash
      || blank_outcome r.outcome
    then some field_required
    else if eqb r.at 0
    then some time_required
    else if allowed r.action r.outcome
    then none
    else some pair_invalid

pub data Line : Type 0 where
  entry : AuditRecord → Line
  junk : String → Line

-- The file: the lines that end in a newline, `junk` if they are no record, and whether bytes follow the
-- last newline.
pub record AuditFile : Type 0 where
  pub lines : List Line
  pub torn : Bool

-- The calls that readRepair makes.
pub record ReadEnv : Type 0 where
  pub readable : Bool
  pub valid : Bool
  pub truncated : Bool
  pub synced : Bool

-- the loop over the lines
unfoldable pub decode : List Line → Option (List AuditRecord)
unfolding validate_record
decode [] = some []
decode (junk s ∷ ls) = none
decode (entry r ∷ ls) =
    let rest = decode ls in
    elim (validate_record r) [
      | some e ↦ none
      | none ↦ elim rest [ none ↦ none | some rs ↦ some (r ∷ rs) ]
    ]

unfoldable pub repaired : ReadEnv → AuditFile → AuditFile × Option AuditError
repaired env f =
    if not f.torn
    then (f, none)
    else if not (env.valid) || not (env.truncated)
    then (f, some file_error)
    else let cut : AuditFile = record f { torn = false } in
      if env.synced then (cut, none) else (cut, some file_error)

-- readRepair
unfoldable pub read_repair : ReadEnv → AuditFile → AuditFile × (List AuditRecord ⊎ AuditError)
unfolding repaired decode
read_repair env f =
    let (cut, e) = repaired env f in
    if not (env.readable) then (f, inr file_error) else elim e [
      | some x ↦ (cut, inr x)
      | none ↦ elim (decode cut.lines) [ none ↦ (cut, inr corrupt) | some rs ↦ (cut, inl rs) ]
    ]

-- What one write of the line does: all of it, with or without an error; or only a part.
pub data WriteReply : Type 0 where
  whole whole_failed part nothing : WriteReply

pub record AppendEnv : Type 0 where
  pub opened : Bool
  pub reading : ReadEnv
  pub sought : Bool
  pub valid : Bool
  pub written : WriteReply
  pub synced : Bool
  pub closed : Bool
  pub parent_synced : Bool
  pub ended : Bool  -- the end of the transaction

-- backgroundAuditCommitError, of an error that is none where its call succeeded
abbrev pub commit_error : Bool → List AuditError → List AuditError
commit_error newline [] = []
commit_error true (e ∷ es) = commit_unconfirmed ∷ e ∷ es
commit_error false (e ∷ es) = e ∷ es

abbrev pub call_error : Bool → List AuditError
call_error true = []
call_error false = file_error ∷ []

-- The errors of the two deferred closes, after those of the body. The file is closed unless the body has.
unfoldable pub deferred : AppendEnv → Bool → Bool → List AuditError → List AuditError
deferred env newline closed es =
    es
    ++ (if closed then [] else call_error env.closed)
    ++ commit_error newline (call_error env.ended)

-- The file after the bytes of the line and its newline: bytes after the last newline and the line are
-- one line, which is no record.
unfoldable pub line_added : AuditRecord → AuditFile → AuditFile
line_added r f = record f {
  lines = f.lines ++ (if f.torn then junk r.record_id else entry r) ∷ [];
  torn = false;
}

-- from the write of the line on
unfoldable pub written_line :
    AppendEnv → AuditRecord → AuditFile → WriteReply → AuditFile × List AuditError
unfolding deferred line_added
written_line env r f nothing = (f, deferred env false false (short_write ∷ []))
written_line env r f part = (record f { torn = true }, deferred env false false (short_write ∷ []))
written_line env r f whole_failed =
    (line_added r f, deferred env true false (commit_error true (file_error ∷ [])))
written_line env r f whole = (
  line_added r f,
  if not (env.synced)
      then deferred env true false (commit_error true (file_error ∷ []))
      else deferred env true true (
          commit_error true (if env.closed then call_error env.parent_synced else file_error ∷ [])),
)

-- from the seek to the end of the file on
unfoldable pub write_line : AppendEnv → AuditRecord → AuditFile → AuditFile × List AuditError
unfolding deferred written_line
write_line env r f =
    if not (env.sought) || not (env.valid)
    then (f, deferred env false false (file_error ∷ []))
    else written_line env r f env.written

abbrev pub has_record : String → List AuditRecord → Bool
has_record id rs = any (λ (r : AuditRecord). r.record_id == id) rs

-- Append; no error is that the record is in the log
unfoldable pub append : AppendEnv → AuditRecord → AuditFile → AuditFile × List AuditError
unfolding validate_record read_repair write_line deferred
append env r f =
    let (cut, found) = read_repair env.reading f in
    elim (validate_record r) [
      | some e ↦ (f, e ∷ [])
      | none ↦ if not (env.opened) then (f, file_error ∷ []) else elim found [
        | inr e ↦ (cut, deferred env false false (e ∷ []))
        | inl rs ↦ elim (has_record r.record_id rs) [
          | true ↦ (cut, deferred env false true (call_error env.closed))
          | false ↦ write_line env r cut
        ]
      ]
    ]

-- Read; `closed` and `ended` are the close of the file and the end of the transaction
unfoldable pub read_audit :
    Bool → ReadEnv → Bool → Bool → AuditFile → AuditFile × (List AuditRecord ⊎ List AuditError)
unfolding read_repair
read_audit opened env closed ended f =
    let (cut, rs) = read_repair env f in
    if not opened then (f, inr (file_error ∷ [])) else elim rs [
      | inr e ↦ (cut, inr (e ∷ call_error closed ++ call_error ended))
      | inl records ↦ elim (call_error closed ++ call_error ended) [
        | [] ↦ (cut, inl records)
        | e ∷ es ↦ (cut, inr (e ∷ es))
      ]
    ]
