-- ===== src/Daemon/ProviderOps/Journal.antt =====
-- The manager of internal/daemon/provider_operations.go, and the ends of an operation: failOperation,
-- finalizeOperation and get. The redactor and the provider registry are there.
use ratchet_cli.Base.{
  ℕ, String, Bool, true, false, not, ◌⊎◌, inl, inr, Option, none, some, List, [], ◌∷◌, ◌++◌,
  if◌then◌else◌, ◌==◌,
}
use ratchet_cli.Base.Dict.{Dict, lookup, insert}
use ratchet_cli.Daemon.ProviderOps.Tables.{
  pending, applied, committed, failed, Failure, SaveRequest, OperationRow, Database, is_applied,
  queue_provider_secret_cleanup, update_operation, failed_with, committed_row,
}

-- how far the goroutine of a flight is
pub data Phase : Type 0 where
  journaled stored saved landing : Phase

-- a providerOperationFlight, with what runFlight has of it
pub record Flight : Type 0 where
  pub operation_id : String
  pub request : SaveRequest
  pub secret_name : String
  pub phase : Phase

-- how far the goroutine of a cleanup is
pub data CleanPhase : Type 0 where
  counting deleting : CleanPhase

pub record Manager : Type 0 where
  pub db : Database
  pub secrets : Dict String  -- the secrets provider
  pub flights : Dict Flight  -- by alias
  pub cleaning : Dict CleanPhase
  pub redacted : Dict String  -- the calls of AddValue
  pub invalidated : List String  -- the calls of InvalidateCacheAlias
  pub started : Bool
  pub stopped : Bool

-- newProviderOperationManager
abbrev pub new_manager : Database → Dict String → Manager
new_manager db secrets = record {
  db = db;
  secrets = secrets;
  flights = [];
  cleaning = [];
  redacted = [];
  invalidated = [];
  started = false;
  stopped = false;
}

-- why the secrets provider does not answer
pub data SecretCause : Type 0 where
  canceled deadline_exceeded invalid_key unsupported provider_init other_cause : SecretCause

pub data FinalizeError : Type 0 where
  no_row not_applied write_failed : FinalizeError
  unreadable : SecretCause → FinalizeError

-- What the environment answers a finalization: the two queries, the secrets provider and the update.
pub record Finalizer : Type 0 where
  pub query : Bool
  pub read : Option SecretCause
  pub requery : Bool
  pub update : Bool
  pub now : ℕ

-- failOperation; `tx_ok` says whether its transaction commits
unfoldable pub fail_operation : Bool → ℕ → String → String → Failure → Manager → Manager
unfolding queue_provider_secret_cleanup update_operation
fail_operation tx_ok now id name why m =
    let failing =
      update_operation id (failed_with why now) (queue_provider_secret_cleanup now name m.db) in
    if tx_ok then record m { db = failing } else m

-- from the check of the state on, in finalizeOperationLocked
unfoldable pub finalize_row :
    Finalizer → String → String → OperationRow → Manager → Manager × Option FinalizeError
unfolding insert update_operation
finalize_row f id value row m =
    let told : Manager = record m {
      redacted =
          if row.secret_name == "" then m.redacted else insert row.secret_name value m.redacted;
      invalidated = m.invalidated ++ row.alias ∷ [];
    } in
    let done : Manager = record told { db = update_operation id (committed_row f.now) m.db } in
    elim row.state [
      | committed ↦ (m, none)
      | failed ↦ (m, none)
      | pending ↦ (m, some not_applied)
      | applied ↦ if f.update then (done, none) else (told, some write_failed)
    ]

-- finalizeOperationLocked
unfoldable pub finalize_operation_locked :
    Finalizer → String → String → Manager → Manager × Option FinalizeError
unfolding lookup finalize_row
finalize_operation_locked f id value m =
    elim (if f.requery then lookup id m.db.operations else none) [
      | none ↦ (m, some no_row)
      | some row ↦ finalize_row f id value row m
    ]

-- `SecretsProvider.Get`; a name that the store does not hold is an error of its own
unfoldable pub read_secret : Finalizer → String → Manager → String ⊎ SecretCause
unfolding lookup
read_secret f name m = elim f.read [
  | some cause ↦ inr cause
  | none ↦ elim (lookup name m.secrets) [ none ↦ inr other_cause | some value ↦ inl value ]
]

-- the read of the secret and what follows it, in finalizeOperation
unfoldable pub finalize_applied :
    Finalizer → String → String → Manager → Manager × Option FinalizeError
unfolding read_secret finalize_operation_locked
finalize_applied f id name m =
    let done = finalize_operation_locked f id "" m in
    if name == "" then done else elim (read_secret f name m) [
      | inr cause ↦ (m, some (unreadable cause))
      | inl value ↦ finalize_operation_locked f id value m
    ]

-- finalizeOperation
unfoldable pub finalize_operation : Finalizer → String → Manager → Manager × Option FinalizeError
unfolding lookup finalize_applied
finalize_operation f id m = elim (if f.query then lookup id m.db.operations else none) [
  | none ↦ (m, some no_row)
  | some row ↦ elim row.state [
    | committed ↦ (m, none)
    | failed ↦ (m, none)
    | pending ↦ (m, some not_applied)
    | applied ↦ finalize_applied f id row.secret_name m
  ]
]

pub data CallError : Type 0 where
  stopping not_started invalid_argument not_found query_failed journal_failed : CallError

-- What a call returns: an error, an operation of the journal, one made up for a refusal, or what the
-- flight of the operation ends with.
pub data Answer : Type 0 where
  refused : CallError → Answer
  journal : OperationRow → Answer
  synthetic : Failure → Answer
  waits : String → Answer  -- the operation of the flight that is waited for

-- operationAdmissionErrorLocked
abbrev pub operation_admission_error : Manager → Option CallError
operation_admission_error m =
    if m.stopped then some stopping else if not m.started then some not_started else none

-- the environment of get: the two queries of the row, and the finalization between them
pub record Query : Type 0 where
  pub first : Bool
  pub finalizer : Finalizer
  pub second : Bool

-- the reread of get after a finalization
abbrev pub reread : Bool → Option OperationRow → Answer
reread false row = refused query_failed
reread true none = refused not_found
reread true (some row) = journal row

-- get, with `finalize` set
unfoldable pub get_operation : Query → String → Manager → Manager × Answer
unfolding lookup finalize_operation
get_operation q id m =
    let (m', e) = finalize_operation q.finalizer id m in
    if not q.first then (m, refused query_failed) else elim (lookup id m.db.operations) [
      | none ↦ (m, refused not_found)
      | some row ↦ elim (is_applied row.state) [
        | false ↦ (m, journal row)
        | true ↦ elim e [
          | some x ↦ (m', journal row)
          | none ↦ (m', reread q.second (lookup id m'.db.operations))
        ]
      ]
    ]

-- Get
unfoldable pub get : Query → String → Manager → Manager × Answer
unfolding get_operation
get q id m = elim (operation_admission_error m) [
  | some e ↦ (m, refused e)
  | none ↦ get_operation q id m
]
