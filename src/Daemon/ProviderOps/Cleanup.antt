-- ===== src/Daemon/ProviderOps/Cleanup.antt =====
-- internal/daemon/provider_cleanup.go, and the changes of provider rows in internal/daemon/service.go
use ratchet_cli.Base.{
  ℕ, ◌+◌, ◌^◌, String, Bool, true, false, not, ◌&&◌, ◌||◌, ◌==◌, Option, none, some, List, [], ◌∷◌,
  ◌++◌, leb, ltb, eqb, if◌then◌else◌, length,
}
use ratchet_cli.Base.Dict.{Dict, lookup, insert, remove, map_entries}
use ratchet_cli.Daemon.ProviderOps.Tables.{
  ProviderRow, CleanupRow, Database, has, secret_of, references, queue_provider_secret_cleanup,
}
use ratchet_cli.Daemon.ProviderOps.Journal.{CleanPhase, counting, deleting, Manager}

-- providerCleanupWorkers
abbrev pub provider_cleanup_workers : ℕ
provider_cleanup_workers = 2

abbrev pub lesser : ℕ → ℕ → ℕ
lesser a b = if leb a b then a else b

-- the delay of recordCleanupFailure, in seconds
abbrev pub cleanup_delay : ℕ → ℕ
cleanup_delay attempts = lesser (2 ^ lesser attempts 6) 60

-- the row that recordCleanupFailure writes, by the number of attempts that it read
abbrev pub retried_row : String → ℕ → ℕ → CleanupRow → CleanupRow
retried_row failure attempts now row = record row {
  attempt_count = row.attempt_count + 1;
  failure = failure;
  updated_at = now;
  next_attempt_at = now + cleanup_delay attempts;
}

-- recordCleanupFailure; a query that fails leaves 0 attempts
unfoldable pub record_cleanup_failure : Bool → Bool → ℕ → String → String → Manager → Manager
unfolding lookup insert
record_cleanup_failure read_ok write_ok now name failure m = elim (lookup name m.db.cleanup) [
  | none ↦ m
  | some row ↦
      (let attempts = if read_ok then row.attempt_count else 0 in
        let db : Database = record m.db {
          cleanup = insert name (retried_row failure attempts now row) m.db.cleanup;
        } in
        if write_ok then record m { db = db } else m)
]

-- the loop of dispatchCleanup over the candidates
unfoldable pub start_cleanups : List String → Dict CleanPhase → Dict CleanPhase
unfolding insert
start_cleanups [] cleaning = cleaning
start_cleanups (name ∷ names) cleaning =
    let next =
      start_cleanups names
        (if has name cleaning then cleaning else insert name counting cleaning) in
    if leb provider_cleanup_workers (length cleaning) then cleaning else next

-- dispatchCleanup; `names` is what its query answers, and nothing if it fails
unfoldable pub dispatch_cleanup : List String → Manager → Manager
unfolding start_cleanups
dispatch_cleanup names m =
    if m.started then record m { cleaning = start_cleanups names m.cleaning } else m

-- SecretsProvider.Delete; one that fails may have deleted the secret
pub data DeleteReply : Type 0 where
  delete_done delete_not_found : DeleteReply
  delete_failed : Bool → DeleteReply

pub record CleanEnv : Type 0 where
  pub query : Bool
  pub delete : DeleteReply
  pub row_ok : Bool
  pub read_ok : Bool
  pub now : ℕ

-- the deferred function of cleanupSecret
abbrev pub end_cleanup : String → Manager → Manager
end_cleanup name m = record m { cleaning = remove name m.cleaning }

-- `DELETE FROM provider_secret_cleanup WHERE secret_name = ?`
abbrev pub drop_row : Bool → String → Manager → Manager
drop_row true name m = record m { db = record m.db { cleanup = remove name m.db.cleanup } }
drop_row false name m = m

-- the count of the references of cleanupSecret
unfoldable pub count_references : CleanEnv → String → Manager → Manager
unfolding references remove insert record_cleanup_failure
count_references env name m =
    if not env.query
    then end_cleanup name (record_cleanup_failure env.read_ok env.row_ok env.now name "database" m)
    else if not (eqb (references name m.db) 0)
    then end_cleanup name (drop_row env.row_ok name m)
    else record m { cleaning = insert name deleting m.cleaning }

abbrev pub without_secret : String → Manager → Manager
without_secret name m = record m { secrets = remove name m.secrets }

-- the deletion of cleanupSecret
unfoldable pub delete_secret : CleanEnv → String → Manager → Manager
unfolding remove record_cleanup_failure
delete_secret env name m =
    let fail = λ (m' : Manager).
      end_cleanup name (record_cleanup_failure env.read_ok env.row_ok env.now name "delete" m') in
    elim env.delete [
      | delete_done ↦ end_cleanup name (drop_row env.row_ok name (without_secret name m))
      | delete_not_found ↦ end_cleanup name (drop_row env.row_ok name m)
      | delete_failed true ↦ fail (without_secret name m)
      | delete_failed false ↦ fail m
    ]

-- cleanupSecret, to the end of its current step
unfoldable pub step_cleanup : CleanEnv → String → Manager → Manager
unfolding lookup count_references delete_secret
step_cleanup env name m = elim (lookup name m.cleaning) [
  | none ↦ m
  | some counting ↦ count_references env name m
  | some deleting ↦ delete_secret env name m
]

-- providerCleanupErrorReporter; no error was reported where the text is empty
pub record Reporter : Type 0 where
  pub last_error : String
  pub last_reported_at : ℕ

-- report, and whether it logs the error; `none` is a dispatch without one
unfoldable pub report : ℕ → Option String → Reporter → Reporter × Bool
report now none r = (record { last_error = ""; last_reported_at = 0 }, false)
report now (some text) r =
    if (text == r.last_error) && ltb now (r.last_reported_at + 60)
    then (r, false)
    else (record { last_error = text; last_reported_at = now }, true)

-- RemoveProvider, which waits while a flight holds the alias
unfoldable pub remove_provider : Bool → ℕ → String → Manager → Manager
unfolding lookup remove queue_provider_secret_cleanup
remove_provider tx_ok now alias m =
    let gone : Database = record m.db { providers = remove alias m.db.providers } in
    let db = queue_provider_secret_cleanup now (secret_of (lookup alias m.db.providers)) gone in
    if has alias m.flights || not tx_ok
    then m
    else record m { db = db; invalidated = m.invalidated ++ alias ∷ [] }

abbrev pub default_row : Bool → ProviderRow → ProviderRow
default_row b row = record row { is_default = b }

abbrev pub update_provider :
    String → (ProviderRow → ProviderRow) → Dict ProviderRow → Dict ProviderRow
update_provider alias f rows = elim (lookup alias rows) [
  | none ↦ rows
  | some row ↦ insert alias (f row) rows
]

abbrev pub with_providers : Dict ProviderRow → String → Manager → Manager
with_providers rows alias m = record m {
  db = record m.db { providers = rows };
  invalidated = m.invalidated ++ alias ∷ [];
}

-- SetDefaultProvider
unfoldable pub set_default_provider : Bool → String → Manager → Manager
unfolding lookup insert map_entries
set_default_provider tx_ok alias m =
    let cleared = map_entries (λ k row. default_row false row) m.db.providers in
    if tx_ok then with_providers (update_provider alias (default_row true) cleared) alias m else m

abbrev pub model_row : String → ProviderRow → ProviderRow
model_row model row = record row { model = model }

-- UpdateProviderModel, and whether it found the provider
unfoldable pub update_provider_model : Bool → String → String → Manager → Manager × Bool
unfolding lookup insert
update_provider_model db_ok alias model m =
    if db_ok && has alias m.db.providers
    then (with_providers (update_provider alias (model_row model) m.db.providers) alias m, true)
    else (m, false)
