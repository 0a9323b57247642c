-- ===== src/Daemon/ProviderOps/Tables.antt =====
-- The tables of internal/daemon/provider_operations.go and provider_cleanup.go, by their keys, and the
-- statements on them. Times are seconds.
use ratchet_cli.Base.{
  ℕ, ◌+◌, String, Bool, true, false, not, ◌&&◌, ◌||◌, Option, none, some, [], ◌∷◌, eqb,
  if◌then◌else◌, ◌==◌,
}
use ratchet_cli.Base.Dict.{Dict, lookup, insert, remove, map_entries}

pub data OperationState : Type 0 where
  pending applied committed failed : OperationState

pub data Failure : Type 0 where
  no_failure invalid_request conflict alias_busy secret_store database_failure finalization
        restart_recovery internal_failure :
      Failure

-- CommitProviderSaveReq with its provider; `max_tokens` is not negative
pub record SaveRequest : Type 0 where
  pub operation_id : String
  pub alias : String
  pub kind : String
  pub model : String
  pub api_key : String
  pub base_url : String
  pub max_tokens : ℕ
  pub settings : String
  pub is_default : Bool

-- a row of llm_providers, whose key is its alias
pub record ProviderRow : Type 0 where
  pub id : String
  pub kind : String
  pub model : String
  pub secret_name : String
  pub base_url : String
  pub max_tokens : ℕ
  pub settings : String
  pub is_default : Bool

-- a row of provider_operations, whose key is the operation's id
pub record OperationRow : Type 0 where
  pub alias : String
  pub state : OperationState
  pub failure : Failure
  pub secret_name : String
  pub result_kind : String
  pub result_model : String
  pub result_is_default : Bool
  pub created_at : ℕ
  pub updated_at : ℕ
  pub expires_at : ℕ

-- a row of provider_secret_cleanup, whose key is the name of the secret
pub record CleanupRow : Type 0 where
  pub attempt_count : ℕ
  pub failure : String
  pub created_at : ℕ
  pub updated_at : ℕ
  pub next_attempt_at : ℕ

pub record Database : Type 0 where
  pub providers : Dict ProviderRow
  pub operations : Dict OperationRow
  pub cleanup : Dict CleanupRow

-- providerOperationRetention
abbrev pub retention : ℕ
retention = 86400

abbrev pub is_pending : OperationState → Bool
is_pending pending = true
is_pending _ = false

abbrev pub is_applied : OperationState → Bool
is_applied applied = true
is_applied _ = false

-- `state IN (pending, applied)`
abbrev pub is_active : OperationState → Bool
is_active s = is_pending s || is_applied s

abbrev pub has {ℓ} : {V : Type ℓ} → String → Dict V → Bool
has k m = elim (lookup k m) [ none ↦ false | some v ↦ true ]

-- `DELETE FROM ... WHERE`
unfoldable pub discard {ℓ} : {V : Type ℓ} → (V → Bool) → Dict V → Dict V
unfolding remove
discard drops [] = []
discard drops ((k, v) ∷ rest) =
    let rest' = discard drops rest in if drops v then remove k rest' else (k, v) ∷ rest'

-- `SELECT count(*) FROM ... WHERE`
unfoldable pub count_rows {ℓ} : {V : Type ℓ} → (V → Bool) → Dict V → ℕ
count_rows test [] = 0
count_rows test ((k, v) ∷ rest) = let n = count_rows test rest in if test v then n + 1 else n

-- `INSERT ... ON CONFLICT(secret_name) DO NOTHING`
unfoldable pub queue_row : ℕ → String → Database → Database
unfolding lookup insert
queue_row now name db = if has name db.cleanup then db else record db {
  cleanup =
      insert name
        (record {
          attempt_count = 0;
          failure = "";
          created_at = now;
          updated_at = now;
          next_attempt_at = now;
        })
        db.cleanup;
}

-- queueProviderSecretCleanupTx
unfoldable pub queue_provider_secret_cleanup : ℕ → String → Database → Database
unfolding queue_row
queue_provider_secret_cleanup now name db = if name == "" then db else queue_row now name db

-- what references a secret
unfoldable pub references : String → Database → ℕ
unfolding count_rows
references name db =
    count_rows (λ (p : ProviderRow). p.secret_name == name) db.providers
    + count_rows (λ (o : OperationRow). (o.secret_name == name) && is_active o.state) db.operations

-- a statement on the row with this id
unfoldable pub update_operation : String → (OperationRow → OperationRow) → Database → Database
unfolding lookup insert
update_operation id f db = elim (lookup id db.operations) [
  | none ↦ db
  | some row ↦ record db { operations = insert id (f row) db.operations }
]

-- the statement of failOperation, and the one of the startup
abbrev pub failed_with : Failure → ℕ → OperationRow → OperationRow
failed_with why now row = record row { state = failed; failure = why; updated_at = now }

-- the statement of finalizeOperationLocked
abbrev pub committed_row : ℕ → OperationRow → OperationRow
committed_row now row = record row { state = committed; failure = no_failure; updated_at = now }

-- the statement that applyProviderLocked ends with
abbrev pub applied_row : SaveRequest → ℕ → OperationRow → OperationRow
applied_row req now row = record row {
  state = applied;
  failure = no_failure;
  result_kind = req.kind;
  result_model = req.model;
  result_is_default = req.is_default;
  updated_at = now;
}

-- the row that `INSERT ... ON CONFLICT(alias) DO UPDATE` writes
unfoldable pub upserted : String → SaveRequest → String → Option ProviderRow → ProviderRow
upserted id req name none = record {
  id = id;
  kind = req.kind;
  model = req.model;
  secret_name = name;
  base_url = req.base_url;
  max_tokens = req.max_tokens;
  settings = req.settings;
  is_default = req.is_default;
}
upserted id req name (some old) = record {
  id = old.id;
  kind = req.kind;
  model = req.model;
  secret_name = if name == "" then old.secret_name else name;
  base_url = if req.base_url == "" then old.base_url else req.base_url;
  settings = if req.settings == "{}" then old.settings else req.settings;
  max_tokens = req.max_tokens;
  is_default = req.is_default;
}

abbrev pub secret_of : Option ProviderRow → String
secret_of none = ""
secret_of (some row) = row.secret_name

-- the request with the default of max_tokens
abbrev pub limited : SaveRequest → SaveRequest
limited req = record req { max_tokens = if eqb req.max_tokens 0 then 4096 else req.max_tokens }

-- whether the transaction replaces a secret
abbrev pub replaces : String → String → Bool
replaces old name = not (old == "") && not (name == "") && not (old == name)

-- applyProviderLocked, in a transaction that commits
unfoldable pub apply_provider : ℕ → String → SaveRequest → String → Database → Database
unfolding lookup insert map_entries upserted queue_provider_secret_cleanup update_operation
apply_provider now id request name db =
    let req = limited request in
    let old = lookup req.alias db.providers in
    let old_secret = secret_of old in
    let cleared =
      map_entries (λ alias (row : ProviderRow). record row { is_default = false }) db.providers in
    let rows = if req.is_default then cleared else db.providers in
    let saved : Database = record db {
      providers = insert req.alias (upserted id req name (lookup req.alias rows)) rows;
    } in
    let queued = queue_provider_secret_cleanup now old_secret saved in
    update_operation req.operation_id (applied_row req now)
      (if replaces old_secret name then queued else saved)
