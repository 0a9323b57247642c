-- ===== src/Daemon/ProviderOps/Flights.antt =====
-- Commit and runFlight of internal/daemon/provider_operations.go. A flight's goroutine runs by steps, each
-- under the lock that the code holds for it.
use ratchet_cli.Base.{
  ℕ, zero, suc, ◌+◌, String, Bool, true, false, not, ◌&&◌, ◌||◌, Option, none, some, [], ◌∷◌, leb,
  eqb, if◌then◌else◌, ◌==◌, is_blank, trim_space,
}
use Prim.Native.Char.{code}
use Prim.Native.String.{[], ◌∷◌}
use ratchet_cli.Base.Dict.{lookup, insert, remove}
use ratchet_cli.Daemon.ProviderOps.Tables.{
  pending, no_failure, conflict, alias_busy, secret_store, database_failure, internal_failure,
  SaveRequest, OperationRow, Database, retention, is_pending, is_active, has, count_rows,
  apply_provider,
}
use ratchet_cli.Daemon.ProviderOps.Journal.{
  Phase, journaled, stored, saved, landing, Flight, Manager, Finalizer, fail_operation,
  finalize_operation_locked, invalid_argument, query_failed, journal_failed, Answer, refused,
  journal, synthetic, waits, operation_admission_error, Query, get,
}

-- uuid.Parse with the comparison of the printed form, and json.Unmarshal: whether the settings are a JSON
-- object, and then whether it is empty
pub record Formats : Type 0 where
  pub canonical_uuid : String → Bool
  pub json_object : String → Option Bool

-- the switch of validProviderAliasForSecret
abbrev pub is_alias_char : ℕ → Bool
is_alias_char c =
    (leb 97 c && leb c 122)
    || (leb 65 c && leb c 90)
    || (leb 48 c && leb c 57)
    || eqb c 95
    || eqb c 45

unfoldable pub alias_chars : ℕ → String → Bool
alias_chars zero s = s == ""
alias_chars (suc n) [] = true
alias_chars (suc n) (c ∷ s) = is_alias_char (code c) && alias_chars n s

-- validProviderAliasForSecret; the accepted characters have one byte each
unfoldable pub valid_provider_alias_for_secret : String → Bool
unfolding alias_chars
valid_provider_alias_for_secret alias = not (alias == "") && alias_chars 128 alias

module _ (formats : Formats) where
  open formats use {canonical_uuid, json_object}

  -- normalizeProviderSettings
  unfoldable pub normalize_provider_settings : String → Option String
  unfolding is_blank trim_space
  normalize_provider_settings settings =
      let trimmed = trim_space settings in
      if is_blank settings then some "{}" else elim (json_object trimmed) [
        | none ↦ none
        | some true ↦ some "{}"
        | some false ↦ some trimmed
      ]

  -- validateProviderSaveRequest, and the request with the normalized settings
  unfoldable pub validate_provider_save_request : SaveRequest → Option SaveRequest
  unfolding valid_provider_alias_for_secret is_blank normalize_provider_settings
  validate_provider_save_request req =
      if not (canonical_uuid req.operation_id)
        || not (valid_provider_alias_for_secret req.alias)
        || is_blank req.kind
      then none
      else elim (normalize_provider_settings req.settings) [
        | none ↦ none
        | some settings ↦ some (record req { settings = settings })
      ]

-- the environment of a call of Commit, with the name that it draws for the secret
pub record CommitEnv : Type 0 where
  pub query : Bool
  pub replay : Query
  pub insert_ok : Bool
  pub requery : Bool
  pub drawn : String
  pub now : ℕ

abbrev pub journal_row : CommitEnv → SaveRequest → String → OperationRow
journal_row env req name = record {
  alias = req.alias;
  state = pending;
  failure = no_failure;
  secret_name = name;
  result_kind = "";
  result_model = "";
  result_is_default = false;
  created_at = env.now;
  updated_at = env.now;
  expires_at = env.now + retention;
}

-- the unique indexes on the journal: one active operation for an alias, and one for a secret
unfoldable pub is_reserved : SaveRequest → String → Database → Bool
unfolding count_rows
is_reserved req name db =
    not (
      eqb
        (count_rows (λ (o : OperationRow). (o.alias == req.alias) && is_active o.state)
          db.operations)
        0)
    || (not (name == "")
        && not (eqb (count_rows (λ (o : OperationRow). o.secret_name == name) db.operations) 0))

-- an operation that is in the journal
unfoldable pub answer_known : CommitEnv → SaveRequest → OperationRow → Manager → Manager × Answer
unfolding get lookup
answer_known env req row m =
    let asked = get env.replay req.operation_id m in
    if row.alias == req.alias
    then elim (lookup req.alias m.flights) [
      | some flight ↦
          if flight.operation_id == req.operation_id then (m, waits flight.operation_id) else asked
      | none ↦ asked
    ]
    else (m, synthetic conflict)

-- the branch of an insertion that fails
unfoldable pub answer_unjournaled : CommitEnv → SaveRequest → Manager → Answer
unfolding lookup
answer_unjournaled env req m =
    elim (if env.requery then lookup req.operation_id m.db.operations else none) [
      | none ↦ refused journal_failed
      | some row ↦ if row.alias == req.alias then journal row else synthetic conflict
    ]

-- from the lookup of the flight on
unfoldable pub begin_flight : CommitEnv → SaveRequest → Manager → Manager × Answer
unfolding is_reserved insert answer_unjournaled
begin_flight env req m =
    let name = if req.api_key == "" then "" else env.drawn in
    let flight : Flight = record {
      operation_id = req.operation_id;
      request = req;
      secret_name = name;
      phase = journaled;
    } in
    let operations = insert req.operation_id (journal_row env req name) m.db.operations in
    if has req.alias m.flights
    then (m, synthetic alias_busy)
    else if not env.insert_ok || is_reserved req name m.db
    then (m, answer_unjournaled env req m)
    else (
      record m {
        db = record m.db { operations = operations };
        flights = insert req.alias flight m.flights;
      },
      waits req.operation_id,
    )

module _ (formats : Formats) where
  -- Commit
  unfoldable pub commit : CommitEnv → SaveRequest → Manager → Manager × Answer
  unfolding validate_provider_save_request lookup answer_known begin_flight
  commit env given m = elim (operation_admission_error m) [
    | some e ↦ (m, refused e)
    | none ↦ elim (validate_provider_save_request formats given) [
      | none ↦ (m, refused invalid_argument)
      | some req ↦
          if not env.query
          then (m, refused query_failed)
          else elim (lookup req.operation_id m.db.operations) [
            | some row ↦ answer_known env req row m
            | none ↦ begin_flight env req m
          ]
    ]
  ]

-- SecretsProvider.Set; one that fails may have written the secret
pub data SetReply : Type 0 where
  set_done : SetReply
  set_failed : Bool → SetReply

pub record FlightEnv : Type 0 where
  pub set : SetReply
  pub apply_ok : Bool
  pub fail_ok : Bool
  pub finalizer : Finalizer
  pub provider_id : String
  pub now : ℕ

abbrev pub enter : String → Flight → Phase → Manager → Manager
enter alias f phase m = record m { flights = insert alias (record f { phase = phase }) m.flights }

-- the call of Set, and what follows if it fails
unfoldable pub store_secret : FlightEnv → String → Flight → Manager → Manager
unfolding insert fail_operation
store_secret env alias f m =
    let holding : Manager = record m {
      secrets = insert f.secret_name f.request.api_key m.secrets;
    } in
    let fail = λ (m' : Manager).
      enter alias f landing
        (fail_operation env.fail_ok env.now f.operation_id f.secret_name secret_store m') in
    if f.secret_name == "" then enter alias f stored m else elim env.set [
      | set_done ↦ enter alias f stored holding
      | set_failed true ↦ fail holding
      | set_failed false ↦ fail m
    ]

-- the transaction of applyProviderLocked, and what follows if it fails
unfoldable pub apply_flight : FlightEnv → String → Flight → Manager → Manager
unfolding insert fail_operation apply_provider
apply_flight env alias f m =
    let db = apply_provider env.now env.provider_id f.request f.secret_name m.db in
    if env.apply_ok
    then enter alias f saved (record m { db = db })
    else enter alias f landing
        (fail_operation env.fail_ok env.now f.operation_id f.secret_name database_failure m)

-- runFlight, to the end of its current step
unfoldable pub step_flight : FlightEnv → String → Manager → Manager
unfolding lookup insert remove store_secret apply_flight finalize_operation_locked
step_flight env alias m = elim (lookup alias m.flights) [
  | none ↦ m
  | some f ↦ elim f.phase [
    | journaled ↦ store_secret env alias f m
    | stored ↦ apply_flight env alias f m
    | saved ↦
        enter alias f landing
          (finalize_operation_locked env.finalizer f.operation_id f.request.api_key m).0
    | landing ↦ record m { flights = remove alias m.flights }
  ]
]

-- the deferred function of runFlight after a panic; `env.apply_ok` says whether its query answers
unfoldable pub recover_row : FlightEnv → String → Flight → Manager → Manager
unfolding lookup insert fail_operation
recover_row env alias f m =
    let failing =
      fail_operation env.fail_ok env.now f.operation_id f.secret_name internal_failure m in
    elim (if env.apply_ok then lookup f.operation_id m.db.operations else none) [
      | none ↦ enter alias f landing m
      | some row ↦ enter alias f landing (if is_pending row.state then failing else m)
    ]

-- a panic of runFlight, before it lands
unfoldable pub recover_flight : FlightEnv → String → Manager → Manager
unfolding lookup recover_row
recover_flight env alias m = elim (lookup alias m.flights) [
  | none ↦ m
  | some f ↦ elim f.phase [ landing ↦ m | _ ↦ recover_row env alias f m ]
]
