-- ===== src/Daemon/ProviderOps/Saves.antt =====
-- A save runs to its end where the environment answers.
use ratchet_cli.Base.{
  ℕ, ◌≡◌, refl, ap, ◌∙◌, String, Bool, true, false, Option, none, some, [], ◌∷◌, arith,
  if◌then◌else◌, ◌==◌, eq_refl,
}
use ratchet_cli.Base.Dict.{Dict, lookup, insert, map_entries, lookup-insert, lookup-remove}
use ratchet_cli.Daemon.ProviderOps.Tables.{
  applied, committed, SaveRequest, ProviderRow, OperationRow, Database, has, limited, replaces,
  secret_of, upserted, queue_provider_secret_cleanup, update_operation, applied_row, committed_row,
  apply_provider,
}
use ratchet_cli.Daemon.ProviderOps.Journal.{
  Phase, journaled, stored, saved, landing, Manager, operation_admission_error, finalize_row,
  finalize_operation_locked,
}
use ratchet_cli.Daemon.ProviderOps.Flights.{
  Formats, CommitEnv, journal_row, is_reserved, begin_flight, validate_provider_save_request,
  commit, set_done, FlightEnv, store_secret, apply_flight, step_flight,
}
use ratchet_cli.Daemon.ProviderOps.Rows.{queued_tables}
use ratchet_cli.Daemon.ProviderOps.Runs.{commits, flies, perform, run}

-- an environment in which a flight goes through
pub record Answers (env : FlightEnv) : Type 0 where
  pub set : env.set ≡ set_done
  pub apply_ok : env.apply_ok ≡ true
  pub requery : env.finalizer.requery ≡ true
  pub update : env.finalizer.update ≡ true

-- the flight of an alias in one phase, with the row of its operation
record At (req : SaveRequest) (name : String) (phase : Phase) (row : OperationRow) (m : Manager)
    : Type 0 where
  flown :
      lookup req.alias m.flights
      ≡ some (record {
        operation_id = req.operation_id;
        request = req;
        secret_name = name;
        phase = phase;
      })
  found : lookup req.operation_id m.db.operations ≡ some row

looked {ℓ} : {V : Type ℓ} (k : String) (v : V) (m : Dict V) → lookup k (insert k v m) ≡ some v
looked k v m = rw (lookup-insert k k v m, eq_refl k) refl

updated :
    (id : String) (f : OperationRow → OperationRow) (row : OperationRow) (db : Database)
    → lookup id db.operations ≡ some row
    → lookup id (update_operation id f db).operations ≡ some (f row)
unfolding update_operation
updated id f row db e = rw (e, update_operation) (looked id (f row) db.operations)

updated_providers :
    (id : String) (f : OperationRow → OperationRow) (db : Database)
    → (update_operation id f db).providers ≡ db.providers
unfolding update_operation
updated_providers id f db = ground arith

chosen_tables :
    (b : Bool) (now : ℕ) (name : String) (db : Database)
    → let db' = if b then queue_provider_secret_cleanup now name db else db in
      (db'.providers ≡ db.providers) × (db'.operations ≡ db.operations)
chosen_tables true now name db = queued_tables now name db
chosen_tables false now name db = (refl, refl)

-- what the provider row has after the transaction
record Provides (req : SaveRequest) (name : String) (db : Database) : Type 0 where
  row : ProviderRow
  found : lookup req.alias db.providers ≡ some row
  kind : row.kind ≡ req.kind
  model : row.model ≡ req.model
  is_default : row.is_default ≡ req.is_default
  secret : row.secret_name ≡ name

upserted_fields :
    (id : String) (req : SaveRequest) (name : String) (old : Option ProviderRow)
    → name == "" ≡ false
    → let row = upserted id (limited req) name old in
      (row.kind ≡ req.kind)
      × (row.model ≡ req.model)
      × (row.is_default ≡ req.is_default)
      × (row.secret_name ≡ name)
unfolding upserted
upserted_fields id req name none b = (refl, refl, refl, refl)
upserted_fields id req name (some old) b = (refl, refl, refl, rw b refl)

applied_tables :
    (now : ℕ) (id name : String) (req : SaveRequest) (row : OperationRow) (db : Database)
    → name == "" ≡ false
    → lookup req.operation_id db.operations ≡ some row
    → Provides req name (apply_provider now id req name db)
      × (lookup req.operation_id (apply_provider now id req name db).operations
          ≡ some (applied_row (limited req) now row))
unfolding apply_provider
applied_tables now id name req row db b e =
    let old = secret_of (lookup req.alias db.providers) in
    let cleared =
      map_entries (λ alias (r : ProviderRow). record r { is_default = false }) db.providers in
    let rows = if req.is_default then cleared else db.providers in
    let new = upserted id (limited req) name (lookup req.alias rows) in
    let done : Database = record db { providers = insert req.alias new rows } in
    let (p, o) = chosen_tables (replaces old name) now old done in
    let (x, y, z, w) = upserted_fields id req name (lookup req.alias rows) b in
    (
      record {
        row = new;
        found =
            ap (lookup req.alias)
              (updated_providers req.operation_id (applied_row (limited req) now) _ ∙ p)
            ∙ looked req.alias new rows;
        kind = x;
        model = y;
        is_default = z;
        secret = w;
      },
      updated req.operation_id (applied_row (limited req) now) row _
          (ap (lookup req.operation_id) o ∙ e),
    )

Provides-same :
    (req : SaveRequest) (name : String) (db db' : Database)
    → db'.providers ≡ db.providers
    → Provides req name db
    → Provides req name db'
Provides-same req name db db' e p = record {
  row = p.row;
  found = ap (lookup req.alias) e ∙ p.found;
  kind = p.kind;
  model = p.model;
  is_default = p.is_default;
  secret = p.secret;
}

stored_step :
    (env : FlightEnv) (req : SaveRequest) (name : String) (row : OperationRow) (m : Manager)
    → Answers env
    → name == "" ≡ false
    → At req name journaled row m
    → let m' = step_flight env req.alias m in
      At req name stored row m' × (lookup name m'.secrets ≡ some req.api_key)
unfolding step_flight store_secret
stored_step env req name row m ok b a =
    let s = ok.set in
    rw (a.flown, b, s, step_flight, store_secret)
      (
        record { flown = looked req.alias _ m.flights; found = a.found },
        looked name req.api_key m.secrets,
      )

applied_step :
    (env : FlightEnv) (req : SaveRequest) (name : String) (row : OperationRow) (m : Manager)
    → Answers env
    → name == "" ≡ false
    → At req name stored row m
    → let m' = step_flight env req.alias m in
      At req name saved (applied_row (limited req) env.now row) m'
      × Provides req name m'.db
      × (m'.secrets ≡ m.secrets)
unfolding step_flight apply_flight
applied_step env req name row m ok b a =
    let s = ok.apply_ok in
    let (p, f) = applied_tables env.now env.provider_id name req row m.db b a.found in
    rw (a.flown, s, step_flight, apply_flight)
      (record { flown = looked req.alias _ m.flights; found = f }, p, refl)

committed_step :
    (env : FlightEnv) (req : SaveRequest) (name : String) (row : OperationRow) (m : Manager)
    → Answers env
    → row.state ≡ applied
    → At req name saved row m
    → let m' = step_flight env req.alias m in
      At req name landing (committed_row env.finalizer.now row) m'
      × (m'.db.providers ≡ m.db.providers)
      × (m'.secrets ≡ m.secrets)
unfolding step_flight finalize_operation_locked finalize_row
committed_step env req name row m ok h a =
    let q = ok.requery in
    let u = ok.update in
    let id = req.operation_id in
    rw (a.flown, q, a.found, h, u, step_flight, finalize_operation_locked, finalize_row)
      (
        record {
          flown = looked req.alias _ m.flights;
          found = updated id (committed_row env.finalizer.now) row m.db a.found;
        },
        updated_providers id (committed_row env.finalizer.now) m.db,
        refl,
      )

landed_step :
    (env : FlightEnv) (req : SaveRequest) (name : String) (row : OperationRow) (m : Manager)
    → At req name landing row m
    → let m' = step_flight env req.alias m in
      (has req.alias m'.flights ≡ false) × (m'.db ≡ m.db) × (m'.secrets ≡ m.secrets)
unfolding step_flight
landed_step env req name row m a =
    rw (a.flown, step_flight)
      (ground (arith, lookup-remove req.alias req.alias m.flights, eq_refl req.alias), refl, refl)

begun :
    (env : CommitEnv) (req : SaveRequest) (m : Manager)
    → has req.alias m.flights ≡ false
    → env.insert_ok ≡ true
    → is_reserved req env.drawn m.db ≡ false
    → req.api_key == "" ≡ false
    → At req env.drawn journaled (journal_row env req env.drawn) (begin_flight env req m).0
unfolding begin_flight
begun env req m free ok unused k =
    rw (k, free, ok, unused, begin_flight)
      (record {
        flown = looked req.alias _ m.flights;
        found = looked req.operation_id _ m.db.operations;
      })

module _ (formats : Formats) where
  committing :
      (env : CommitEnv) (given req : SaveRequest) (m : Manager)
      → validate_provider_save_request formats given ≡ some req
      → operation_admission_error m ≡ none
      → env.query ≡ true
      → lookup req.operation_id m.db.operations ≡ none
      → (commit formats env given m).0 ≡ (begin_flight env req m).0
  unfolding commit
  committing env given req m v a q n = rw (a, v, q, n, commit) refl

  -- A Commit of a valid request with a key, for a new operation on an alias without one, with a fresh
  -- name for the secret, leads to a committed operation within four steps of its flight, where the
  -- environment answers them: the provider row has the request's type, model and default mark and names a
  -- secret that the store holds with the request's key, and the alias is free.
  pub save_completes :
      (env : CommitEnv) (given req : SaveRequest) (fly : FlightEnv) (m : Manager)
      → validate_provider_save_request formats given ≡ some req
      → operation_admission_error m ≡ none
      → env.query ≡ true
      → env.insert_ok ≡ true
      → lookup req.operation_id m.db.operations ≡ none
      → has req.alias m.flights ≡ false
      → is_reserved req env.drawn m.db ≡ false
      → req.api_key == "" ≡ false
      → env.drawn == "" ≡ false
      → Answers fly
      → let step = flies fly req.alias in
        let m' = run formats (commits env given ∷ step ∷ step ∷ step ∷ step ∷ []) m in
        (op : OperationRow) × (row : ProviderRow) × (lookup req.operation_id m'.db.operations
          ≡ some op)
        × (op.state ≡ committed)
        × (op.result_kind ≡ req.kind)
        × (op.result_model ≡ req.model)
        × (lookup req.alias m'.db.providers ≡ some row)
        × (row.kind ≡ req.kind)
        × (row.model ≡ req.model)
        × (row.is_default ≡ req.is_default)
        × (row.secret_name ≡ env.drawn)
        × (lookup env.drawn m'.secrets ≡ some req.api_key)
        × (has req.alias m'.flights ≡ false)
  unfolding run perform
  save_completes env given req fly m v a q ok n free unused k b answers =
      let start = (begin_flight env req m).0 in
      let row0 = journal_row env req env.drawn in
      let row1 = applied_row (limited req) fly.now row0 in
      let row2 = committed_row fly.finalizer.now row1 in
      let m1 = step_flight fly req.alias start in
      let m2 = step_flight fly req.alias m1 in
      let m3 = step_flight fly req.alias m2 in
      let (at1, held) =
        stored_step fly req env.drawn row0 start answers b (begun env req m free ok unused k) in
      let (at2, provides, same2) = applied_step fly req env.drawn row0 m1 answers b at1 in
      let (at3, rows3, same3) = committed_step fly req env.drawn row1 m2 answers refl at2 in
      let (gone, same_db, same4) = landed_step fly req env.drawn row2 m3 at3 in
      let p = Provides-same req env.drawn m2.db m3.db rows3 provides in
      rw (committing env given req m v a q n) (
        row2,
        p.row,
        ap (λ (d : Database). lookup req.operation_id d.operations) same_db ∙ at3.found,
        refl,
        refl,
        refl,
        ap (λ (d : Database). lookup req.alias d.providers) same_db ∙ p.found,
        p.kind,
        p.model,
        p.is_default,
        p.secret,
        ap (lookup env.drawn) (same4 ∙ same3 ∙ same2) ∙ held,
        gone,
      )
