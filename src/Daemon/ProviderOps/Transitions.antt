-- ===== src/Daemon/ProviderOps/Transitions.antt =====
-- The runs of the provider operations only move the operations of the journal on.
use ratchet_cli.Base.{
  ℕ, ◌≡◌, refl, sym, ap, ◌∙◌, inl, inr, String, Bool, true, false, not, ◌&&◌, ◌||◌, Option, none,
  some, List, [], ◌∷◌, arith, if◌then◌else◌, ◌==◌, eq_iff, Bool-cases, Option-cases, All, eqb,
}
use ratchet_cli.Base.Dict.{Dict, lookup, insert, remove, lookup-insert}
use ratchet_cli.Daemon.ProviderOps.Tables.{
  SaveRequest, OperationRow, Database, has, secret_of, references,
}
use ratchet_cli.Daemon.ProviderOps.Journal.{Manager, new_manager, operation_admission_error}
use ratchet_cli.Daemon.ProviderOps.Flights.{
  Formats, CommitEnv, journal_row, is_reserved, answer_known, begin_flight,
  validate_provider_save_request, commit,
}
use ratchet_cli.Daemon.ProviderOps.Cleanup.{
  CleanEnv, record_cleanup_failure, drop_row, dispatch_cleanup, count_references, delete_secret,
  step_cleanup, remove_provider, set_default_provider, update_provider_model,
}
use ratchet_cli.Daemon.ProviderOps.Rows.{queued_tables}
use ratchet_cli.Daemon.ProviderOps.Safety.{IsSafe}
use ratchet_cli.Daemon.ProviderOps.Finalizing.{get-Quiet}
use ratchet_cli.Daemon.ProviderOps.CleanupSteps.{DeleteReply-cases, CleanPhase-cases}
use ratchet_cli.Daemon.ProviderOps.Runs.{
  Action, commits, flies, panics, queries, dispatches, cleans, removes, sets_default, sets_model,
  stops, boots, perform, run, AllDraws,
}
use ratchet_cli.Daemon.ProviderOps.Secrets.{HoldsSecrets, initial-Safe, perform-Safe, run-Safe}
use ratchet_cli.Daemon.ProviderOps.Progress.{
  may_become, RowGoes, RowGoes-refl, RowGoes-trans, Goes, changed-Goes, same-Goes, Goes-refl,
  step_flight-Goes, recover_flight-Goes,
}

recorded_operations :
    (read_ok write_ok : Bool) (now : ℕ) (name why : String) (m : Manager)
    → (record_cleanup_failure read_ok write_ok now name why m).db.operations ≡ m.db.operations
unfolding record_cleanup_failure
recorded_operations read_ok write_ok now name why m = ground arith

dropped_operations :
    (ok : Bool) (name : String) (m : Manager) → (drop_row ok name m).db.operations ≡ m.db.operations
dropped_operations true name m = refl
dropped_operations false name m = refl

step_cleanup_operations :
    (env : CleanEnv) (name : String) (m : Manager)
    → (step_cleanup env name m).db.operations ≡ m.db.operations
unfolding step_cleanup count_references delete_secret
step_cleanup_operations env name m = elim (Option-cases (lookup name m.cleaning)) [
  | inl e ↦ rw (e, step_cleanup) refl
  | inr (x, e) ↦ elim (CleanPhase-cases x) [
    | inl p ↦ elim (Bool-cases env.query) [
      | inr b ↦
          rw (e, p, b, step_cleanup, count_references)
            (recorded_operations env.read_ok env.row_ok env.now name "database" m)
      | inl b ↦ elim (Bool-cases (eqb (references name m.db) 0)) [
        | inr z ↦
            rw (e, p, b, z, step_cleanup, count_references) (dropped_operations env.row_ok name m)
        | inl z ↦ rw (e, p, b, z, step_cleanup, count_references) refl
      ]
    ]
    | inr p ↦ elim (DeleteReply-cases env.delete) [
      | inl r ↦ rw (e, p, r, step_cleanup, delete_secret) (dropped_operations env.row_ok name _)
      | inr (inl r) ↦
          rw (e, p, r, step_cleanup, delete_secret) (dropped_operations env.row_ok name m)
      | inr (inr (inl r)) ↦
          rw (e, p, r, step_cleanup, delete_secret)
            (recorded_operations env.read_ok env.row_ok env.now name "delete" _)
      | inr (inr (inr r)) ↦
          rw (e, p, r, step_cleanup, delete_secret)
            (recorded_operations env.read_ok env.row_ok env.now name "delete" m)
    ]
  ]
]

removed_operations :
    (ok : Bool) (now : ℕ) (alias : String) (m : Manager)
    → (remove_provider ok now alias m).db.operations ≡ m.db.operations
unfolding remove_provider
removed_operations ok now alias m = elim (Bool-cases (has alias m.flights || not ok)) [
  | inl b ↦ rw (b, remove_provider) refl
  | inr b ↦
      rw (b, remove_provider)
        ((queued_tables now (secret_of (lookup alias m.db.providers))
          (record m.db { providers = remove alias m.db.providers })).1)
]

default_operations :
    (ok : Bool) (alias : String) (m : Manager)
    → (set_default_provider ok alias m).db.operations ≡ m.db.operations
unfolding set_default_provider
default_operations true alias m = refl
default_operations false alias m = refl

model_operations :
    (ok : Bool) (alias model : String) (m : Manager)
    → (update_provider_model ok alias model m).0.db.operations ≡ m.db.operations
unfolding update_provider_model
model_operations ok alias model m = elim (Bool-cases (ok && has alias m.db.providers)) [
  | inl b ↦ rw (b, update_provider_model) refl
  | inr b ↦ rw (b, update_provider_model) refl
]

dispatched_operations :
    (names : List String) (m : Manager) → (dispatch_cleanup names m).db.operations ≡ m.db.operations
unfolding dispatch_cleanup
dispatched_operations names m = elim (Bool-cases m.started) [
  | inl b ↦ rw (b, dispatch_cleanup) refl
  | inr b ↦ rw (b, dispatch_cleanup) refl
]

inserted-Goes :
    (id : String) (row : OperationRow) (db : Database)
    → lookup id db.operations ≡ none
    → Goes db (record db { operations = insert id row db.operations })
inserted-Goes id row db e = record {
  rows = λ k. elim (Bool-cases (id == k)) [
    | inr b ↦ rw (lookup-insert id k row db.operations, b) (RowGoes-refl (lookup k db.operations))
    | inl b ↦
        let absent : lookup k db.operations ≡ none =
          ap (λ x. lookup x db.operations) (sym ((eq_iff id k).0 b)) ∙ e in
        rw absent tt
  ];
}

answered-Goes :
    (env : CommitEnv) (req : SaveRequest) (row : OperationRow) (m : Manager)
    → Goes m.db (answer_known env req row m).0.db
unfolding answer_known
answered-Goes env req row m =
    let asked = changed-Goes _ _ _ (get-Quiet env.replay req.operation_id m).db in
    elim (Bool-cases (row.alias == req.alias)) [
      | inr a ↦ rw (a, answer_known) (Goes-refl m.db)
      | inl a ↦ elim (Option-cases (lookup req.alias m.flights)) [
        | inl e ↦ rw (a, e, answer_known) asked
        | inr (f, e) ↦ elim (Bool-cases (f.operation_id == req.operation_id)) [
          | inl b ↦ rw (a, e, b, answer_known) (Goes-refl m.db)
          | inr b ↦ rw (a, e, b, answer_known) asked
        ]
      ]
    ]

begun-Goes :
    (env : CommitEnv) (req : SaveRequest) (m : Manager)
    → lookup req.operation_id m.db.operations ≡ none
    → Goes m.db (begin_flight env req m).0.db
unfolding begin_flight
begun-Goes env req m absent =
    let name = if req.api_key == "" then "" else env.drawn in
    elim (Bool-cases (has req.alias m.flights)) [
      | inl b ↦ rw (b, begin_flight) (Goes-refl m.db)
      | inr b ↦ elim (Bool-cases (not env.insert_ok || is_reserved req name m.db)) [
        | inl r ↦ rw (b, r, begin_flight) (Goes-refl m.db)
        | inr r ↦
            rw (b, r, begin_flight)
              (inserted-Goes req.operation_id (journal_row env req name) m.db absent)
      ]
    ]

-- An action of a living process is not a restart.
abbrev pub is_live : Action → Bool
is_live (boots env) = false
is_live _ = true

module _ (formats : Formats) where
  commit-Goes :
      (env : CommitEnv) (given : SaveRequest) (m : Manager)
      → Goes m.db (commit formats env given m).0.db
  unfolding commit
  commit-Goes env given m = elim (Option-cases (operation_admission_error m)) [
    | inr (x, e) ↦ rw (e, commit) (Goes-refl m.db)
    | inl e ↦ elim (Option-cases (validate_provider_save_request formats given)) [
      | inl v ↦ rw (e, v, commit) (Goes-refl m.db)
      | inr (req, v) ↦ elim (Bool-cases env.query) [
        | inr q ↦ rw (e, v, q, commit) (Goes-refl m.db)
        | inl q ↦ elim (Option-cases (lookup req.operation_id m.db.operations)) [
          | inl p ↦ rw (e, v, q, p, commit) (begun-Goes env req m p)
          | inr (row, p) ↦ rw (e, v, q, p, commit) (answered-Goes env req row m)
        ]
      ]
    ]
  ]

  perform-Goes :
      (a : Action) (m : Manager) → is_live a ≡ true → IsSafe m → Goes m.db (perform formats a m).db
  unfolding perform
  perform-Goes (commits env req) m l s = commit-Goes env req m
  perform-Goes (flies env alias) m l s = step_flight-Goes env alias m s
  perform-Goes (panics env alias) m l s = recover_flight-Goes env alias m
  perform-Goes (queries q id) m l s = changed-Goes _ _ _ (get-Quiet q id m).db
  perform-Goes (dispatches names) m l s = same-Goes _ _ (dispatched_operations names m)
  perform-Goes (cleans env name) m l s = same-Goes _ _ (step_cleanup_operations env name m)
  perform-Goes (removes ok now alias) m l s = same-Goes _ _ (removed_operations ok now alias m)
  perform-Goes (sets_default ok alias) m l s = same-Goes _ _ (default_operations ok alias m)
  perform-Goes (sets_model ok alias model) m l s = same-Goes _ _ (model_operations ok alias model m)
  perform-Goes stops m l s = Goes-refl m.db
  perform-Goes (boots env) m l s = absurd (cc l)

  run-Goes :
      (actions : List Action) (m : Manager)
      → AllDraws formats actions m
      → All (λ a. is_live a ≡ true) actions
      → IsSafe m
      → Goes m.db (run formats actions m).db
  unfolding run
  run-Goes [] m d l s = Goes-refl m.db
  run-Goes (a ∷ more) m (d, ds) (l, ls) s =
      let h = perform-Goes a m l s in
      let k = run-Goes more (perform formats a m) ds ls (perform-Safe formats a m d s) in
      record { rows = λ id. RowGoes-trans _ _ _ (h.rows id) (k.rows id) }

row_goes :
    (x y : Option OperationRow) (row : OperationRow)
    → RowGoes x y
    → x ≡ some row
    → (row' : OperationRow) × (y ≡ some row')
      × (row'.alias ≡ row.alias)
      × (row'.secret_name ≡ row.secret_name)
      × (may_become row.state row'.state ≡ true)
row_goes none y row h e = absurd (cc e)
row_goes (some old) none row h e = absurd h
row_goes (some old) (some row') row h e =
    let same : old ≡ row = cc e in rw (sym same) (row', refl, h.alias, h.secret, h.state)

-- If at first every provider row's secret is in the store, and no Commit draws a name that a cleanup is
-- at work on, then, while a process lives, an operation of the journal stays, with its alias and its
-- secret, and its state only moves on: an applied operation is applied or committed, and a committed or
-- a failed one stays so, through every run of saves, queries, cleanups and removals, whatever fails.
pub operation_progress :
    (formats : Formats) (past actions : List Action) (db : Database) (secrets : Dict String)
    (id : String) (row : OperationRow)
    → HoldsSecrets db secrets
    → AllDraws formats past (new_manager db secrets)
    → AllDraws formats actions (run formats past (new_manager db secrets))
    → All (λ a. is_live a ≡ true) actions
    → lookup id (run formats past (new_manager db secrets)).db.operations ≡ some row
    → (row' : OperationRow) × (lookup id
          (run formats actions (run formats past (new_manager db secrets))).db.operations
        ≡ some row')
      × (row'.alias ≡ row.alias)
      × (row'.secret_name ≡ row.secret_name)
      × (may_become row.state row'.state ≡ true)
operation_progress formats past actions db secrets id row h d d' l e =
    let m = run formats past (new_manager db secrets) in
    let s = run-Safe formats past (new_manager db secrets) d (initial-Safe db secrets h) in
    row_goes _ _ row ((run-Goes formats actions m d' l s).rows id) e
