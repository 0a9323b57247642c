-- ===== src/Daemon/ProviderOps/Finalizing.antt =====
-- The finalization of an operation commits applied rows and changes nothing else of the tables.
use mathlib.Core.Path.{subst}
use ratchet_cli.Base.{
  ℕ, ◌≡◌, refl, ◌⊎◌, inl, inr, String, Bool, true, false, Option, none, some, List, arith,
  if◌then◌else◌, ◌==◌, Bool-cases, Option-cases,
}
use ratchet_cli.Base.Dict.{Dict, lookup}
use ratchet_cli.Daemon.ProviderOps.Tables.{
  OperationState, pending, applied, committed, failed, OperationRow, Database, is_applied,
  committed_row, update_operation,
}
use ratchet_cli.Daemon.ProviderOps.Journal.{
  Manager, Finalizer, SecretCause, finalize_row, finalize_operation_locked, read_secret,
  finalize_applied, finalize_operation, Query, get_operation, get, operation_admission_error,
}
use ratchet_cli.Daemon.ProviderOps.Rows.{Moves, Changes, Changes-refl, update-Changes}
use ratchet_cli.Daemon.ProviderOps.Safety.{IsSafe}
use ratchet_cli.Daemon.ProviderOps.Keeping.{untouched-Safe}

-- A step that changes the tables by `Changes` alone and ends no pending operation.
pub record Quiet (m m' : Manager) : Type 0 where
  pub db : Changes (λ k. false) m.db m'.db
  pub secrets : m'.secrets ≡ m.secrets
  pub flights : m'.flights ≡ m.flights
  pub cleaning : m'.cleaning ≡ m.cleaning
  pub rows : m'.db.providers ≡ m.db.providers

pub Quiet-refl : (m : Manager) → Quiet m m
Quiet-refl m = record {
  db = Changes-refl (λ k. false) m.db;
  secrets = refl;
  flights = refl;
  cleaning = refl;
  rows = refl;
}

pub Quiet-Safe : (m m' : Manager) → Quiet m m' → IsSafe m → IsSafe m'
Quiet-Safe m m' q s = rw (q.secrets, q.flights, q.cleaning) (untouched-Safe m'.db q.db s)

same_row : (a b : OperationRow) (x : Option OperationRow) → x ≡ some a → x ≡ some b → a ≡ b
same_row a b x p q = cc (p, q)

committed-Moves :
    (t : Bool) (now : ℕ) (row : OperationRow)
    → row.state ≡ applied
    → Moves t row (committed_row now row)
committed-Moves t now row h = record {
  alias = refl;
  secret = refl;
  state = ground (arith, h);
  waits = λ u p. absurd (cc (h, p));
}

update_operation_providers :
    (id : String) (f : OperationRow → OperationRow) (db : Database)
    → (update_operation id f db).providers ≡ db.providers
unfolding update_operation
update_operation_providers id f db = ground arith

told-Quiet :
    (m : Manager) (redacted : Dict String) (invalidated : List String) (db : Database)
    → Changes (λ k. false) m.db db
    → db.providers ≡ m.db.providers
    → Quiet m (record m { db = db; redacted = redacted; invalidated = invalidated })
told-Quiet m redacted invalidated db c p = record {
  db = c;
  secrets = refl;
  flights = refl;
  cleaning = refl;
  rows = p;
}

applied-Quiet :
    (b : Bool) (f : Finalizer) (id : String) (row : OperationRow) (m : Manager)
    (redacted : Dict String) (invalidated : List String)
    → lookup id m.db.operations ≡ some row
    → row.state ≡ applied
    → Quiet m (
        if b
        then record m {
          redacted = redacted;
          invalidated = invalidated;
          db = update_operation id (committed_row f.now) m.db;
        }
        else record m { redacted = redacted; invalidated = invalidated })
applied-Quiet true f id row m redacted invalidated e h =
    told-Quiet m redacted invalidated _
      (update-Changes (λ k. false) id (committed_row f.now) m.db
        (λ r p.
          committed-Moves false f.now r
            (subst (λ (x : OperationRow). x.state ≡ applied) (same_row row r _ e p) h)))
      (update_operation_providers id (committed_row f.now) m.db)
applied-Quiet false f id row m redacted invalidated e h =
    told-Quiet m redacted invalidated m.db (Changes-refl (λ k. false) m.db) refl

pub State-cases :
    (s : OperationState) → (s ≡ applied) ⊎ (s ≡ pending) ⊎ (s ≡ committed) ⊎ (s ≡ failed)
State-cases applied = inl refl
State-cases pending = inr (inl refl)
State-cases committed = inr (inr (inl refl))
State-cases failed = inr (inr (inr refl))

finalize_row-Quiet :
    (f : Finalizer) (id value : String) (row : OperationRow) (m : Manager)
    → lookup id m.db.operations ≡ some row
    → Quiet m (finalize_row f id value row m).0
unfolding finalize_row
finalize_row-Quiet f id value row m e = elim (State-cases row.state) [
  | inl h ↦ elim (Bool-cases f.update) [
    | inl u ↦ rw (h, u, finalize_row) (applied-Quiet true f id row m _ _ e h)
    | inr u ↦ rw (h, u, finalize_row) (applied-Quiet false f id row m _ _ e h)
  ]
  | inr (inl h) ↦ rw (h, finalize_row) (Quiet-refl m)
  | inr (inr (inl h)) ↦ rw (h, finalize_row) (Quiet-refl m)
  | inr (inr (inr h)) ↦ rw (h, finalize_row) (Quiet-refl m)
]

asked_row :
    (b : Bool) (x : Option OperationRow)
    → ((if b then x else none) ≡ none)
      ⊎ ((row : OperationRow) × ((if b then x else none) ≡ some row) × (x ≡ some row))
asked_row true x = elim (Option-cases x) [ inl e ↦ inl e | inr (row, e) ↦ inr (row, e, e) ]
asked_row false x = inl refl

pub finalize_locked-Quiet :
    (f : Finalizer) (id value : String) (m : Manager)
    → Quiet m (finalize_operation_locked f id value m).0
unfolding finalize_operation_locked
finalize_locked-Quiet f id value m = elim (asked_row f.requery (lookup id m.db.operations)) [
  | inl e ↦ rw (e, finalize_operation_locked) (Quiet-refl m)
  | inr (row, e, p) ↦ rw (e, finalize_operation_locked) (finalize_row-Quiet f id value row m p)
]

Read-cases :
    (x : String ⊎ SecretCause) → ((v : String) × (x ≡ inl v)) ⊎ ((c : SecretCause) × (x ≡ inr c))
Read-cases (inl v) = inl (v, refl)
Read-cases (inr c) = inr (c, refl)

finalize_applied-Quiet :
    (f : Finalizer) (id name : String) (m : Manager) → Quiet m (finalize_applied f id name m).0
unfolding finalize_applied
finalize_applied-Quiet f id name m = elim (Bool-cases (name == "")) [
  | inl b ↦ rw (b, finalize_applied) (finalize_locked-Quiet f id "" m)
  | inr b ↦ elim (Read-cases (read_secret f name m)) [
    | inl (v, e) ↦ rw (b, e, finalize_applied) (finalize_locked-Quiet f id v m)
    | inr (c, e) ↦ rw (b, e, finalize_applied) (Quiet-refl m)
  ]
]

pub finalize-Quiet :
    (f : Finalizer) (id : String) (m : Manager) → Quiet m (finalize_operation f id m).0
unfolding finalize_operation
finalize-Quiet f id m = elim (asked_row f.query (lookup id m.db.operations)) [
  | inl e ↦ rw (e, finalize_operation) (Quiet-refl m)
  | inr (row, e, p) ↦ elim (State-cases row.state) [
    | inl h ↦ rw (e, h, finalize_operation) (finalize_applied-Quiet f id row.secret_name m)
    | inr (inl h) ↦ rw (e, h, finalize_operation) (Quiet-refl m)
    | inr (inr (inl h)) ↦ rw (e, h, finalize_operation) (Quiet-refl m)
    | inr (inr (inr h)) ↦ rw (e, h, finalize_operation) (Quiet-refl m)
  ]
]

get_operation-Quiet : (q : Query) (id : String) (m : Manager) → Quiet m (get_operation q id m).0
unfolding get_operation
get_operation-Quiet q id m =
    let f = finalize-Quiet q.finalizer id m in
    elim (Bool-cases q.first) [
      | inr b ↦ rw (b, get_operation) (Quiet-refl m)
      | inl b ↦ elim (Option-cases (lookup id m.db.operations)) [
        | inl e ↦ rw (b, e, get_operation) (Quiet-refl m)
        | inr (row, e) ↦ elim (Bool-cases (is_applied row.state)) [
          | inr a ↦ rw (b, e, a, get_operation) (Quiet-refl m)
          | inl a ↦ elim (Option-cases (finalize_operation q.finalizer id m).1) [
            | inl x ↦ rw (b, e, a, x, get_operation) f
            | inr (err, x) ↦ rw (b, e, a, x, get_operation) f
          ]
        ]
      ]
    ]

pub get-Quiet : (q : Query) (id : String) (m : Manager) → Quiet m (get q id m).0
unfolding get
get-Quiet q id m = elim (Option-cases (operation_admission_error m)) [
  | inl e ↦ rw (e, get) (get_operation-Quiet q id m)
  | inr (x, e) ↦ rw (e, get) (Quiet-refl m)
]
