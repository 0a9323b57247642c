-- ===== src/Daemon/ProviderOps/Progress.antt =====
-- The operations of the journal only move on, while the process lives.
use mathlib.Core.Path.{subst}
use ratchet_cli.Base.{
  ℕ, ◌≡◌, refl, sym, ap, ◌∙◌, inl, inr, String, Bool, true, false, Option, none, some, arith,
  if◌then◌else◌, ◌==◌, Bool-cases, Option-cases,
}
use ratchet_cli.Base.Dict.{lookup, insert}
use ratchet_cli.Daemon.ProviderOps.Tables.{
  OperationState, pending, applied, committed, failed, Failure, SaveRequest, OperationRow, Database,
  limited, replaces, secret_of, queue_provider_secret_cleanup, apply_provider,
}
use ratchet_cli.Daemon.ProviderOps.Journal.{Flight, Manager, fail_operation}
use ratchet_cli.Daemon.ProviderOps.Flights.{
  FlightEnv, store_secret, apply_flight, step_flight, recover_row, recover_flight,
}
use ratchet_cli.Daemon.ProviderOps.Rows.{may_follow, RowMoves, Changes, queued_tables}
use ratchet_cli.Daemon.ProviderOps.Safety.{IsSafe}
use ratchet_cli.Daemon.ProviderOps.Finalizing.{finalize_locked-Quiet, State-cases}
use ratchet_cli.Daemon.ProviderOps.FlightSteps.{failing-Changes, early_pending, SetReply-cases}
use ratchet_cli.Daemon.ProviderOps.Applying.{applied-Changes}
use ratchet_cli.Daemon.ProviderOps.FlightRuns.{Phase-cases, recovered_row}

-- what a state can become by some transitions
abbrev pub may_become : OperationState → OperationState → Bool
may_become pending _ = true
may_become applied applied = true
may_become applied committed = true
may_become committed committed = true
may_become failed failed = true
may_become _ _ = false

pub record Becomes (row row' : OperationRow) : Type 0 where
  pub alias : row'.alias ≡ row.alias
  pub secret : row'.secret_name ≡ row.secret_name
  pub state : may_become row.state row'.state ≡ true

abbrev pub RowGoes : Option OperationRow → Option OperationRow → Type 0
RowGoes none y = Unit
RowGoes (some row) none = ⊥
RowGoes (some row) (some row') = Becomes row row'

pub record Goes (db db' : Database) : Type 0 where
  pub rows : (id : String) → RowGoes (lookup id db.operations) (lookup id db'.operations)

become_refl : (s : OperationState) → may_become s s ≡ true
become_refl pending = refl
become_refl applied = refl
become_refl committed = refl
become_refl failed = refl

pub RowGoes-refl : (x : Option OperationRow) → RowGoes x x
RowGoes-refl none = tt
RowGoes-refl (some row) = record { alias = refl; secret = refl; state = become_refl row.state }

become_trans :
    (a b c : OperationState) → may_become a b ≡ true → may_become b c ≡ true → may_become a c ≡ true
become_trans a b c h k = ground (arith, h, k)

pub RowGoes-trans : (x y z : Option OperationRow) → RowGoes x y → RowGoes y z → RowGoes x z
RowGoes-trans none y z h k = tt
RowGoes-trans (some a) none z h k = absurd h
RowGoes-trans (some a) (some b) none h k = absurd k
RowGoes-trans (some a) (some b) (some c) h k = record {
  alias = k.alias ∙ h.alias;
  secret = k.secret ∙ h.secret;
  state = become_trans a.state b.state c.state h.state k.state;
}

follow-become : (a b : OperationState) → may_follow a b ≡ true → may_become a b ≡ true
follow-become a b h = ground (arith, h)

RowMoves-RowGoes : (t : Bool) (x y : Option OperationRow) → RowMoves t x y → RowGoes x y
RowMoves-RowGoes t none y h = tt
RowMoves-RowGoes t (some row) none h = h
RowMoves-RowGoes t (some row) (some row') h = record {
  alias = h.alias;
  secret = h.secret;
  state = follow-become row.state row'.state h.state;
}

pub changed-Goes : (t : String → Bool) (db db' : Database) → Changes t db db' → Goes db db'
changed-Goes t db db' c = record { rows = λ id. RowMoves-RowGoes (t id) _ _ (c.operations id) }

pub same-Goes : (db db' : Database) → db'.operations ≡ db.operations → Goes db db'
same-Goes db db' e = record { rows = λ id. rw e (RowGoes-refl (lookup id db.operations)) }

pub Goes-refl : (db : Database) → Goes db db
Goes-refl db = same-Goes db db refl

failed-Goes :
    (ok : Bool) (now : ℕ) (id name : String) (why : Failure) (m : Manager)
    → ((row : OperationRow) → lookup id m.db.operations ≡ some row → row.state ≡ pending)
    → Goes m.db (fail_operation ok now id name why m).db
unfolding fail_operation
failed-Goes true now id name why m h =
    changed-Goes (λ k. k == id) _ _ (failing-Changes id name why now m.db h)
failed-Goes false now id name why m h = Goes-refl m.db

store_secret-Goes :
    (env : FlightEnv) (alias : String) (f : Flight) (m : Manager)
    → ((row : OperationRow)
        → lookup f.operation_id m.db.operations ≡ some row
        → row.state ≡ pending)
    → Goes m.db (store_secret env alias f m).db
unfolding store_secret
store_secret-Goes env alias f m h = elim (Bool-cases (f.secret_name == "")) [
  | inl b ↦ rw (b, store_secret) (Goes-refl m.db)
  | inr b ↦ elim (SetReply-cases env.set) [
    | inl r ↦ rw (b, r, store_secret) (Goes-refl m.db)
    | inr (inl r) ↦
        rw (b, r, store_secret)
          (failed-Goes env.fail_ok env.now f.operation_id f.secret_name _
            (record m { secrets = insert f.secret_name f.request.api_key m.secrets }) h)
    | inr (inr r) ↦
        rw (b, r, store_secret) (failed-Goes env.fail_ok env.now f.operation_id f.secret_name _ m h)
  ]
]

chosen_operations :
    (b : Bool) (now : ℕ) (name : String) (db : Database)
    → (if b then queue_provider_secret_cleanup now name db else db).operations ≡ db.operations
chosen_operations true now name db = (queued_tables now name db).1
chosen_operations false now name db = refl

apply-Goes :
    (now : ℕ) (id name : String) (req : SaveRequest) (db : Database)
    → ((row : OperationRow)
        → lookup req.operation_id db.operations ≡ some row
        → row.state ≡ pending)
    → Goes db (apply_provider now id req name db)
unfolding apply_provider
apply-Goes now id name req db h = record {
  rows = λ k.
      let old = secret_of (lookup req.alias db.providers) in
      let o = chosen_operations (replaces old name) now old _ in
      let c =
        applied-Changes req.operation_id (limited req) now _
          (λ row e. h row (sym (ap (lookup req.operation_id) o) ∙ e)) in
      subst (λ x. RowGoes (lookup k x) (lookup k (apply_provider now id req name db).operations)) o
        (RowMoves-RowGoes (k == req.operation_id) _ _ (c.operations k));
}

apply_flight-Goes :
    (env : FlightEnv) (alias : String) (f : Flight) (m : Manager)
    → f.request.operation_id ≡ f.operation_id
    → ((row : OperationRow)
        → lookup f.operation_id m.db.operations ≡ some row
        → row.state ≡ pending)
    → Goes m.db (apply_flight env alias f m).db
unfolding apply_flight
apply_flight-Goes env alias f m i h = elim (Bool-cases env.apply_ok) [
  | inl b ↦
      rw (b, apply_flight)
        (apply-Goes env.now env.provider_id f.secret_name f.request m.db
          (λ row e. h row (sym (ap (λ x. lookup x m.db.operations) i) ∙ e)))
  | inr b ↦
      rw (b, apply_flight) (failed-Goes env.fail_ok env.now f.operation_id f.secret_name _ m h)
]

pub step_flight-Goes :
    (env : FlightEnv) (alias : String) (m : Manager)
    → IsSafe m
    → Goes m.db (step_flight env alias m).db
unfolding step_flight
step_flight-Goes env alias m s = elim (Option-cases (lookup alias m.flights)) [
  | inl e ↦ rw (e, step_flight) (Goes-refl m.db)
  | inr (f, e) ↦
      let h = s.flying alias f e in
      elim (Phase-cases f.phase) [
        | inl p ↦
            rw (e, p, step_flight)
              (store_secret-Goes env alias f m
                (early_pending alias f m.db (h.journal (ground (arith, p))) (ground (arith, p))))
        | inr (inl p) ↦
            rw (e, p, step_flight)
              (apply_flight-Goes env alias f m h.requested
                (early_pending alias f m.db (h.journal (ground (arith, p))) (ground (arith, p))))
        | inr (inr (inl p)) ↦
            rw (e, p, step_flight)
              (changed-Goes _ _ _
                (finalize_locked-Quiet env.finalizer f.operation_id f.request.api_key m).db)
        | inr (inr (inr p)) ↦ rw (e, p, step_flight) (Goes-refl m.db)
      ]
]

recover_row-Goes :
    (env : FlightEnv) (alias : String) (f : Flight) (m : Manager)
    → Goes m.db (recover_row env alias f m).db
unfolding recover_row
recover_row-Goes env alias f m =
    elim (recovered_row env.apply_ok (lookup f.operation_id m.db.operations)) [
      | inl q ↦ rw (q, recover_row) (Goes-refl m.db)
      | inr (row, q, p) ↦ elim (State-cases row.state) [
        | inr (inl h) ↦
            rw (q, h, recover_row)
              (failed-Goes env.fail_ok env.now f.operation_id f.secret_name _ m (λ r u.
                let same : row ≡ r = cc (p, u) in
                subst (λ (x : OperationRow). x.state ≡ pending) same h))
        | inl h ↦ rw (q, h, recover_row) (Goes-refl m.db)
        | inr (inr (inl h)) ↦ rw (q, h, recover_row) (Goes-refl m.db)
        | inr (inr (inr h)) ↦ rw (q, h, recover_row) (Goes-refl m.db)
      ]
    ]

pub recover_flight-Goes :
    (env : FlightEnv) (alias : String) (m : Manager) → Goes m.db (recover_flight env alias m).db
unfolding recover_flight
recover_flight-Goes env alias m = elim (Option-cases (lookup alias m.flights)) [
  | inl e ↦ rw (e, recover_flight) (Goes-refl m.db)
  | inr (f, e) ↦ elim (Phase-cases f.phase) [
    | inl p ↦ rw (e, p, recover_flight) (recover_row-Goes env alias f m)
    | inr (inl p) ↦ rw (e, p, recover_flight) (recover_row-Goes env alias f m)
    | inr (inr (inl p)) ↦ rw (e, p, recover_flight) (recover_row-Goes env alias f m)
    | inr (inr (inr p)) ↦ rw (e, p, recover_flight) (Goes-refl m.db)
  ]
]
