-- ===== src/Daemon/ProviderOps/FlightSteps.antt =====
-- The steps of a flight keep the invariant of Safety.
use mathlib.Core.Path.{subst}
use ratchet_cli.Base.{
  ℕ, ◌≡◌, refl, ◌⊎◌, inl, inr, String, Bool, true, false, some, arith, ◌==◌, eq_refl, Bool-cases,
}
use ratchet_cli.Base.Dict.{Dict, lookup, insert}
use ratchet_cli.Daemon.ProviderOps.Tables.{
  pending, Failure, OperationRow, Database, has, queue_provider_secret_cleanup, update_operation,
  failed_with,
}
use ratchet_cli.Daemon.ProviderOps.Journal.{
  journaled, stored, landing, Flight, Manager, fail_operation,
}
use ratchet_cli.Daemon.ProviderOps.Flights.{
  SetReply, set_done, set_failed, FlightEnv, enter, store_secret,
}
use ratchet_cli.Daemon.ProviderOps.Rows.{
  Moves, Changes, update-Changes, queued_tables, Changes-after,
}
use ratchet_cli.Daemon.ProviderOps.Safety.{
  is_early, is_landing, Journaled, Flies, IsSafe, has_inserted,
}
use ratchet_cli.Daemon.ProviderOps.Keeping.{flight-Safe, landed-Safe, written-Safe}

pub landing-Flies :
    {db db' : Database} {secrets secrets' : Dict String} (alias : String) (f : Flight)
    → Flies alias f db secrets
    → Flies alias (record f { phase = landing }) db' secrets'
landing-Flies alias f h = record {
  requested = h.requested;
  aliased = h.aliased;
  journal = λ p. absurd (cc p);
  held = λ p n. absurd (cc p);
}

failed-Moves :
    (id : String) (why : Failure) (now : ℕ) (row : OperationRow)
    → row.state ≡ pending
    → Moves (id == id) row (failed_with why now row)
failed-Moves id why now row h = record {
  alias = refl;
  secret = refl;
  state = ground (arith, h);
  waits = λ u p. absurd (ground (arith, u, eq_refl id));
}

pub failing-Changes :
    (id name : String) (why : Failure) (now : ℕ) (db : Database)
    → ((row : OperationRow) → lookup id db.operations ≡ some row → row.state ≡ pending)
    → Changes
        (λ k. k == id)
        db
        (update_operation id (failed_with why now) (queue_provider_secret_cleanup now name db))
failing-Changes id name why now db h =
    let (p, o) = queued_tables now name db in
    Changes-after (λ k. k == id) db _ _ p o
      (update-Changes (λ k. k == id) id (failed_with why now) _
        (λ row e. failed-Moves id why now row (h row (rw o at e))))

-- a flight that fails its own pending operation lands
pub failed_enter-Safe :
    (ok : Bool) (now : ℕ) (why : Failure) (alias : String) (f : Flight) (m : Manager)
    → lookup alias m.flights ≡ some f
    → is_landing f.phase ≡ false
    → ((row : OperationRow)
        → lookup f.operation_id m.db.operations ≡ some row
        → row.state ≡ pending)
    → IsSafe m
    → IsSafe (enter alias f landing (fail_operation ok now f.operation_id f.secret_name why m))
unfolding fail_operation
failed_enter-Safe true now why alias f m e early h s =
    landed-Safe alias f _ _ e early (failing-Changes f.operation_id f.secret_name why now m.db h)
      (landing-Flies alias f (s.flying alias f e)) s
failed_enter-Safe false now why alias f m e early h s =
    flight-Safe alias _ (landing-Flies alias f (s.flying alias f e)) s

pub early_pending :
    (alias : String) (f : Flight) (db : Database)
    → Journaled alias f db
    → is_early f.phase ≡ true
    → (row : OperationRow) → lookup f.operation_id db.operations ≡ some row
    → row.state ≡ pending
early_pending alias f db j h row e =
    let same : j.row ≡ row = cc (j.found, e) in
    subst (λ (r : OperationRow). r.state ≡ pending) same (j.waits h)

stored-Flies :
    {db : Database} {secrets secrets' : Dict String} (alias : String) (f : Flight)
    → f.phase ≡ journaled
    → (f.secret_name == "" ≡ false → has f.secret_name secrets' ≡ true)
    → Flies alias f db secrets
    → Flies alias (record f { phase = stored }) db secrets'
stored-Flies alias f e held h =
    let j = h.journal (ground (arith, e)) in
    record {
      requested = h.requested;
      aliased = h.aliased;
      journal = λ p. record {
        row = j.row;
        found = j.found;
        named = j.named;
        secret = j.secret;
        waits = λ q. j.waits (ground (arith, e));
      };
      held = λ p n. held n;
    }

pub SetReply-cases :
    (x : SetReply) → (x ≡ set_done) ⊎ (x ≡ set_failed true) ⊎ (x ≡ set_failed false)
SetReply-cases set_done = inl refl
SetReply-cases (set_failed true) = inr (inl refl)
SetReply-cases (set_failed false) = inr (inr refl)

pub store_secret-Safe :
    (env : FlightEnv) (alias : String) (f : Flight) (m : Manager)
    → lookup alias m.flights ≡ some f
    → f.phase ≡ journaled
    → IsSafe m
    → IsSafe (store_secret env alias f m)
unfolding store_secret
store_secret-Safe env alias f m e p s =
    let h = s.flying alias f e in
    let early : is_landing f.phase ≡ false = ground (arith, p) in
    let waits = early_pending alias f m.db (h.journal early) (ground (arith, p)) in
    let written = written-Safe f.secret_name f.request.api_key s in
    elim (Bool-cases (f.secret_name == "")) [
      | inl b ↦
          rw (b, store_secret)
            (flight-Safe alias _ (stored-Flies alias f p (λ n. absurd (cc (b, n))) h) s)
      | inr b ↦ elim (SetReply-cases env.set) [
        | inl r ↦
            rw (b, r, store_secret)
              (flight-Safe alias _
                (stored-Flies alias f p
                  (λ n. has_inserted f.secret_name f.request.api_key m.secrets) h)
                written)
        | inr (inl r) ↦
            rw (b, r, store_secret)
              (failed_enter-Safe env.fail_ok env.now _ alias f
                (record m { secrets = insert f.secret_name f.request.api_key m.secrets }) e early
                waits written)
        | inr (inr r) ↦
            rw (b, r, store_secret)
              (failed_enter-Safe env.fail_ok env.now _ alias f m e early waits s)
      ]
    ]
