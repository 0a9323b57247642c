-- ===== src/Daemon/ProviderOps/Applying.antt =====
-- The transaction of applyProviderLocked keeps the invariant of Safety.
use mathlib.Core.Path.{subst}
use ratchet_cli.Base.{
  ℕ, ◌≡◌, refl, sym, ap, ◌∙◌, ◌⊎◌, inl, inr, String, Bool, true, false, Option, none, some, arith,
  if◌then◌else◌, ◌==◌, eq_refl, Bool-cases, Option-cases,
}
use ratchet_cli.Base.Dict.{Dict, lookup, insert, map_entries, lookup-map_entries}
use ratchet_cli.Daemon.ProviderOps.Tables.{
  pending, SaveRequest, ProviderRow, OperationRow, Database, has, queue_provider_secret_cleanup,
  update_operation, applied_row, upserted, secret_of, limited, replaces, apply_provider,
}
use ratchet_cli.Daemon.ProviderOps.Journal.{stored, saved, Flight, CleanPhase, Manager}
use ratchet_cli.Daemon.ProviderOps.Flights.{FlightEnv, apply_flight}
use ratchet_cli.Daemon.ProviderOps.Rows.{Changes, same-Changes, update-Changes, queued_tables}
use ratchet_cli.Daemon.ProviderOps.Safety.{is_landing, Unreferenced, Flies, Safe, IsSafe, inserted}
use ratchet_cli.Daemon.ProviderOps.Keeping.{untouched-Safe, landed-Safe}
use ratchet_cli.Daemon.ProviderOps.Rows.{row_after}
use ratchet_cli.Daemon.ProviderOps.FlightSteps.{failed_enter-Safe, early_pending}

-- the secret that an upserted row has
upserted_secret :
    (id : String) (req : SaveRequest) (name : String) (old : Option ProviderRow)
    → ((upserted id req name old).secret_name ≡ name)
      ⊎ ((row : ProviderRow) × (old ≡ some row)
          × ((upserted id req name old).secret_name ≡ row.secret_name))
unfolding upserted
upserted_secret id req name none = inl refl
upserted_secret id req name (some row) = elim (Bool-cases (name == "")) [
  | inl b ↦ inr (row, refl, rw b refl)
  | inr b ↦ inl (rw b refl)
]

-- Provider rows with one new reference, to a secret that is held and that no cleanup deletes.
record Refers (name : String) (db : Database) (rows : Dict ProviderRow) : Type 0 where
  providers :
      (alias : String) (row' : ProviderRow)
      → lookup alias rows ≡ some row'
      → (row'.secret_name ≡ name)
        ⊎ ((row : ProviderRow) × (lookup alias db.providers ≡ some row)
            × (row'.secret_name ≡ row.secret_name))

referred-Safe :
    {db : Database} {secrets : Dict String} {flights : Dict Flight} {cleaning : Dict CleanPhase}
    (name : String) (rows : Dict ProviderRow)
    → Refers name db rows
    → (name == "" ≡ false → has name secrets ≡ true)
    → ((n : String) → Unreferenced n db → name == n ≡ false)
    → Safe db secrets flights cleaning
    → Safe (record db { providers = rows }) secrets flights cleaning
referred-Safe {db} {secrets} name rows r held away s = record {
  kept = λ alias row' e n. elim (r.providers alias row' e) [
    | inl p ↦ subst (λ x. has x secrets ≡ true) (sym p) (held (ap (λ x. x == "") (sym p) ∙ n))
    | inr (row, q, p) ↦
        subst (λ x. has x secrets ≡ true) (sym p)
          (s.kept alias row q (ap (λ x. x == "") (sym p) ∙ n))
  ];
  unused = λ n e b.
      let u = s.unused n e b in
      record {
        providers = λ alias row' q. elim (r.providers alias row' q) [
          | inl p ↦ ap (λ x. x == n) p ∙ away n u
          | inr (row, q', p) ↦ ap (λ x. x == n) p ∙ u.providers alias row q'
        ];
        operations = u.operations;
      };
  flying = λ alias f e.
      let h = s.flying alias f e in
      record {
        requested = h.requested;
        aliased = h.aliased;
        journal = λ p.
            let j = h.journal p in
            record {
              row = j.row;
              found = j.found;
              named = j.named;
              secret = j.secret;
              waits = j.waits;
            };
        held = h.held;
      };
}

-- the rows of the transaction, after the defaults were cleared
rows_of : Bool → Dict ProviderRow → Dict ProviderRow
rows_of b rows =
    if b
    then map_entries (λ alias (row : ProviderRow). record row { is_default = false }) rows
    else rows

cleared_row :
    (b : Bool) (rows : Dict ProviderRow) (alias : String) (row' : ProviderRow)
    → lookup alias (rows_of b rows) ≡ some row'
    → (row : ProviderRow) × (lookup alias rows ≡ some row) × (row'.secret_name ≡ row.secret_name)
unfolding rows_of
cleared_row false rows alias row' e = (row', e, refl)
cleared_row true rows alias row' e = elim (Option-cases (lookup alias rows)) [
  | inl p ↦ absurd (
      cc (
        rw
          (
            lookup-map_entries (λ k (row : ProviderRow). record row { is_default = false }) alias
                rows,
            p,
          )
          at e))
  | inr (row, p) ↦
      let q : record row { is_default = false } ≡ row' = cc (
        rw
          (
            lookup-map_entries (λ k (row : ProviderRow). record row { is_default = false }) alias
                rows,
            p,
          )
          at e) in
      (row, p, ap (λ (r : ProviderRow). r.secret_name) (sym q))
]

upserted-Refers :
    (b : Bool) (id : String) (req : SaveRequest) (name : String) (db : Database)
    → Refers name db (
        insert req.alias
          (upserted id req name (lookup req.alias (rows_of b db.providers)))
          (rows_of b db.providers))
upserted-Refers b id req name db = record {
  providers = λ alias row' e. elim (inserted req.alias alias _ row' (rows_of b db.providers) e) [
    | inr (n, p) ↦ inr (cleared_row b db.providers alias row' p)
    | inl (p, q) ↦ elim (upserted_secret id req name (lookup req.alias (rows_of b db.providers))) [
      | inl s ↦ inl (ap (λ (r : ProviderRow). r.secret_name) (sym q) ∙ s)
      | inr (row, s, t) ↦
          let (row0, u, v) = cleared_row b db.providers req.alias row s in
          inr (
            row0,
            sym (ap (λ k. lookup k db.providers) p) ∙ u,
            ap (λ (r : ProviderRow). r.secret_name) (sym q) ∙ t ∙ v,
          )
    ]
  ];
}

pub applied-Changes :
    (id : String) (req : SaveRequest) (now : ℕ) (db : Database)
    → ((row : OperationRow) → lookup id db.operations ≡ some row → row.state ≡ pending)
    → Changes (λ k. k == id) db (update_operation id (applied_row req now) db)
applied-Changes id req now db h =
    update-Changes (λ k. k == id) id (applied_row req now) db
      (λ row e. record {
        alias = refl;
        secret = refl;
        state = ground (arith, h row e);
        waits = λ u p. absurd (ground (arith, u, eq_refl id));
      })

saved-Flies :
    {db : Database} {secrets secrets' : Dict String} (t : String → Bool) (db' : Database)
    (alias : String) (f : Flight)
    → Changes t db db'
    → is_landing f.phase ≡ false
    → Flies alias f db secrets
    → Flies alias (record f { phase = saved }) db' secrets'
saved-Flies t db' alias f c early h =
    let j = h.journal early in
    let (row', e, v) =
      row_after (t f.operation_id) _ _ j.row (c.operations f.operation_id) j.found in
    record {
      requested = h.requested;
      aliased = h.aliased;
      journal = λ p. record {
        row = row';
        found = e;
        named = v.alias ∙ j.named;
        secret = v.secret ∙ j.secret;
        waits = λ q. absurd (cc q);
      };
      held = λ p n. absurd (cc p);
    }

-- the update of the journal, whose row is pending
marked-Safe :
    {secrets : Dict String} {flights : Dict Flight} {cleaning : Dict CleanPhase} (alias id : String)
    (f : Flight) (req : SaveRequest) (now : ℕ) (db : Database)
    → lookup alias flights ≡ some f
    → f.phase ≡ stored
    → id ≡ f.operation_id
    → Safe db secrets flights cleaning
    → Safe
        (update_operation id (applied_row req now) db)
        secrets
        (insert alias (record f { phase = saved }) flights)
        cleaning
marked-Safe alias id f req now db e p i s =
    let h = s.flying alias f e in
    let early : is_landing f.phase ≡ false = ground (arith, p) in
    let waits = early_pending alias f db (h.journal early) (ground (arith, p)) in
    let c = applied-Changes f.operation_id req now db waits in
    rw i (landed-Safe alias f _ _ e early c (saved-Flies _ _ alias f c early h) s)

queued-Safe :
    {secrets : Dict String} {flights : Dict Flight} {cleaning : Dict CleanPhase} (b : Bool)
    (now : ℕ) (name : String) (db : Database)
    → Safe db secrets flights cleaning
    → Safe (if b then queue_provider_secret_cleanup now name db else db) secrets flights cleaning
queued-Safe true now name db s =
    let (p, o) = queued_tables now name db in untouched-Safe _ (same-Changes _ db _ p o) s
queued-Safe false now name db s = s

-- the rows after the transaction of a flight that holds its secret
upserted-Safe :
    (env : FlightEnv) (alias : String) (f : Flight) (req : SaveRequest) (m : Manager)
    → lookup alias m.flights ≡ some f
    → f.phase ≡ stored
    → IsSafe m
    → Safe
        (record m.db {
          providers =
              insert req.alias
                (upserted env.provider_id req f.secret_name
                  (lookup req.alias (rows_of req.is_default m.db.providers)))
                (rows_of req.is_default m.db.providers);
        })
        m.secrets
        m.flights
        m.cleaning
upserted-Safe env alias f req m e p s =
    let h = s.flying alias f e in
    let j = h.journal (ground (arith, p)) in
    referred-Safe f.secret_name _
      (upserted-Refers req.is_default env.provider_id req f.secret_name m.db)
      (h.held (ground (arith, p)))
      (λ n u.
        ap (λ x. x == n) (sym j.secret)
        ∙ u.operations f.operation_id j.row j.found (ground (arith, j.waits (ground (arith, p)))))
      s

pub apply_flight-Safe :
    (env : FlightEnv) (alias : String) (f : Flight) (m : Manager)
    → lookup alias m.flights ≡ some f
    → f.phase ≡ stored
    → IsSafe m
    → IsSafe (apply_flight env alias f m)
unfolding apply_flight apply_provider rows_of
apply_flight-Safe env alias f m e p s =
    let h = s.flying alias f e in
    let early : is_landing f.phase ≡ false = ground (arith, p) in
    let waits = early_pending alias f m.db (h.journal early) (ground (arith, p)) in
    let req = limited f.request in
    let old = secret_of (lookup f.request.alias m.db.providers) in
    elim (Bool-cases env.apply_ok) [
      | inl b ↦
          rw (b, apply_flight)
            (marked-Safe alias f.request.operation_id f req env.now _ e p h.requested (
              queued-Safe (replaces old f.secret_name) env.now old _
                (upserted-Safe env alias f req m e p s)))
      | inr b ↦
          rw (b, apply_flight) (failed_enter-Safe env.fail_ok env.now _ alias f m e early waits s)
    ]
