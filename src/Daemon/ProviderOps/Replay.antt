-- ===== src/Daemon/ProviderOps/Replay.antt =====
-- A Commit that waits for a flight is the only one for its operation and its alias.
use mathlib.Core.Path.{subst}
use ratchet_cli.Base.{
  ◌≡◌, refl, sym, ap, ◌∙◌, inl, inr, String, Bool, true, false, not, ◌||◌, Option, none, some,
  arith, if◌then◌else◌, ◌==◌, eq_iff, eq_refl, Bool-cases, Option-cases,
}
use ratchet_cli.Base.Dict.{lookup, lookup-insert}
use ratchet_cli.Daemon.ProviderOps.Tables.{
  SaveRequest, OperationRow, conflict, alias_busy, is_applied, has,
}
use ratchet_cli.Daemon.ProviderOps.Journal.{
  journaled, Flight, Manager, Answer, synthetic, waits, operation_admission_error, reread,
  finalize_operation, Query, get_operation, get,
}
use ratchet_cli.Daemon.ProviderOps.Flights.{
  Formats, CommitEnv, journal_row, is_reserved, answer_known, answer_unjournaled, begin_flight,
  validate_provider_save_request, commit,
}

-- the operation whose flight is waited for
abbrev flight_of : Answer → Option String
flight_of (waits id) = some id
flight_of _ = none

reread_waits : (b : Bool) (x : Option OperationRow) → flight_of (reread b x) ≡ none
reread_waits false x = refl
reread_waits true none = refl
reread_waits true (some row) = refl

get_operation_waits :
    (q : Query) (id : String) (m : Manager) → flight_of (get_operation q id m).1 ≡ none
unfolding get_operation
get_operation_waits q id m = elim (Bool-cases q.first) [
  | inr b ↦ rw (b, get_operation) refl
  | inl b ↦ elim (Option-cases (lookup id m.db.operations)) [
    | inl e ↦ rw (b, e, get_operation) refl
    | inr (row, e) ↦ elim (Bool-cases (is_applied row.state)) [
      | inr a ↦ rw (b, e, a, get_operation) refl
      | inl a ↦ elim (Option-cases (finalize_operation q.finalizer id m).1) [
        | inl x ↦ rw (b, e, a, x, get_operation) (reread_waits q.second _)
        | inr (err, x) ↦ rw (b, e, a, x, get_operation) refl
      ]
    ]
  ]
]

get_waits : (q : Query) (id : String) (m : Manager) → flight_of (get q id m).1 ≡ none
unfolding get
get_waits q id m = elim (Option-cases (operation_admission_error m)) [
  | inl e ↦ rw (e, get) (get_operation_waits q id m)
  | inr (x, e) ↦ rw (e, get) refl
]

-- the state in which a caller waits for an operation's flight
record IsWaiting (id alias : String) (m : Manager) : Type 0 where
  row : OperationRow
  found : lookup id m.db.operations ≡ some row
  named : row.alias ≡ alias
  flight : Flight
  flown : lookup alias m.flights ≡ some flight
  own : flight.operation_id ≡ id
  admitted : operation_admission_error m ≡ none

known-IsWaiting :
    (env : CommitEnv) (req : SaveRequest) (row : OperationRow) (m : Manager) (id : String)
    → operation_admission_error m ≡ none
    → lookup req.operation_id m.db.operations ≡ some row
    → flight_of (answer_known env req row m).1 ≡ some id
    → (id ≡ req.operation_id) × IsWaiting req.operation_id req.alias (answer_known env req row m).0
unfolding answer_known
known-IsWaiting env req row m id ok e h = elim (Bool-cases (row.alias == req.alias)) [
  | inr a ↦ absurd (cc (rw (a, answer_known) at h))
  | inl a ↦ elim (Option-cases (lookup req.alias m.flights)) [
    | inl f ↦
        absurd
          (ground (arith, get_waits env.replay req.operation_id m, rw (a, f, answer_known) at h))
    | inr (flight, f) ↦ elim (Bool-cases (flight.operation_id == req.operation_id)) [
      | inr b ↦
          absurd (
            ground
              (arith, get_waits env.replay req.operation_id m, rw (a, f, b, answer_known) at h))
      | inl b ↦
          let own = (eq_iff flight.operation_id req.operation_id).0 b in
          let same : flight.operation_id ≡ id = ground (arith, rw (a, f, b, answer_known) at h) in
          rw (a, f, b, answer_known)
            (
              sym same ∙ own,
              record {
                row = row;
                found = e;
                named = (eq_iff row.alias req.alias).0 a;
                flight = flight;
                flown = f;
                own = own;
                admitted = ok;
              },
            )
    ]
  ]
]

unjournaled_waits :
    (env : CommitEnv) (req : SaveRequest) (m : Manager)
    → flight_of (answer_unjournaled env req m) ≡ none
unfolding answer_unjournaled
unjournaled_waits env req m =
    elim (Option-cases (if env.requery then lookup req.operation_id m.db.operations else none)) [
      | inl e ↦ rw (e, answer_unjournaled) refl
      | inr (row, e) ↦ elim (Bool-cases (row.alias == req.alias)) [
        | inl b ↦ rw (e, b, answer_unjournaled) refl
        | inr b ↦ rw (e, b, answer_unjournaled) refl
      ]
    ]

begun-IsWaiting :
    (env : CommitEnv) (req : SaveRequest) (m : Manager) (id : String)
    → operation_admission_error m ≡ none
    → flight_of (begin_flight env req m).1 ≡ some id
    → (id ≡ req.operation_id) × IsWaiting req.operation_id req.alias (begin_flight env req m).0
unfolding begin_flight
begun-IsWaiting env req m id ok h =
    let name = if req.api_key == "" then "" else env.drawn in
    let new = journal_row env req name in
    let flight : Flight = record {
      operation_id = req.operation_id;
      request = req;
      secret_name = name;
      phase = journaled;
    } in
    elim (Bool-cases (has req.alias m.flights)) [
      | inl b ↦ absurd (cc (rw (b, begin_flight) at h))
      | inr b ↦
          elim (Bool-cases (
            not env.insert_ok
            || is_reserved req (if req.api_key == "" then "" else env.drawn) m.db)) [
              | inl r ↦
                  absurd (ground (arith, unjournaled_waits env req m, rw (b, r, begin_flight) at h))
              | inr r ↦
                  let same : req.operation_id ≡ id = ground (arith, rw (b, r, begin_flight) at h) in
                  rw (b, r, begin_flight)
                    (
                      sym same,
                      record {
                        row = new;
                        found =
                            rw
                              (
                                lookup-insert req.operation_id req.operation_id new m.db.operations,
                                eq_refl req.operation_id,
                              )
                              refl;
                        named = refl;
                        flight = flight;
                        flown =
                            rw
                              (
                                lookup-insert req.alias req.alias flight m.flights,
                                eq_refl req.alias,
                              )
                              refl;
                        own = refl;
                        admitted = ok;
                      },
                    )
            ]
    ]

module _ (formats : Formats) where
  committed-IsWaiting :
      (env : CommitEnv) (given req : SaveRequest) (m : Manager) (id : String)
      → validate_provider_save_request formats given ≡ some req
      → (commit formats env given m).1 ≡ waits id
      → (id ≡ req.operation_id)
        × IsWaiting req.operation_id req.alias (commit formats env given m).0
  unfolding commit
  committed-IsWaiting env given req m id v h = elim (Option-cases (operation_admission_error m)) [
    | inr (x, e) ↦ absurd (cc (rw (e, commit) at h))
    | inl e ↦ elim (Bool-cases env.query) [
      | inr q ↦ absurd (cc (rw (e, v, q, commit) at h))
      | inl q ↦ elim (Option-cases (lookup req.operation_id m.db.operations)) [
        | inl p ↦
            rw (e, v, q, p, commit)
              (begun-IsWaiting env req m id e (ap flight_of (rw (e, v, q, p, commit) at h)))
        | inr (row, p) ↦
            rw (e, v, q, p, commit)
              (known-IsWaiting env req row m id e p (ap flight_of (rw (e, v, q, p, commit) at h)))
      ]
    ]
  ]

  repeated :
      (env : CommitEnv) (given req : SaveRequest) (id alias : String) (m : Manager)
      → validate_provider_save_request formats given ≡ some req
      → env.query ≡ true
      → IsWaiting id alias m
      → req.operation_id ≡ id
      → commit formats env given m
        ≡ (m, if alias == req.alias then waits id else synthetic conflict)
  unfolding commit answer_known
  repeated env given req id alias m v q w e =
      let found : lookup req.operation_id m.db.operations ≡ some w.row =
        ap (λ x. lookup x m.db.operations) e ∙ w.found in
      elim (Bool-cases (alias == req.alias)) [
        | inr d ↦ rw (w.admitted, v, q, found, commit) (rw (w.named, d, answer_known) refl)
        | inl d ↦
            let same : alias ≡ req.alias = (eq_iff alias req.alias).0 d in
            let flown : lookup req.alias m.flights ≡ some w.flight =
              ap (λ x. lookup x m.flights) (sym same) ∙ w.flown in
            let own : w.flight.operation_id == req.operation_id ≡ true =
              (eq_iff w.flight.operation_id req.operation_id).1 (w.own ∙ sym e) in
            rw (w.admitted, v, q, found, commit)
              (rw (w.named, d, flown, own, w.own, answer_known) refl)
      ]

  busy :
      (env : CommitEnv) (given req : SaveRequest) (id alias : String) (m : Manager)
      → validate_provider_save_request formats given ≡ some req
      → env.query ≡ true
      → IsWaiting id alias m
      → lookup req.operation_id m.db.operations ≡ none
      → req.alias ≡ alias
      → commit formats env given m ≡ (m, synthetic alias_busy)
  unfolding commit begin_flight
  busy env given req id alias m v q w e d =
      let flown : lookup req.alias m.flights ≡ some w.flight =
        ap (λ x. lookup x m.flights) d ∙ w.flown in
      let up : has req.alias m.flights ≡ true = rw (flown, has) refl in
      rw (w.admitted, v, q, e, commit) (rw (up, begin_flight) refl)

  -- A Commit of a valid request that waits for a flight waits for the one of its own operation. In the
  -- state that it leaves, a second Commit of the operation, with a journal that answers, waits for the
  -- flight of the same operation, or under another alias is refused as a conflict; and a Commit of an
  -- operation that is not in the journal, on the alias, is refused as busy. Neither changes anything.
  pub commit_once :
      (env env' : CommitEnv) (given req given' req' other new : SaveRequest) (m : Manager)
      (id : String)
      → validate_provider_save_request formats given ≡ some req
      → (commit formats env given m).1 ≡ waits id
      → env'.query ≡ true
      → validate_provider_save_request formats given' ≡ some req'
      → req'.operation_id ≡ req.operation_id
      → validate_provider_save_request formats other ≡ some new
      → lookup new.operation_id (commit formats env given m).0.db.operations ≡ none
      → new.alias ≡ req.alias
      → let m' = (commit formats env given m).0 in
        (id ≡ req.operation_id)
        × (commit formats env' given' m'
            ≡ (m', if req.alias == req'.alias then waits id else synthetic conflict))
        × (commit formats env' other m' ≡ (m', synthetic alias_busy))
  commit_once env env' given req given' req' other new m id v h q v' e v'' n a =
      let (same, w) = committed-IsWaiting env given req m id v h in
      (
        same,
        subst
            (λ (x : String). commit formats env' given' (commit formats env given m).0 ≡ (
              (commit formats env given m).0,
              if req.alias == req'.alias then waits x else synthetic conflict,
            ))
            (sym same) (repeated env' given' req' req.operation_id req.alias _ v' q w e),
        busy env' other new req.operation_id req.alias _ v'' q w n a,
      )
