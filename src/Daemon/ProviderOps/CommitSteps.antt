-- ===== src/Daemon/ProviderOps/CommitSteps.antt =====
-- A Commit keeps the invariant of Safety.
use mathlib.Core.Path.{subst}
use ratchet_cli.Base.{
  ◌≡◌, refl, sym, ap, ◌∙◌, inl, inr, String, false, not, ◌||◌, none, some, arith, if◌then◌else◌,
  ◌==◌, eq_iff, eq_refl, Bool-cases, Option-cases,
}
use ratchet_cli.Base.Dict.{Dict, lookup, insert, lookup-insert}
use ratchet_cli.Daemon.ProviderOps.Tables.{SaveRequest, OperationRow, has}
use ratchet_cli.Daemon.ProviderOps.Journal.{
  journaled, Flight, CleanPhase, deleting, Manager, operation_admission_error,
}
use ratchet_cli.Daemon.ProviderOps.Flights.{
  Formats, CommitEnv, journal_row, is_reserved, answer_known, begin_flight,
  validate_provider_save_request, commit,
}
use ratchet_cli.Daemon.ProviderOps.Finalizing.{get-Quiet, Quiet-Safe}
use ratchet_cli.Daemon.ProviderOps.Safety.{Flies, Safe, IsSafe, inserted}

-- the name that a flight takes is not one that a cleanup deletes
undeleted :
    (key drawn n : String) (cleaning : Dict CleanPhase)
    → has drawn cleaning ≡ false
    → lookup n cleaning ≡ some deleting
    → n == "" ≡ false
    → (if key == "" then "" else drawn) == n ≡ false
undeleted key drawn n cleaning h e b = elim (Bool-cases ((if key == "" then "" else drawn) == n)) [
  | inr p ↦ p
  | inl p ↦
      let q : (if key == "" then "" else drawn) ≡ n = (eq_iff _ n).0 p in
      elim (Bool-cases (key == "")) [
        | inl k ↦ absurd (ground (arith, b, (eq_iff n "").1 (sym (rw k at q))))
        | inr k ↦
            let drawn_n : drawn ≡ n = rw k at q in
            let found : lookup drawn cleaning ≡ some deleting =
              ap (λ x. lookup x cleaning) drawn_n ∙ e in
            absurd (ground (arith, h, found))
      ]
]

kept_row :
    (key k : String) (new row : OperationRow) (rows : Dict OperationRow)
    → lookup key rows ≡ none
    → lookup k rows ≡ some row
    → lookup k (insert key new rows) ≡ some row
kept_row key k new row rows h e = elim (Bool-cases (key == k)) [
  | inr b ↦ rw (lookup-insert key k new rows, b) e
  | inl b ↦
      let gone : lookup k rows ≡ none = ap (λ x. lookup x rows) (sym ((eq_iff key k).0 b)) ∙ h in
      absurd (ground (arith, gone, e))
]

journaled-Safe :
    (env : CommitEnv) (req : SaveRequest) (m : Manager)
    → lookup req.operation_id m.db.operations ≡ none
    → has env.drawn m.cleaning ≡ false
    → IsSafe m
    → let name = if req.api_key == "" then "" else env.drawn in
      Safe
        (record m.db {
          operations = insert req.operation_id (journal_row env req name) m.db.operations;
        })
        m.secrets
        (insert req.alias
          (record {
            operation_id = req.operation_id;
            request = req;
            secret_name = name;
            phase = journaled;
          })
          m.flights)
        m.cleaning
journaled-Safe env req m absent draws s =
    let name = if req.api_key == "" then "" else env.drawn in
    let new = journal_row env req name in
    let rows = m.db.operations in
    let flight : Flight = record {
      operation_id = req.operation_id;
      request = req;
      secret_name = name;
      phase = journaled;
    } in
    record {
      kept = s.kept;
      unused = λ n e b. record {
        providers = (s.unused n e b).providers;
        operations = λ id row p a. elim (inserted req.operation_id id new row rows p) [
          | inr (q, r) ↦ (s.unused n e b).operations id row r a
          | inl (q, r) ↦
              ap (λ (x : OperationRow). x.secret_name == n) (sym r)
              ∙ undeleted req.api_key env.drawn n m.cleaning draws e b
        ];
      };
      flying = λ alias f e. elim (inserted req.alias alias flight f m.flights e) [
        | inr (q, r) ↦
            let h = s.flying alias f r in
            record {
              requested = h.requested;
              aliased = h.aliased;
              journal = λ p.
                  let j = h.journal p in
                  record {
                    row = j.row;
                    found = kept_row req.operation_id f.operation_id new j.row rows absent j.found;
                    named = j.named;
                    secret = j.secret;
                    waits = j.waits;
                  };
              held = h.held;
            }
        | inl (q, r) ↦
            subst
              (λ x.
                Flies alias x (record m.db { operations = insert req.operation_id new rows })
                  m.secrets)
              r
              (record {
                requested = refl;
                aliased = q;
                journal = λ p. record {
                  row = new;
                  found =
                      rw
                        (
                          lookup-insert req.operation_id req.operation_id new rows,
                          eq_refl req.operation_id,
                        )
                        refl;
                  named = q;
                  secret = refl;
                  waits = λ w. refl;
                };
                held = λ p n. absurd (cc p);
              })
      ];
    }

begin_flight-Safe :
    (env : CommitEnv) (req : SaveRequest) (m : Manager)
    → lookup req.operation_id m.db.operations ≡ none
    → has env.drawn m.cleaning ≡ false
    → IsSafe m
    → IsSafe (begin_flight env req m).0
unfolding begin_flight
begin_flight-Safe env req m absent draws s = elim (Bool-cases (has req.alias m.flights)) [
  | inl b ↦ rw (b, begin_flight) s
  | inr b ↦
      elim (Bool-cases
        (not env.insert_ok || is_reserved req (if req.api_key == "" then "" else env.drawn) m.db)) [
          | inl r ↦ rw (b, r, begin_flight) s
          | inr r ↦ rw (b, r, begin_flight) (journaled-Safe env req m absent draws s)
        ]
]

answer_known-Safe :
    (env : CommitEnv) (req : SaveRequest) (row : OperationRow) (m : Manager)
    → IsSafe m
    → IsSafe (answer_known env req row m).0
unfolding answer_known
answer_known-Safe env req row m s =
    let asked = Quiet-Safe m _ (get-Quiet env.replay req.operation_id m) s in
    elim (Bool-cases (row.alias == req.alias)) [
      | inr a ↦ rw (a, answer_known) s
      | inl a ↦ elim (Option-cases (lookup req.alias m.flights)) [
        | inl e ↦ rw (a, e, answer_known) asked
        | inr (f, e) ↦ elim (Bool-cases (f.operation_id == req.operation_id)) [
          | inl b ↦ rw (a, e, b, answer_known) s
          | inr b ↦ rw (a, e, b, answer_known) asked
        ]
      ]
    ]

module _ (formats : Formats) where
  pub commit-Safe :
      (env : CommitEnv) (given : SaveRequest) (m : Manager)
      → has env.drawn m.cleaning ≡ false
      → IsSafe m
      → IsSafe (commit formats env given m).0
  unfolding commit
  commit-Safe env given m draws s = elim (Option-cases (operation_admission_error m)) [
    | inr (x, e) ↦ rw (e, commit) s
    | inl e ↦ elim (Option-cases (validate_provider_save_request formats given)) [
      | inl v ↦ rw (e, v, commit) s
      | inr (req, v) ↦ elim (Bool-cases env.query) [
        | inr q ↦ rw (e, v, q, commit) s
        | inl q ↦ elim (Option-cases (lookup req.operation_id m.db.operations)) [
          | inl p ↦ rw (e, v, q, p, commit) (begin_flight-Safe env req m p draws s)
          | inr (row, p) ↦ rw (e, v, q, p, commit) (answer_known-Safe env req row m s)
        ]
      ]
    ]
  ]
