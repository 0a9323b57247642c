-- ===== src/Daemon/ProviderOps/Recovery.antt =====
-- What a successful start leaves in the journal.
use ratchet_cli.Base.{
  ℕ, ◌≡◌, refl, sym, ap, ◌∙◌, inl, inr, String, Bool, true, false, none, some, List, [], ◌∷◌, arith,
  if◌then◌else◌, ◌==◌, eqb, Bool-cases, Option-cases,
}
use text.Mathlib.Text.{starts_with}
use ratchet_cli.Base.Dict.{Dict, lookup, lookup-map_entries, lookup-remove}
use ratchet_cli.Daemon.ProviderOps.Tables.{
  OperationState, OperationRow, Database, is_pending, discard, queue_row, references, failed_with,
  restart_recovery,
}
use ratchet_cli.Daemon.ProviderOps.Journal.{Manager, new_manager, Finalizer, finalize_operation}
use ratchet_cli.Daemon.ProviderOps.Startup.{
  StartEnv, retryable_finalization_at_startup, recover_pending, list_applied, finalize_all,
  queue_orphans, is_expired, reconcile_secrets, reconcile_startup, start_reconciled, start, boot,
}
use ratchet_cli.Daemon.ProviderOps.Rows.{may_follow, row_before}
use ratchet_cli.Daemon.ProviderOps.Finalizing.{finalize-Quiet}

-- no row of the journal is pending
pub record IsRecovered (db : Database) : Type 0 where
  pub settled :
      (id : String) (row : OperationRow)
      → lookup id db.operations ≡ some row
      → is_pending row.state ≡ false

same-IsRecovered :
    (db db' : Database) → db'.operations ≡ db.operations → IsRecovered db → IsRecovered db'
same-IsRecovered db db' e h = record {
  settled = λ id row f. h.settled id row (sym (ap (lookup id) e) ∙ f);
}

still_settled :
    (s t : OperationState) → may_follow s t ≡ true → is_pending s ≡ false → is_pending t ≡ false
still_settled s t h p = ground (arith, h, p)

recovered : (now : ℕ) (db : Database) → IsRecovered (recover_pending now db)
unfolding recover_pending
recovered now db = record {
  settled = λ id row e.
      let f = λ (k : String) (r : OperationRow).
        if is_pending r.state then failed_with restart_recovery now r else r in
      elim (Option-cases (lookup id db.operations)) [
        | inl p ↦ absurd (cc (rw (lookup-map_entries f id db.operations, p) at e))
        | inr (old, p) ↦
            let q : (if is_pending old.state then failed_with restart_recovery now old else old)
                ≡ row =
              cc (rw (lookup-map_entries f id db.operations, p) at e) in
            elim (Bool-cases (is_pending old.state)) [
              | inl b ↦ rw (sym (rw b at q)) refl
              | inr b ↦ ap (λ (r : OperationRow). is_pending r.state) (sym (rw b at q)) ∙ b
            ]
      ];
}

finalized-IsRecovered :
    (finalizer : String → Finalizer) (ids : List String) (m : Manager)
    → IsRecovered m.db
    → IsRecovered (finalize_all finalizer ids m).0.db
unfolding finalize_all
finalized-IsRecovered finalizer [] m h = h
finalized-IsRecovered finalizer (id ∷ ids) m h =
    let m' = (finalize_operation (finalizer id) id m).0 in
    let c = (finalize-Quiet (finalizer id) id m).db in
    let h' : IsRecovered m'.db = record {
      settled = λ k row e.
          let (old, p, v) = row_before false _ _ row (c.operations k) e in
          still_settled old.state row.state v.state (h.settled k old p);
    } in
    let more = finalized-IsRecovered finalizer ids m' h' in
    elim (Option-cases (finalize_operation (finalizer id) id m).1) [
      | inl p ↦ rw (p, finalize_all) more
      | inr (x, p) ↦ elim (Bool-cases (retryable_finalization_at_startup x)) [
        | inl b ↦ rw (p, b, finalize_all) more
        | inr b ↦ rw (p, b, finalize_all) h'
      ]
    ]

queue_row_operations :
    (now : ℕ) (name : String) (db : Database) → (queue_row now name db).operations ≡ db.operations
unfolding queue_row
queue_row_operations now name db = ground arith

queue_orphans_operations :
    (env : StartEnv) (keys : List String) (db : Database)
    → (queue_orphans env keys db).0.operations ≡ db.operations
unfolding queue_orphans
queue_orphans_operations env [] db = refl
queue_orphans_operations env (key ∷ keys) db =
    let skipped = queue_orphans_operations env keys db in
    let queued =
      queue_orphans_operations env keys (queue_row env.now key db)
      ∙ queue_row_operations env.now key db in
    elim (Bool-cases (starts_with key "provider-v2-")) [
      | inr a ↦ rw (a, queue_orphans) skipped
      | inl a ↦ elim (Bool-cases (env.counted key)) [
        | inr b ↦ rw (a, b, queue_orphans) refl
        | inl b ↦ elim (Bool-cases (eqb (references key db) 0)) [
          | inr c ↦ rw (a, b, c, queue_orphans) skipped
          | inl c ↦ elim (Bool-cases (env.queued key)) [
            | inl d ↦ rw (a, b, c, d, queue_orphans) queued
            | inr d ↦ rw (a, b, c, d, queue_orphans) refl
          ]
        ]
      ]
    ]

-- a row that a deletion leaves
remaining_row {ℓ} :
    {V : Type ℓ} (drops : V → Bool) (k : String) (v : V) (m : Dict V)
    → lookup k (discard drops m) ≡ some v
    → (lookup k m ≡ some v) × (drops v ≡ false)
unfolding discard lookup
remaining_row drops k v [] e = absurd (cc e)
remaining_row drops k v ((k0, w) ∷ rest) e = elim (Bool-cases (drops w)) [
  | inr b ↦ elim (Bool-cases (k0 == k)) [
    | inl q ↦
        let same : w ≡ v = ground (arith, q, b, e) in
        (ground (arith, q, same), ap drops (sym same) ∙ b)
    | inr q ↦
        let (p, d) = remaining_row drops k v rest (ground (arith, q, b, e)) in
        (ground (arith, q, p), d)
  ]
  | inl b ↦ elim (Bool-cases (k0 == k)) [
    | inl q ↦ absurd (ground (arith, q, b, e, lookup-remove k0 k (discard drops rest)))
    | inr q ↦
        let (p, d) =
          remaining_row drops k v rest
            (ground (arith, q, b, e, lookup-remove k0 k (discard drops rest))) in
        (ground (arith, q, p), d)
  ]
]

pub record Recovered (now : ℕ) (db : Database) : Type 0 where
  pub settled :
      (id : String) (row : OperationRow)
      → lookup id db.operations ≡ some row
      → (is_pending row.state ≡ false) × (is_expired now row ≡ false)

reconciled-Recovered :
    (env : StartEnv) (m : Manager)
    → (reconcile_secrets env m).1 ≡ none
    → IsRecovered m.db
    → Recovered env.now (reconcile_secrets env m).0.db
unfolding reconcile_secrets
reconciled-Recovered env m e h = elim (Option-cases env.relisted) [
  | inl a ↦ absurd (cc (rw (a, reconcile_secrets) at e))
  | inr (keys, a) ↦ elim (Option-cases (queue_orphans env keys m.db).1) [
    | inr (x, b) ↦ absurd (cc (rw (a, b, reconcile_secrets) at e))
    | inl b ↦ elim (Bool-cases env.expire_ok) [
      | inr c ↦ absurd (cc (rw (a, b, c, reconcile_secrets) at e))
      | inl c ↦
          let h' =
            same-IsRecovered m.db (queue_orphans env keys m.db).0
              (queue_orphans_operations env keys m.db) h in
          rw (a, b, c, reconcile_secrets)
            (record {
              settled = λ id row f.
                  let (p, d) = remaining_row (is_expired env.now) id row _ f in
                  (h'.settled id row p, d);
            })
    ]
  ]
]

startup-Recovered :
    (env : StartEnv) (m : Manager)
    → (reconcile_startup env m).1 ≡ none
    → Recovered env.now (reconcile_startup env m).0.db
unfolding reconcile_startup
startup-Recovered env m e =
    let begun : Manager = record m { db = recover_pending env.now m.db } in
    let ids = list_applied begun.db.operations in
    let h = finalized-IsRecovered env.finalizer ids begun (recovered env.now m.db) in
    elim (Bool-cases env.recover_ok) [
      | inr a ↦ absurd (cc (rw (a, reconcile_startup) at e))
      | inl a ↦ elim (Bool-cases env.applied_listed) [
        | inr b ↦ absurd (cc (rw (a, b, reconcile_startup) at e))
        | inl b ↦ elim (Option-cases (finalize_all env.finalizer ids begun).1) [
          | inr (x, c) ↦ absurd (cc (rw (a, b, c, reconcile_startup) at e))
          | inl c ↦
              rw (a, b, c, reconcile_startup)
                (reconciled-Recovered env (finalize_all env.finalizer ids begun).0
                  (rw (a, b, c, reconcile_startup) at e) h)
        ]
      ]
    ]

reconciled-started :
    (env : StartEnv) (m : Manager)
    → (start_reconciled env m).1 ≡ none
    → Recovered env.now (start_reconciled env m).0.db × ((start_reconciled env m).0.started ≡ true)
unfolding start_reconciled
reconciled-started env m e = elim (Option-cases (reconcile_startup env m).1) [
  | inr (x, a) ↦ absurd (cc (rw (a, start_reconciled) at e))
  | inl a ↦ elim (Bool-cases env.stopped_meanwhile) [
    | inl b ↦ absurd (cc (rw (a, b, start_reconciled) at e))
    | inr b ↦ rw (a, b, start_reconciled) (startup-Recovered env m a, refl)
  ]
]

-- After a start of a new process that succeeds, whatever the old one left, the manager is started, no
-- operation of the journal is pending, and none that is committed or failed has expired.
pub boot_recovers :
    (env : StartEnv) (m : Manager) (id : String) (row : OperationRow)
    → (boot env m).1 ≡ none
    → lookup id (boot env m).0.db.operations ≡ some row
    → ((boot env m).0.started ≡ true)
      × (is_pending row.state ≡ false)
      × (is_expired env.now row ≡ false)
unfolding boot start
boot_recovers env m id row e f = elim (Bool-cases env.listed) [
  | inr a ↦ absurd (cc (rw (a, start) at e))
  | inl a ↦
      let (h, s) = reconciled-started env (new_manager m.db m.secrets) (rw (a, start) at e) in
      let (p, q) = h.settled id row (rw (a, start) at f) in (rw (a, start) s, p, q)
]
