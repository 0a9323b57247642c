-- ===== src/Daemon/ProviderOps/CleanupSteps.antt =====
-- The cleanup of secrets keeps the invariant of Safety.
use mathlib.Core.Path.{subst}
use ratchet_cli.Base.{
  ℕ, ◌≡◌, refl, ap, ◌∙◌, ◌⊎◌, inl, inr, String, Bool, true, false, some, List, [], ◌∷◌, arith, eqb,
  leb, length, Bool-cases, Option-cases,
}
use ratchet_cli.Base.Dict.{Dict, lookup, insert, remove}
use ratchet_cli.Daemon.ProviderOps.Tables.{Database, has, references}
use ratchet_cli.Daemon.ProviderOps.Journal.{CleanPhase, counting, deleting, Flight, Manager}
use ratchet_cli.Daemon.ProviderOps.Cleanup.{
  provider_cleanup_workers, record_cleanup_failure, start_cleanups, dispatch_cleanup, DeleteReply,
  delete_done, delete_not_found, delete_failed, CleanEnv, end_cleanup, drop_row, count_references,
  without_secret, delete_secret, step_cleanup,
}
use ratchet_cli.Daemon.ProviderOps.Rows.{same-Changes}
use ratchet_cli.Daemon.ProviderOps.Safety.{Unreferenced, Safe, IsSafe, inserted, remains}
use ratchet_cli.Daemon.ProviderOps.Keeping.{
  untouched-Safe, deleted-Safe, cleaning-Safe, references-Unreferenced,
}

-- a step that changes the cleanup table alone
record Rows (m m' : Manager) : Type 0 where
  providers : m'.db.providers ≡ m.db.providers
  operations : m'.db.operations ≡ m.db.operations
  secrets : m'.secrets ≡ m.secrets
  flights : m'.flights ≡ m.flights
  cleaning : m'.cleaning ≡ m.cleaning

Rows-Safe : (m m' : Manager) → Rows m m' → IsSafe m → IsSafe m'
Rows-Safe m m' r s =
    rw (r.secrets, r.flights, r.cleaning)
      (untouched-Safe m'.db (same-Changes (λ k. false) m.db m'.db r.providers r.operations) s)

recorded-Rows :
    (read_ok write_ok : Bool) (now : ℕ) (name why : String) (m : Manager)
    → Rows m (record_cleanup_failure read_ok write_ok now name why m)
unfolding record_cleanup_failure
recorded-Rows read_ok write_ok now name why m = record {
  providers = ground arith;
  operations = ground arith;
  secrets = ground arith;
  flights = ground arith;
  cleaning = ground arith;
}

dropped-Rows : (ok : Bool) (name : String) (m : Manager) → Rows m (drop_row ok name m)
dropped-Rows true name m = record {
  providers = refl;
  operations = refl;
  secrets = refl;
  flights = refl;
  cleaning = refl;
}
dropped-Rows false name m = record {
  providers = refl;
  operations = refl;
  secrets = refl;
  flights = refl;
  cleaning = refl;
}

end_cleanup-Safe : (name : String) (m : Manager) → IsSafe m → IsSafe (end_cleanup name m)
end_cleanup-Safe name m s =
    cleaning-Safe (remove name m.cleaning) (λ n e. inl ((remains name n deleting m.cleaning e).1)) s

recorded_end-Safe :
    (env : CleanEnv) (name why : String) (m : Manager)
    → IsSafe m
    → IsSafe (end_cleanup name (record_cleanup_failure env.read_ok env.row_ok env.now name why m))
recorded_end-Safe env name why m s =
    let m' = record_cleanup_failure env.read_ok env.row_ok env.now name why m in
    end_cleanup-Safe name m'
      (Rows-Safe m m' (recorded-Rows env.read_ok env.row_ok env.now name why m) s)

dropped_end-Safe :
    (env : CleanEnv) (name : String) (m : Manager)
    → IsSafe m
    → IsSafe (end_cleanup name (drop_row env.row_ok name m))
dropped_end-Safe env name m s =
    let m' = drop_row env.row_ok name m in
    end_cleanup-Safe name m' (Rows-Safe m m' (dropped-Rows env.row_ok name m) s)

counting-Safe :
    {db : Database} {secrets : Dict String} {flights : Dict Flight} (name : String)
    (cleaning : Dict CleanPhase)
    → Safe db secrets flights cleaning
    → Safe db secrets flights (insert name counting cleaning)
counting-Safe name cleaning s =
    cleaning-Safe (insert name counting cleaning)
      (λ n e. elim (inserted name n counting deleting cleaning e) [
        | inl (p, q) ↦ absurd (cc q)
        | inr (p, q) ↦ inl q
      ])
      s

start_cleanups-Safe :
    {db : Database} {secrets : Dict String} {flights : Dict Flight} (names : List String)
    (cleaning : Dict CleanPhase)
    → Safe db secrets flights cleaning
    → Safe db secrets flights (start_cleanups names cleaning)
unfolding start_cleanups
start_cleanups-Safe [] cleaning s = s
start_cleanups-Safe (name ∷ names) cleaning s =
    elim (Bool-cases (leb provider_cleanup_workers (length cleaning))) [
      | inl b ↦ rw (b, start_cleanups) s
      | inr b ↦ elim (Bool-cases (has name cleaning)) [
        | inl h ↦ rw (b, h, start_cleanups) (start_cleanups-Safe names cleaning s)
        | inr h ↦
            rw (b, h, start_cleanups) (start_cleanups-Safe names _ (counting-Safe name cleaning s))
      ]
    ]

pub dispatch_cleanup-Safe :
    (names : List String) (m : Manager) → IsSafe m → IsSafe (dispatch_cleanup names m)
unfolding dispatch_cleanup
dispatch_cleanup-Safe names m s = elim (Bool-cases m.started) [
  | inl b ↦ rw (b, dispatch_cleanup) (start_cleanups-Safe names m.cleaning s)
  | inr b ↦ rw (b, dispatch_cleanup) s
]

deleting-Safe :
    (name : String) (m : Manager)
    → references name m.db ≡ 0
    → IsSafe m
    → IsSafe (record m { cleaning = insert name deleting m.cleaning })
deleting-Safe name m h s =
    cleaning-Safe (insert name deleting m.cleaning)
      (λ n e. elim (inserted name n deleting deleting m.cleaning e) [
        | inl (p, q) ↦
            inr (subst (λ x. Unreferenced x m.db) p (references-Unreferenced name m.db h))
        | inr (p, q) ↦ inl q
      ])
      s

count_references-Safe :
    (env : CleanEnv) (name : String) (m : Manager) → IsSafe m → IsSafe (count_references env name m)
unfolding count_references
count_references-Safe env name m s = elim (Bool-cases env.query) [
  | inr b ↦ rw (b, count_references) (recorded_end-Safe env name "database" m s)
  | inl b ↦ elim (Bool-cases (eqb (references name m.db) 0)) [
    | inr z ↦ rw (b, z, count_references) (dropped_end-Safe env name m s)
    | inl z ↦ rw (b, z, count_references) (deleting-Safe name m (ground (arith, z)) s)
  ]
]

pub DeleteReply-cases :
    (x : DeleteReply)
    → (x ≡ delete_done)
      ⊎ (x ≡ delete_not_found)
      ⊎ (x ≡ delete_failed true)
      ⊎ (x ≡ delete_failed false)
DeleteReply-cases delete_done = inl refl
DeleteReply-cases delete_not_found = inr (inl refl)
DeleteReply-cases (delete_failed true) = inr (inr (inl refl))
DeleteReply-cases (delete_failed false) = inr (inr (inr refl))

delete_secret-Safe :
    (env : CleanEnv) (name : String) (m : Manager)
    → lookup name m.cleaning ≡ some deleting
    → IsSafe m
    → IsSafe (delete_secret env name m)
unfolding delete_secret
delete_secret-Safe env name m e s =
    let gone = deleted-Safe name (s.unused name e) s in
    elim (DeleteReply-cases env.delete) [
      | inl r ↦ rw (r, delete_secret) (dropped_end-Safe env name (without_secret name m) gone)
      | inr (inl r) ↦ rw (r, delete_secret) (dropped_end-Safe env name m s)
      | inr (inr (inl r)) ↦
          rw (r, delete_secret) (recorded_end-Safe env name "delete" (without_secret name m) gone)
      | inr (inr (inr r)) ↦ rw (r, delete_secret) (recorded_end-Safe env name "delete" m s)
    ]

pub CleanPhase-cases : (x : CleanPhase) → (x ≡ counting) ⊎ (x ≡ deleting)
CleanPhase-cases counting = inl refl
CleanPhase-cases deleting = inr refl

pub step_cleanup-Safe :
    (env : CleanEnv) (name : String) (m : Manager) → IsSafe m → IsSafe (step_cleanup env name m)
unfolding step_cleanup
step_cleanup-Safe env name m s = elim (Option-cases (lookup name m.cleaning)) [
  | inl e ↦ rw (e, step_cleanup) s
  | inr (x, e) ↦ elim (CleanPhase-cases x) [
    | inl p ↦ rw (e, p, step_cleanup) (count_references-Safe env name m s)
    | inr p ↦ rw (e, p, step_cleanup) (delete_secret-Safe env name m (e ∙ ap some p) s)
  ]
]
