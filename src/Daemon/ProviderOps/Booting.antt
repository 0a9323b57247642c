-- ===== src/Daemon/ProviderOps/Booting.antt =====
-- A start of the manager leaves the provider rows and the secrets as they are.
use ratchet_cli.Base.{
  ℕ, ◌≡◌, refl, sym, ap, ◌∙◌, inl, inr, String, Bool, true, false, not, Option, List, [], ◌∷◌,
  arith, if◌then◌else◌, eqb, Bool-cases, Option-cases,
}
use text.Mathlib.Text.{starts_with}
use ratchet_cli.Base.Dict.{lookup}
use ratchet_cli.Daemon.ProviderOps.Tables.{Database, queue_row, references}
use ratchet_cli.Daemon.ProviderOps.Journal.{Manager, new_manager, Finalizer, finalize_operation}
use ratchet_cli.Daemon.ProviderOps.Startup.{
  StartEnv, StartError, retryable_finalization_at_startup, recover_pending, list_applied,
  finalize_all, queue_orphans, reconcile_secrets, reconcile_startup, start_reconciled, start, boot,
}
use ratchet_cli.Daemon.ProviderOps.Finalizing.{finalize-Quiet}
use ratchet_cli.Daemon.ProviderOps.Safety.{IsSafe}

-- the same providers, secrets, flights and cleanups
pub record SameSecrets (m m' : Manager) : Type 0 where
  pub providers : m'.db.providers ≡ m.db.providers
  pub secrets : m'.secrets ≡ m.secrets
  pub flights : m'.flights ≡ m.flights
  pub cleaning : m'.cleaning ≡ m.cleaning

same : (m : Manager) → SameSecrets m m
same m = record { providers = refl; secrets = refl; flights = refl; cleaning = refl }

trans : (a b c : Manager) → SameSecrets a b → SameSecrets b c → SameSecrets a c
trans a b c h k = record {
  providers = k.providers ∙ h.providers;
  secrets = k.secrets ∙ h.secrets;
  flights = k.flights ∙ h.flights;
  cleaning = k.cleaning ∙ h.cleaning;
}

finalized :
    (f : Finalizer) (id : String) (m : Manager) → SameSecrets m (finalize_operation f id m).0
finalized f id m =
    let q = finalize-Quiet f id m in
    record { providers = q.rows; secrets = q.secrets; flights = q.flights; cleaning = q.cleaning }

finalize_all-SameSecrets :
    (finalizer : String → Finalizer) (ids : List String) (m : Manager)
    → SameSecrets m (finalize_all finalizer ids m).0
unfolding finalize_all
finalize_all-SameSecrets finalizer [] m = same m
finalize_all-SameSecrets finalizer (id ∷ ids) m =
    let (m', e) = finalize_operation (finalizer id) id m in
    let step = finalized (finalizer id) id m in
    let more = trans m _ _ step (finalize_all-SameSecrets finalizer ids m') in
    elim (Option-cases (finalize_operation (finalizer id) id m).1) [
      | inl p ↦ rw (p, finalize_all) more
      | inr (x, p) ↦ elim (Bool-cases (retryable_finalization_at_startup x)) [
        | inl b ↦ rw (p, b, finalize_all) more
        | inr b ↦ rw (p, b, finalize_all) step
      ]
    ]

queue_row_providers :
    (now : ℕ) (name : String) (db : Database) → (queue_row now name db).providers ≡ db.providers
unfolding queue_row
queue_row_providers now name db = ground arith

queue_orphans_providers :
    (env : StartEnv) (keys : List String) (db : Database)
    → (queue_orphans env keys db).0.providers ≡ db.providers
unfolding queue_orphans
queue_orphans_providers env [] db = refl
queue_orphans_providers env (key ∷ keys) db =
    let skipped = queue_orphans_providers env keys db in
    let queued =
      queue_orphans_providers env keys (queue_row env.now key db)
      ∙ queue_row_providers env.now key db in
    elim (Bool-cases (starts_with key "provider-v2-")) [
      | inr a ↦ rw (a, queue_orphans) skipped
      | inl a ↦ elim (Bool-cases (env.counted key)) [
        | inr b ↦ rw (a, b, queue_orphans) refl
        | inl b ↦ elim (Bool-cases (eqb (references key db) 0)) [
          | inr c ↦ rw (a, b, c, queue_orphans) skipped
          | inl c ↦ elim (Bool-cases (env.queued key)) [
            | inl d ↦ rw (a, b, c, d, queue_orphans) queued
            | inr d ↦ rw (a, b, c, d, queue_orphans) refl
          ]
        ]
      ]
    ]

reconcile_secrets-SameSecrets :
    (env : StartEnv) (m : Manager) → SameSecrets m (reconcile_secrets env m).0
unfolding reconcile_secrets
reconcile_secrets-SameSecrets env m = elim (Option-cases env.relisted) [
  | inl e ↦ rw (e, reconcile_secrets) (same m)
  | inr (keys, e) ↦
      let p = queue_orphans_providers env keys m.db in
      elim (Option-cases (queue_orphans env keys m.db).1) [
        | inr (x, f) ↦
            rw (e, f, reconcile_secrets)
              (record { providers = p; secrets = refl; flights = refl; cleaning = refl })
        | inl f ↦ elim (Bool-cases env.expire_ok) [
          | inl b ↦
              rw (e, f, b, reconcile_secrets)
                (record { providers = p; secrets = refl; flights = refl; cleaning = refl })
          | inr b ↦
              rw (e, f, b, reconcile_secrets)
                (record { providers = p; secrets = refl; flights = refl; cleaning = refl })
        ]
      ]
]

reconcile_startup-SameSecrets :
    (env : StartEnv) (m : Manager) → SameSecrets m (reconcile_startup env m).0
unfolding reconcile_startup recover_pending
reconcile_startup-SameSecrets env m =
    let recovered : Manager = record m { db = recover_pending env.now m.db } in
    let begun : SameSecrets m recovered = record {
      providers = refl;
      secrets = refl;
      flights = refl;
      cleaning = refl;
    } in
    let ids = list_applied recovered.db.operations in
    let all = trans m recovered _ begun (finalize_all-SameSecrets env.finalizer ids recovered) in
    elim (Bool-cases env.recover_ok) [
      | inr a ↦ rw (a, reconcile_startup) (same m)
      | inl a ↦ elim (Bool-cases env.applied_listed) [
        | inr b ↦ rw (a, b, reconcile_startup) begun
        | inl b ↦ elim (Option-cases (finalize_all env.finalizer ids recovered).1) [
          | inr (x, e) ↦ rw (a, b, e, reconcile_startup) all
          | inl e ↦
              rw (a, b, e, reconcile_startup)
                (trans m _ _ all
                  (reconcile_secrets-SameSecrets env (finalize_all env.finalizer ids recovered).0))
        ]
      ]
    ]

chosen :
    (m : Manager) (b : Bool) (x y : Manager × Option StartError)
    → SameSecrets m x.0
    → SameSecrets m y.0
    → SameSecrets m (if b then x else y).0
chosen m true x y h k = h
chosen m false x y h k = k

start_reconciled-SameSecrets :
    (env : StartEnv) (m : Manager) → SameSecrets m (start_reconciled env m).0
unfolding start_reconciled
start_reconciled-SameSecrets env m =
    let h = reconcile_startup-SameSecrets env m in
    let ended : SameSecrets m (record (reconcile_startup env m).0 { stopped = true }) = record {
      providers = h.providers;
      secrets = h.secrets;
      flights = h.flights;
      cleaning = h.cleaning;
    } in
    let begun : SameSecrets m (record (reconcile_startup env m).0 { started = true }) = record {
      providers = h.providers;
      secrets = h.secrets;
      flights = h.flights;
      cleaning = h.cleaning;
    } in
    elim (Option-cases (reconcile_startup env m).1) [
      | inr (x, e) ↦ rw (e, start_reconciled) h
      | inl e ↦ rw (e, start_reconciled) (chosen m env.stopped_meanwhile _ _ ended begun)
    ]

start-SameSecrets : (env : StartEnv) (m : Manager) → SameSecrets m (start env m).0
unfolding start
start-SameSecrets env m = chosen m m.stopped _ _ (same m) (
    chosen m m.started _ _ (same m)
      (chosen m (not env.listed) _ _ (same m) (start_reconciled-SameSecrets env m)))

new-Safe : (m : Manager) → IsSafe m → IsSafe (new_manager m.db m.secrets)
unfolding lookup
new-Safe m s = record {
  kept = s.kept;
  unused = λ name e n. absurd (cc e);
  flying = λ alias f e. absurd (cc e);
}

pub boot-Safe : (env : StartEnv) (m : Manager) → IsSafe m → IsSafe (boot env m).0
unfolding boot lookup
boot-Safe env m s =
    let h = start-SameSecrets env (new_manager m.db m.secrets) in
    let s' = new-Safe m s in
    record {
      kept = λ alias row e n.
          rw h.secrets (s'.kept alias row (sym (ap (lookup alias) h.providers) ∙ e) n);
      unused = λ name e n. absurd (cc (rw h.cleaning at e));
      flying = λ alias f e. absurd (cc (rw h.flights at e));
    }
