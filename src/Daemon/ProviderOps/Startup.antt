-- ===== src/Daemon/ProviderOps/Startup.antt =====
-- Start, reconcileStartup and Stop of internal/daemon/provider_operations.go
use text.Mathlib.Text.{starts_with}
use ratchet_cli.Base.{
  ℕ, String, Bool, true, false, not, ◌&&◌, Option, none, some, List, [], ◌∷◌, leb, eqb,
  if◌then◌else◌,
}
use ratchet_cli.Base.Dict.{Dict, map_entries}
use ratchet_cli.Daemon.ProviderOps.Tables.{
  restart_recovery, OperationRow, Database, is_pending, is_applied, is_active, discard, queue_row,
  references, failed_with,
}
use ratchet_cli.Daemon.ProviderOps.Journal.{
  Manager, new_manager, other_cause, FinalizeError, unreadable, Finalizer, finalize_operation,
}

pub data StartError : Type 0 where
  manager_stopped already_started list_failed database_error : StartError
  finalize_failed : FinalizeError → StartError

-- retryableFinalizationAtStartup
abbrev pub retryable_finalization_at_startup : FinalizeError → Bool
retryable_finalization_at_startup (unreadable other_cause) = true
retryable_finalization_at_startup _ = false

pub record StartEnv : Type 0 where
  pub listed : Bool
  pub recover_ok : Bool
  pub applied_listed : Bool
  pub finalizer : String → Finalizer
  pub relisted : Option (List String)
  pub counted : String → Bool
  pub queued : String → Bool
  pub expire_ok : Bool
  pub stopped_meanwhile : Bool
  pub now : ℕ

-- the update of the pending operations
unfoldable pub recover_pending : ℕ → Database → Database
unfolding map_entries
recover_pending now db = record db {
  operations =
      map_entries
        (λ id row. if is_pending row.state then failed_with restart_recovery now row else row)
        db.operations;
}

-- listAppliedProviderOperations
unfoldable pub list_applied : Dict OperationRow → List String
list_applied [] = []
list_applied ((id, row) ∷ rest) =
    let ids = list_applied rest in if is_applied row.state then id ∷ ids else ids

-- the loop over the applied operations
unfoldable pub finalize_all :
    (String → Finalizer) → List String → Manager → Manager × Option StartError
unfolding finalize_operation
finalize_all finalizer [] m = (m, none)
finalize_all finalizer (id ∷ ids) m =
    let (m', e) = finalize_operation (finalizer id) id m in
    let rest = finalize_all finalizer ids m' in
    elim e [
      | none ↦ rest
      | some x ↦ elim (retryable_finalization_at_startup x) [
        | true ↦ rest
        | false ↦ (m', some (finalize_failed x))
      ]
    ]

-- the loop over the names of the secrets
unfoldable pub queue_orphans : StartEnv → List String → Database → Database × Option StartError
unfolding references queue_row
queue_orphans env [] db = (db, none)
queue_orphans env (key ∷ keys) db =
    let skipped = queue_orphans env keys db in
    let queued = queue_orphans env keys (queue_row env.now key db) in
    if not (starts_with key "provider-v2-")
    then skipped
    else if not (env.counted key)
    then (db, some database_error)
    else if not (eqb (references key db) 0)
    then skipped
    else if env.queued key
    then queued
    else (db, some database_error)

-- `state IN (committed, failed) AND expires_at <= now`
abbrev pub is_expired : ℕ → OperationRow → Bool
is_expired now row = not (is_active row.state) && leb row.expires_at now

-- the list of the secrets and what follows it
unfoldable pub reconcile_secrets : StartEnv → Manager → Manager × Option StartError
unfolding queue_orphans discard
reconcile_secrets env m = elim env.relisted [
  | none ↦ (m, some list_failed)
  | some keys ↦
      (let (db, e) = queue_orphans env keys m.db in
        let queued : Manager = record m { db = db } in
        let expired : Database = record db {
          operations = discard (is_expired env.now) db.operations;
        } in
        elim e [
          | some x ↦ (queued, some x)
          | none ↦
              if env.expire_ok
              then (record m { db = expired }, none)
              else (queued, some database_error)
        ])
]

-- reconcileStartup
unfoldable pub reconcile_startup : StartEnv → Manager → Manager × Option StartError
unfolding recover_pending list_applied finalize_all reconcile_secrets
reconcile_startup env m =
    let recovered : Manager = record m { db = recover_pending env.now m.db } in
    let (m', e) = finalize_all env.finalizer (list_applied recovered.db.operations) recovered in
    if not env.recover_ok
    then (m, some database_error)
    else if not env.applied_listed
    then (recovered, some database_error)
    else elim e [ some x ↦ (m', some x) | none ↦ reconcile_secrets env m' ]

-- from the reconciliation on, in Start
unfoldable pub start_reconciled : StartEnv → Manager → Manager × Option StartError
unfolding reconcile_startup
start_reconciled env m =
    let (m', e) = reconcile_startup env m in
    elim e [
      | some x ↦ (m', some x)
      | none ↦
          if env.stopped_meanwhile
          then (record m' { stopped = true }, some manager_stopped)
          else (record m' { started = true }, none)
    ]

-- Start
unfoldable pub start : StartEnv → Manager → Manager × Option StartError
unfolding start_reconciled
start env m =
    if m.stopped
    then (m, some manager_stopped)
    else if m.started
    then (m, some already_started)
    else if not env.listed
    then (m, some list_failed)
    else start_reconciled env m

-- Stop, before its wait for what runs
abbrev pub stop : Manager → Manager
stop m = record m { stopped = true }

-- a new process on the same database and secrets, at any time
unfoldable pub boot : StartEnv → Manager → Manager × Option StartError
unfolding start
boot env m = start env (new_manager m.db m.secrets)
