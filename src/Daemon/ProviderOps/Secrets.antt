-- ===== src/Daemon/ProviderOps/Secrets.antt =====
-- The secrets of the providers stay, in every run of the provider operations.
use ratchet_cli.Base.{◌≡◌, String, true, false, some, List, [], ◌∷◌, ◌==◌}
use ratchet_cli.Base.Dict.{Dict, lookup}
use ratchet_cli.Daemon.ProviderOps.Tables.{ProviderRow, Database, has}
use ratchet_cli.Daemon.ProviderOps.Journal.{Manager, new_manager}
use ratchet_cli.Daemon.ProviderOps.Flights.{Formats}
use ratchet_cli.Daemon.ProviderOps.Finalizing.{get-Quiet, Quiet-Safe}
use ratchet_cli.Daemon.ProviderOps.Safety.{IsSafe}
use ratchet_cli.Daemon.ProviderOps.FlightRuns.{step_flight-Safe, recover_flight-Safe}
use ratchet_cli.Daemon.ProviderOps.CleanupSteps.{dispatch_cleanup-Safe, step_cleanup-Safe}
use ratchet_cli.Daemon.ProviderOps.Booting.{boot-Safe}
use ratchet_cli.Daemon.ProviderOps.Runs.{
  Action, commits, flies, panics, queries, dispatches, cleans, removes, sets_default, sets_model,
  stops, boots, perform, run, Draws, AllDraws,
}
use ratchet_cli.Daemon.ProviderOps.CommitSteps.{commit-Safe}
use ratchet_cli.Daemon.ProviderOps.ProviderSteps.{
  remove_provider-Safe, set_default_provider-Safe, update_provider_model-Safe,
}

module _ (formats : Formats) where
  pub perform-Safe :
      (a : Action) (m : Manager) → Draws formats a m → IsSafe m → IsSafe (perform formats a m)
  unfolding perform
  perform-Safe (commits env req) m d s = commit-Safe formats env req m d s
  perform-Safe (flies env alias) m d s = step_flight-Safe env alias m s
  perform-Safe (panics env alias) m d s = recover_flight-Safe env alias m s
  perform-Safe (queries q id) m d s = Quiet-Safe m _ (get-Quiet q id m) s
  perform-Safe (dispatches names) m d s = dispatch_cleanup-Safe names m s
  perform-Safe (cleans env name) m d s = step_cleanup-Safe env name m s
  perform-Safe (removes ok now alias) m d s = remove_provider-Safe ok now alias m s
  perform-Safe (sets_default ok alias) m d s = set_default_provider-Safe ok alias m s
  perform-Safe (sets_model ok alias model) m d s = update_provider_model-Safe ok alias model m s
  perform-Safe stops m d s = s
  perform-Safe (boots env) m d s = boot-Safe env m s

  pub run-Safe :
      (actions : List Action) (m : Manager)
      → AllDraws formats actions m
      → IsSafe m
      → IsSafe (run formats actions m)
  unfolding run
  run-Safe [] m d s = s
  run-Safe (a ∷ more) m (d, ds) s = run-Safe more (perform formats a m) ds (perform-Safe a m d s)

-- all secrets that the provider rows name are in the store
abbrev pub HoldsSecrets : Database → Dict String → Type 0
HoldsSecrets db secrets =
    (alias : String) (row : ProviderRow)
    → lookup alias db.providers ≡ some row
    → row.secret_name == "" ≡ false
    → has row.secret_name secrets ≡ true

pub initial-Safe :
    (db : Database) (secrets : Dict String)
    → HoldsSecrets db secrets
    → IsSafe (new_manager db secrets)
unfolding lookup
initial-Safe db secrets h = record {
  kept = h;
  unused = λ name e n. absurd (cc e);
  flying = λ alias f e. absurd (cc e);
}

-- If at first every provider row's secret is in the store, then it is so after every run of saves,
-- queries, cleanups, removals and restarts, in any order and whatever fails, as long as no Commit draws
-- a name that a cleanup is at work on.
pub secrets_held :
    (formats : Formats) (actions : List Action) (db : Database) (secrets : Dict String)
    → HoldsSecrets db secrets
    → AllDraws formats actions (new_manager db secrets)
    → HoldsSecrets
        (run formats actions (new_manager db secrets)).db
        (run formats actions (new_manager db secrets)).secrets
secrets_held formats actions db secrets h d =
    (run-Safe formats actions (new_manager db secrets) d (initial-Safe db secrets h)).kept
