-- ===== src/Daemon/ProviderTests.antt =====
-- A run of the provider operations, and instances of their theorems.
use ratchet_cli.Base.{◌≡◌, refl, String, true, false, Option, none, some, List, [], ◌∷◌}
use ratchet_cli.Base.Dict.{lookup}
use ratchet_cli.Daemon.ProviderOps.Tables.{
  no_failure, alias_busy, committed, SaveRequest, ProviderRow, OperationRow, Database, has,
}
use ratchet_cli.Daemon.ProviderOps.Journal.{Manager, synthetic, waits, new_manager, Finalizer}
use ratchet_cli.Daemon.ProviderOps.Flights.{Formats, CommitEnv, commit, set_done, FlightEnv}
use ratchet_cli.Daemon.ProviderOps.Cleanup.{delete_done, CleanEnv}
use ratchet_cli.Daemon.ProviderOps.Startup.{StartEnv}
use ratchet_cli.Daemon.ProviderOps.Runs.{Action, commits, flies, dispatches, cleans, boots, run}
use ratchet_cli.Daemon.ProviderOps.Replay.{commit_once}
use ratchet_cli.Daemon.ProviderOps.Progress.{may_become}
use ratchet_cli.Daemon.ProviderOps.Transitions.{operation_progress}
use ratchet_cli.Daemon.ProviderOps.Saves.{save_completes}
use ratchet_cli.Daemon.ProviderOps.Tables.{failed, restart_recovery, is_pending}
use ratchet_cli.Daemon.ProviderOps.Cleanup.{report}
use ratchet_cli.Daemon.ProviderOps.Startup.{boot, is_expired}
use ratchet_cli.Daemon.ProviderOps.Recovery.{boot_recovers}
use ratchet_cli.Daemon.ProviderOps.Secrets.{HoldsSecrets, secrets_held}

abbrev formats : Formats
formats = record { canonical_uuid = λ s. true; json_object = λ s. some false }

abbrev finalizer : Finalizer
finalizer = record { query = true; read = none; requery = true; update = true; now = 60 }

abbrev booting : StartEnv
booting = record {
  listed = true;
  recover_ok = true;
  applied_listed = true;
  finalizer = λ id. finalizer;
  relisted = some [];
  counted = λ key. true;
  queued = λ key. true;
  expire_ok = true;
  stopped_meanwhile = false;
  now = 50;
}

abbrev drawing : String → CommitEnv
drawing name = record {
  query = true;
  replay = record { first = true; finalizer = finalizer; second = true };
  insert_ok = true;
  requery = true;
  drawn = name;
  now = 55;
}

abbrev save_request : String → SaveRequest
save_request id = record {
  operation_id = id;
  alias = "main";
  kind = "openai";
  model = "large";
  api_key = "key";
  base_url = "";
  max_tokens = 0;
  settings = "";
  is_default = true;
}

abbrev flying : FlightEnv
flying = record {
  set = set_done;
  apply_ok = true;
  fail_ok = true;
  finalizer = finalizer;
  provider_id = "p1";
  now = 56;
}

abbrev cleaner : CleanEnv
cleaner = record { query = true; delete = delete_done; row_ok = true; read_ok = true; now = 70 }

abbrev fly : Action
fly = flies flying "main"

-- a save, a second save under another name, and the cleanup of the first name
abbrev saves : List Action
saves =
    boots booting
    ∷ commits (drawing "provider-v2-1") (save_request "u1")
    ∷ fly
    ∷ fly
    ∷ fly
    ∷ fly
    ∷ commits (drawing "provider-v2-2") (save_request "u2")
    ∷ fly
    ∷ fly
    ∷ fly
    ∷ fly
    ∷ dispatches ("provider-v2-1" ∷ [])
    ∷ cleans cleaner "provider-v2-1"
    ∷ cleans cleaner "provider-v2-1"
    ∷ []

abbrev empty : Database
empty = record { providers = []; operations = []; cleanup = [] }

abbrev after_saves : Manager
after_saves = run formats saves (new_manager empty [])

abbrev secret_of_main : Option ProviderRow → String
secret_of_main none = ""
secret_of_main (some row) = row.secret_name

-- Only the second secret is left, and the provider names it.
second_secret :
    (has "provider-v2-1" after_saves.secrets ≡ false)
    × (has "provider-v2-2" after_saves.secrets ≡ true)
    × (secret_of_main (lookup "main" after_saves.db.providers) ≡ "provider-v2-2")
unfolding lookup run
second_secret = (refl, refl, refl)

secrets_held_example : HoldsSecrets after_saves.db after_saves.secrets
unfolding lookup run
secrets_held_example =
    secrets_held formats saves empty [] (λ alias row e n. absurd (cc e))
      (tt, (refl, (tt, (tt, (tt, (tt, (refl, (tt, (tt, (tt, (tt, (tt, (tt, (tt, tt))))))))))))))

abbrev up : Manager
up = run formats (boots booting ∷ []) (new_manager empty [])

abbrev saving : Manager
saving = (commit formats (drawing "provider-v2-1") (save_request "u1") up).0

abbrev same_operation : String
same_operation = "u1"

commit_once_example :
    (same_operation ≡ "u1")
    × (commit formats (drawing "x") (save_request "u1") saving ≡ (saving, waits "u1"))
    × (commit formats (drawing "x") (save_request "u3") saving ≡ (saving, synthetic alias_busy))
unfolding lookup run commit
commit_once_example =
    commit_once formats (drawing "provider-v2-1") (drawing "x") (save_request "u1")
      (record (save_request "u1") { settings = "{}" }) (save_request "u1")
      (record (save_request "u1") { settings = "{}" }) (save_request "u3")
      (record (save_request "u3") { settings = "{}" }) up "u1" refl refl refl refl refl refl refl
      refl

abbrev first_save : List Action
first_save =
    boots booting
    ∷ commits (drawing "provider-v2-1") (save_request "u1")
    ∷ fly
    ∷ fly
    ∷ fly
    ∷ fly
    ∷ []

abbrev second_save : List Action
second_save = commits (drawing "provider-v2-2") (save_request "u2") ∷ fly ∷ fly ∷ []

abbrev first_row : OperationRow
first_row = record {
  alias = "main";
  state = committed;
  failure = no_failure;
  secret_name = "provider-v2-1";
  result_kind = "openai";
  result_model = "large";
  result_is_default = true;
  created_at = 55;
  updated_at = 60;
  expires_at = 86455;
}

operation_progress_example :
    (row' : OperationRow) × (lookup "u1"
        (run formats second_save (run formats first_save (new_manager empty []))).db.operations
      ≡ some row')
    × (row'.alias ≡ "main")
    × (row'.secret_name ≡ "provider-v2-1")
    × (may_become committed row'.state ≡ true)
unfolding lookup run
operation_progress_example =
    operation_progress formats first_save second_save empty [] "u1" first_row
      (λ alias row e n. absurd (cc e)) (tt, (refl, (tt, (tt, (tt, (tt, tt))))))
      (refl, (tt, (tt, tt))) (refl, (refl, (refl, tt))) refl

save_completes_example :
    let m' =
      run formats
        (commits (drawing "provider-v2-1") (save_request "u1") ∷ fly ∷ fly ∷ fly ∷ fly ∷ [])
        up in
    (op : OperationRow) × (row : ProviderRow) × (lookup "u1" m'.db.operations ≡ some op)
    × (op.state ≡ committed)
    × (op.result_kind ≡ "openai")
    × (op.result_model ≡ "large")
    × (lookup "main" m'.db.providers ≡ some row)
    × (row.kind ≡ "openai")
    × (row.model ≡ "large")
    × (row.is_default ≡ true)
    × (row.secret_name ≡ "provider-v2-1")
    × (lookup "provider-v2-1" m'.secrets ≡ some "key")
    × (has "main" m'.flights ≡ false)
unfolding lookup run
save_completes_example =
    save_completes formats (drawing "provider-v2-1") (save_request "u1")
      (record (save_request "u1") { settings = "{}" }) flying up refl refl refl refl refl refl refl
      refl refl (record { set = refl; apply_ok = refl; requery = refl; update = refl })

-- the row of a save whose process ended before its flight
abbrev lost_row : OperationRow
lost_row = record first_row {
  state = failed;
  failure = restart_recovery;
  result_kind = "";
  result_model = "";
  result_is_default = false;
  updated_at = 50;
}

boot_recovers_example :
    ((boot booting saving).0.started ≡ true)
    × (is_pending lost_row.state ≡ false)
    × (is_expired booting.now lost_row ≡ false)
unfolding lookup run commit boot
boot_recovers_example = boot_recovers booting saving "u1" lost_row refl refl

-- An error that repeats within a minute is logged once.
repeated_error :
    let (r, logged) =
      report 100 (some "locked") (record { last_error = ""; last_reported_at = 0 }) in
    let (r', again) = report 159 (some "locked") r in
    let (r'', late) = report 160 (some "locked") r' in
    (logged ≡ true) × (again ≡ false) × (late ≡ true)
unfolding report
repeated_error = (refl, refl, refl)
