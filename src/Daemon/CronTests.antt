-- ===== src/Daemon/CronTests.antt =====
-- The cron scheduler at concrete runs, and an instance of its theorem.
use ratchet_cli.Base.{ℕ, ◌≡◌, ◌<◌, refl, true, false, none, some}
use ratchet_cli.Base.Dict.{lookup}
use ratchet_cli.Daemon.Cron.{
  CronJob, CronEntry, CronScheduler, new_cron_scheduler, start_entry, pause, resume,
}
use ratchet_cli.Daemon.Cron.Soundness.{IsLive}
use ratchet_cli.Daemon.Cron.Overlap.{overlapped, paused_between}

abbrev nightly : CronJob
nightly = record {
  session_id = "s1";
  schedule = "5m";
  command = "run";
  status = "active";
  last_run = none;
  next_run = 300;
  run_count = 0;
}

abbrev begun : CronScheduler
begun = (start_entry "j1" nightly new_cron_scheduler).0

abbrev resumed : CronScheduler
resumed = (resume true "j1" ((pause false "j1" begun).0)).0

-- the loop of the first context was cancelled by the pause
counted : (resumed.cancelled 0 ≡ true) × (resumed.made ≡ 2)
unfolding start_entry pause resume
counted = (refl, refl)

abbrev paused : CronScheduler
paused = (pause true "j1" begun).0

abbrev raced : CronScheduler
raced = overlapped "j1" paused

abbrev again : CronScheduler
again = (resume true "j1" raced).0

paused_between_example :
    ((e : CronEntry) × (lookup "j1" raced.entries ≡ some e)
      × (e.job.status ≡ "paused")
      × IsLive raced e.context)
    × ((e : CronEntry) × (lookup "j1" again.entries ≡ some e) × (e.job.status ≡ "active"))
    × ((first : ℕ) × (second : ℕ) × (first < second)
        × IsLive again first
        × IsLive again second
        × (again.owner first ≡ "j1")
        × (again.owner second ≡ "j1"))
unfolding start_entry pause
paused_between_example =
    paused_between "j1" (record { job = record nightly { status = "paused" }; context = 0 }) paused
      refl (unfold lookup in refl) refl
