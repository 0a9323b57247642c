-- ===== src/Daemon/Cron/Loops.antt =====
-- The loops of every scheduler that calls reach which do not overlap.
use ratchet_cli.Base.{
  ℕ, ◌≡◌, refl, sym, ap, ◌∙◌, inl, inr, String, Bool, true, none, some, arith, ◌==◌, eq_iff,
  Option-cases, Bool-cases,
}
use ratchet_cli.Base.Dict.{lookup, lookup-insert, lookup-remove}
use ratchet_cli.Daemon.Schedule.{TextLibrary}
use ratchet_cli.Daemon.Cron.{
  CronJob, CronEntry, CronScheduler, new_cron_scheduler, start_entry, create_job, pause, resume,
  stop, close, tick,
}
use ratchet_cli.Daemon.Cron.Soundness.{
  IsLive, HasEntry, IsSound, IsQuiet, absent-IsQuiet, paused-IsQuiet,
}
use ratchet_cli.Daemon.Cron.Steps.{
  start-IsSound, create-IsSound, pause-IsSound, resume-IsSound, stop-IsSound,
}
use ratchet_cli.Daemon.Cron.Ticks.{close-IsSound, tick-IsSound}

-- A step of the scheduler: one call, with no other call between its sections, or a tick. A job is
-- started or created under an id that has no entry.
pub data Step (cs : CronScheduler) : CronScheduler → Type 0 where
  starts_entry :
      (id : String) (job : CronJob)
      → lookup id cs.entries ≡ none
      → job.status ≡ "active"
      → Step cs ((start_entry id job cs).0)
  creates :
      (lib : TextLibrary) (db_ok : Bool) (id : String) (now : ℕ) (session schedule command : String)
      → lookup id cs.entries ≡ none
      → Step cs ((create_job lib db_ok id now session schedule command cs).0)
  pauses : (db_ok : Bool) (id : String) → Step cs ((pause db_ok id cs).0)
  resumes : (db_ok : Bool) (id : String) → Step cs ((resume db_ok id cs).0)
  stops : (db_ok : Bool) (id : String) → Step cs ((stop db_ok id cs).0)
  closes : Step cs (close cs)
  ticks : (db_ok : Bool) (context at wait : ℕ) → Step cs (tick db_ok context at wait cs)

pub data Reachable : CronScheduler → Type 0 where
  begins : Reachable new_cron_scheduler
  follows : {cs cs' : CronScheduler} → Reachable cs → Step cs cs' → Reachable cs'

Step-IsSound : {cs cs' : CronScheduler} → Step cs cs' → IsSound cs → IsSound cs'
Step-IsSound (starts_entry id job new active) h = start-IsSound id job _ h new active
Step-IsSound (creates lib db_ok id now session schedule command new) h =
    create-IsSound lib db_ok id now session schedule command _ h new
Step-IsSound (pauses db_ok id) h = pause-IsSound db_ok id _ h
Step-IsSound (resumes db_ok id) h = resume-IsSound db_ok id _ h
Step-IsSound (stops db_ok id) h = stop-IsSound db_ok id _ h
Step-IsSound closes h = close-IsSound _ h
Step-IsSound (ticks db_ok context at wait) h = tick-IsSound db_ok context at wait _ h

Reachable-IsSound : {cs : CronScheduler} → Reachable cs → IsSound cs
Reachable-IsSound begins = record {
  live = λ c l. absurd (omega (arith, l.is_made));
  is_made = λ id e f. absurd (unfold lookup in ground (arith, f));
}
Reachable-IsSound (follows r s) = Step-IsSound s (Reachable-IsSound r)

-- In every scheduler that these steps reach, two live loops of the same job are one loop; the job has an entry
-- that is active, and the scheduler is not closed.
one_loop :
    (cs : CronScheduler) (c c' : ℕ)
    → Reachable cs
    → IsLive cs c
    → IsLive cs c'
    → cs.owner c ≡ cs.owner c'
    → (c ≡ c') × HasEntry cs c
one_loop cs c c' r l l' same =
    let h = Reachable-IsSound r in
    let a = h.live c l in
    let b = h.live c' l' in
    let e : some a.entry ≡ some b.entry =
      sym a.found ∙ ap (λ k. lookup k cs.entries) same ∙ b.found in
    let eq : a.entry ≡ b.entry = ground (arith, e) in
    (sym a.context ∙ ap (λ (x : CronEntry). x.context) eq ∙ b.context, a)

pause-IsQuiet :
    (db_ok : Bool) (id : String) (cs : CronScheduler)
    → IsSound cs
    → IsQuiet id ((pause db_ok id cs).0)
unfolding pause
pause-IsQuiet db_ok id cs h = elim (Option-cases (lookup id cs.entries)) [
  | inl e ↦ rw (e, pause) (absent-IsQuiet id cs h e)
  | inr (entry, e) ↦ elim (Bool-cases (entry.job.status == "paused")) [
    | inl s ↦
        rw (e, s, pause) (paused-IsQuiet id entry cs h e ((eq_iff entry.job.status "paused").0 s))
    | inr s ↦
        let sound : IsSound ((pause db_ok id cs).0) = pause-IsSound db_ok id cs h in
        let paused : CronEntry = record entry { job = record entry.job { status = "paused" } } in
        paused-IsQuiet id paused ((pause db_ok id cs).0) sound
          (rw (e, s, pause) (ground (arith, lookup-insert id id paused cs.entries, eq_iff id id)))
          refl
  ]
]

stop-IsQuiet :
    (db_ok : Bool) (id : String) (cs : CronScheduler)
    → IsSound cs
    → IsQuiet id ((stop db_ok id cs).0)
unfolding stop
stop-IsQuiet db_ok id cs h =
    absent-IsQuiet id ((stop db_ok id cs).0) (stop-IsSound db_ok id cs h)
      (elim (Option-cases (lookup id cs.entries)) [
        | inl e ↦ rw (e, stop) e
        | inr (entry, e) ↦
            rw (e, stop) (ground (arith, lookup-remove id id cs.entries, eq_iff id id))
      ])

close-closed : (cs : CronScheduler) → (close cs).closed ≡ true
unfolding close
close-closed cs = elim (Bool-cases cs.closed) [
  | inl e ↦ ground (arith, e)
  | inr e ↦ ground (arith, e)
]

-- In every scheduler that these steps reach, after a pause or a stop of a job no loop of it is live, whatever the database answers; after the
-- close none is, of any job.
pub halted :
    (db_ok : Bool) (id : String) (cs : CronScheduler)
    → Reachable cs
    → IsQuiet id ((pause db_ok id cs).0) × IsQuiet id ((stop db_ok id cs).0) × IsQuiet id (close cs)
halted db_ok id cs r =
    let h = Reachable-IsSound r in
    (
      pause-IsQuiet db_ok id cs h,
      stop-IsQuiet db_ok id cs h,
      λ c l same. ground (arith, ((close-IsSound cs h).live c l).open_, close-closed cs),
    )
