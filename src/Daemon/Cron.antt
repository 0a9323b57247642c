-- ===== src/Daemon/Cron.antt =====
-- The scheduler of internal/daemon/cron.go. A context is known by its number. A context is made
-- together with the one goroutine that runs under it, so that `owner` gives the job of that loop; a
-- loop is live while its context is not cancelled. Ids, times and the answer of the database are
-- arguments; a time is a number.
use ratchet_cli.Base.{
  ℕ, ◌+◌, ◌^◌, ◌%◌, String, Bool, true, false, not, ◌||◌, Option, none, some, List, [], ◌∷◌, ltb,
  eqb, if◌then◌else◌, ◌==◌,
}
use ratchet_cli.Base.Dict.{Dict, lookup, insert, remove, map_entries}
use ratchet_cli.Daemon.Schedule.{TextLibrary, Parsed, interval, invalid, parse_schedule}
pub mod Soundness
pub mod Steps
pub mod Ticks
pub mod Loops
pub mod Overlap

pub record CronJob : Type 0 where
  pub session_id : String
  pub schedule : String
  pub command : String
  pub status : String
  pub last_run : Option ℕ
  pub next_run : ℕ
  pub run_count : ℕ  -- int32

pub record CronEntry : Type 0 where
  pub job : CronJob
  pub context : ℕ

pub record CronScheduler : Type 0 where
  pub rows : Dict CronJob
  pub entries : Dict CronEntry
  pub closed : Bool
  pub made : ℕ
  pub owner : ℕ → String
  pub cancelled : ℕ → Bool

abbrev pub new_cron_scheduler : CronScheduler
new_cron_scheduler = record {
  rows = [];
  entries = [];
  closed = false;
  made = 0;
  owner = λ c. "";
  cancelled = λ c. false;
}

pub data CronError : Type 0 where
  scheduler_closed job_not_found invalid_schedule database_error : CronError

abbrev pub Result : Type 0
Result = CronScheduler × Option CronError

-- `context.WithCancel` and `go cs.run(runCtx, entry)`, for an entry that is stored
unfoldable pub run_under : String → CronJob → CronScheduler → CronScheduler
unfolding insert
run_under id job cs = record cs {
  entries = insert id (record { job = job; context = cs.made }) cs.entries;
  made = cs.made + 1;
  owner = λ c. if eqb c cs.made then id else cs.owner c;
  cancelled = λ c. if eqb c cs.made then false else cs.cancelled c;
}

-- startEntry, which Start calls for each active row, with the lock taken again for each. An id that has
-- an entry gets a new one; the loop of the old one goes on, and its entry is left out.
unfoldable pub start_entry : String → CronJob → CronScheduler → Result
unfolding run_under
start_entry id job cs =
    if cs.closed then (cs, some scheduler_closed) else (run_under id job cs, none)

-- Create
unfoldable pub create_job :
    TextLibrary → Bool → String → ℕ → String → String → String → CronScheduler → Result
unfolding run_under parse_schedule
create_job lib db_ok id now session schedule command cs = elim (parse_schedule lib schedule) [
  | invalid e ↦ (cs, some invalid_schedule)
  | interval d ↦
      let job : CronJob = record {
        session_id = session;
        schedule = schedule;
        command = command;
        status = "active";
        last_run = none;
        next_run = now + d;
        run_count = 0;
      } in
      if cs.closed
      then (cs, some scheduler_closed)
      else if not db_ok
      then (cs, some database_error)
      else (run_under id job (record cs { rows = insert id job cs.rows }), none)
]

-- `UPDATE cron_jobs SET status=? WHERE id=?`
unfoldable pub set_row_status : Bool → String → String → Dict CronJob → Dict CronJob
unfolding map_entries
set_row_status db_ok id status rows =
    if db_ok
    then map_entries (λ k j. if k == id then record j { status = status } else j) rows
    else rows

abbrev pub database : Bool → Option CronError
database ok = if ok then none else some database_error

abbrev pub cancel : ℕ → (ℕ → Bool) → ℕ → Bool
cancel context cancelled c = if eqb c context then true else cancelled c

-- Pause, with no other call on the job between its lookup, its section on the entry and its UPDATE;
-- Overlap has these as steps of their own.
unfoldable pub pause : Bool → String → CronScheduler → Result
unfolding lookup insert set_row_status
pause db_ok id cs = elim (lookup id cs.entries) [
  | none ↦ (cs, some job_not_found)
  | some entry ↦
      let paused : CronEntry = record entry { job = record entry.job { status = "paused" } } in
      if entry.job.status == "paused" then (cs, none) else (
        record cs {
          entries = insert id paused cs.entries;
          cancelled = cancel entry.context cs.cancelled;
          rows = set_row_status db_ok id "paused" cs.rows;
        },
        database db_ok,
      )
]

-- Resume, with no Pause of the job between its sections; a database error leaves the entry paused
unfoldable pub resume : Bool → String → CronScheduler → Result
unfolding lookup run_under set_row_status
resume db_ok id cs =
    if cs.closed then (cs, some scheduler_closed) else elim (lookup id cs.entries) [
      | none ↦ (cs, some job_not_found)
      | some entry ↦
          let active : CronJob = record entry.job { status = "active" } in
          if not (entry.job.status == "paused")
          then (cs, none)
          else if not db_ok
          then (cs, some database_error)
          else (
            run_under id active (record cs { rows = set_row_status true id "active" cs.rows }),
            none,
          )
    ]

-- Stop, with no other call on the job between the removal of its entry, the cancel and the UPDATE
unfoldable pub stop : Bool → String → CronScheduler → Result
unfolding lookup remove set_row_status
stop db_ok id cs = elim (lookup id cs.entries) [
  | none ↦ (cs, some job_not_found)
  | some entry ↦ (
    record cs {
      entries = remove id cs.entries;
      cancelled = cancel entry.context cs.cancelled;
      rows = set_row_status db_ok id "stopped" cs.rows;
    },
    database db_ok,
  )
]

-- the loop of Close over the entries
unfoldable pub cancel_all : Dict CronEntry → (ℕ → Bool) → ℕ → Bool
cancel_all [] cancelled = cancelled
cancel_all ((id, e) ∷ es) cancelled = cancel e.context (cancel_all es cancelled)

-- Close, up to its wait for the goroutines
unfoldable pub close : CronScheduler → CronScheduler
unfolding cancel_all
close cs =
    if cs.closed
    then cs
    else record cs { closed = true; cancelled = cancel_all cs.entries cs.cancelled }

-- One tick of the loop of a context, which the select can take even when the context is cancelled.
-- The entry that it holds is the job's while the job has one; the tick that the loop of a stopped
-- job may still take is left out.
unfoldable pub tick : Bool → ℕ → ℕ → ℕ → CronScheduler → CronScheduler
unfolding lookup insert map_entries
tick db_ok context at wait cs =
    let id = cs.owner context in
    elim (lookup id cs.entries) [
      | none ↦ cs
      | some entry ↦
          let ran : CronJob = record entry.job {
            last_run = some at;
            next_run = at + wait;
            run_count = (entry.job.run_count + 1) % 2 ^ 32;
          } in
          let save : String → CronJob → CronJob = λ k j.
            if k == id
            then record j { last_run = some at; next_run = at + wait; run_count = ran.run_count }
            else j in
          if not (entry.job.status == "active") then cs else record cs {
            entries = insert id (record entry { job = ran }) cs.entries;
            rows = if db_ok then map_entries save cs.rows else cs.rows;
          }
    ]
