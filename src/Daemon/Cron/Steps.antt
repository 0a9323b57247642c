-- ===== src/Daemon/Cron/Steps.antt =====
-- Every operation of the scheduler keeps it sound.
use ratchet_cli.Base.{
  ℕ, ◌≡◌, refl, inl, inr, String, Bool, true, false, not, none, some, arith, if◌then◌else◌, ◌==◌,
  eq_iff, Option-cases, Bool-cases,
}
use ratchet_cli.Base.Dict.{Dict, lookup, insert, remove, lookup-insert, lookup-remove}
use ratchet_cli.Daemon.Schedule.{TextLibrary, parse_schedule}
use ratchet_cli.Daemon.Cron.{
  CronJob, CronEntry, CronScheduler, Result, run_under, start_entry, create_job, pause, resume,
  stop,
}
use ratchet_cli.Daemon.Cron.Soundness.{
  IsSound, run_under-IsSound, same_rows, absent-IsQuiet, paused-IsQuiet, cancel-IsSound,
  Parsed-cases,
}

pub pause-IsSound :
    (db_ok : Bool) (id : String) (cs : CronScheduler) → IsSound cs → IsSound ((pause db_ok id cs).0)
unfolding pause
pause-IsSound db_ok id cs h = elim (Option-cases (lookup id cs.entries)) [
  | inl e ↦ rw (e, pause) h
  | inr (entry, e) ↦ elim (Bool-cases (entry.job.status == "paused")) [
    | inl s ↦ rw (e, s, pause) h
    | inr s ↦
        let paused : CronEntry = record entry { job = record entry.job { status = "paused" } } in
        rw (e, s, pause)
          (cancel-IsSound id entry (insert id paused cs.entries) _ cs h e
            (λ k other. ground (arith, other, eq_iff id k, lookup-insert id k paused cs.entries))
            (λ x f. ground (
              arith,
              f,
              eq_iff id id,
              lookup-insert id id paused cs.entries,
              h.is_made id entry e,
            )))
  ]
]

pub stop-IsSound :
    (db_ok : Bool) (id : String) (cs : CronScheduler) → IsSound cs → IsSound ((stop db_ok id cs).0)
unfolding stop
stop-IsSound db_ok id cs h = elim (Option-cases (lookup id cs.entries)) [
  | inl e ↦ rw (e, stop) h
  | inr (entry, e) ↦
      rw (e, stop)
        (cancel-IsSound id entry (remove id cs.entries) _ cs h e
          (λ k other. ground (arith, other, eq_iff id k, lookup-remove id k cs.entries))
          (λ x f. absurd (ground (arith, f, eq_iff id id, lookup-remove id id cs.entries))))
]

IsSound-if :
    (c : Bool) (x y : Result)
    → (c ≡ true → IsSound (x.0))
    → (c ≡ false → IsSound (y.0))
    → IsSound ((if c then x else y).0)
IsSound-if true x y h k = h refl
IsSound-if false x y h k = k refl

restart-IsSound :
    (id : String) (entry : CronEntry) (rows : Dict CronJob) (cs : CronScheduler)
    → IsSound cs
    → lookup id cs.entries ≡ some entry
    → entry.job.status ≡ "paused"
    → cs.closed ≡ false
    → IsSound (run_under id (record entry.job { status = "active" }) (record cs { rows = rows }))
restart-IsSound id entry rows cs h found paused open_ =
    run_under-IsSound id _ (record cs { rows = rows }) (same_rows rows cs h)
      (λ c l.
        paused-IsQuiet id entry cs h found paused c
          (record { is_made = l.is_made; running = l.running }))
      open_ refl

pub resume-IsSound :
    (db_ok : Bool) (id : String) (cs : CronScheduler)
    → IsSound cs
    → IsSound ((resume db_ok id cs).0)
unfolding resume
resume-IsSound db_ok id cs h =
    IsSound-if cs.closed _ _ (λ c. h)
      λ c. elim (Option-cases (lookup id cs.entries)) [
        | inl e ↦ rw (e, resume) h
        | inr (entry, e) ↦
            rw (e, resume)
              (IsSound-if (not (entry.job.status == "paused")) _ _ (λ s. h)
                (λ s.
                  IsSound-if (not db_ok) _ _ (λ b. h)
                    (λ b.
                      restart-IsSound id entry _ cs h e
                        ((eq_iff entry.job.status "paused").0 (ground (arith, s))) c)))
      ]

pub create-IsSound :
    (lib : TextLibrary) (db_ok : Bool) (id : String) (now : ℕ) (session schedule command : String)
    (cs : CronScheduler)
    → IsSound cs
    → lookup id cs.entries ≡ none
    → IsSound ((create_job lib db_ok id now session schedule command cs).0)
unfolding create_job
create-IsSound lib db_ok id now session schedule command cs h new =
    elim (Parsed-cases (parse_schedule lib schedule)) [
      | inl (x, e) ↦ rw (e, create_job) h
      | inr (d, e) ↦
          rw (e, create_job)
            (IsSound-if cs.closed _ _ (λ c. h)
              (λ c.
                IsSound-if (not db_ok) _ _ (λ b. h)
                  (λ b.
                    run_under-IsSound id _ (record cs { rows = insert id _ cs.rows })
                      (same_rows _ cs h)
                      (λ k l.
                        absent-IsQuiet id cs h new k
                          (record { is_made = l.is_made; running = l.running }))
                      c refl)))
    ]

pub start-IsSound :
    (id : String) (job : CronJob) (cs : CronScheduler)
    → IsSound cs
    → lookup id cs.entries ≡ none
    → job.status ≡ "active"
    → IsSound ((start_entry id job cs).0)
unfolding start_entry
start-IsSound id job cs h new active =
    IsSound-if cs.closed _ _ (λ c. h)
      (λ c. run_under-IsSound id job cs h (absent-IsQuiet id cs h new) c active)
