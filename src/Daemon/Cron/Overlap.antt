-- ===== src/Daemon/Cron/Overlap.antt =====
-- Pause and Resume of internal/daemon/cron.go by their critical sections, and a Pause that falls between
-- the two of a Resume. Resume holds the scheduler's lock throughout; a Pause that has looked its entry
-- up before holds only the entry's.
use mathlib.Core.Path.{subst}
use ratchet_cli.Base.{
  ℕ, ◌+◌, ◌<◌, ◌≡◌, refl, sym, ap, ◌∙◌, inl, inr, String, Bool, true, false, not, none, some, [],
  ◌∷◌, arith, if◌then◌else◌, ◌==◌, eq_iff, eq_refl, Option-cases, Bool-cases,
}
use ratchet_cli.Base.Dict.{Dict, lookup, insert, lookup-insert}
use ratchet_cli.Daemon.Cron.{
  database, pause, CronJob, CronEntry, CronScheduler, CronError, scheduler_closed, job_not_found,
  database_error, Result, run_under, set_row_status, cancel, resume,
}
use ratchet_cli.Daemon.Cron.Soundness.{IsLive}

abbrev pub with_status : String → CronEntry → CronEntry
with_status status entry = record entry { job = record entry.job { status = status } }

-- The section of Pause under the lock of its entry, and whether Pause goes on to the database. An entry
-- that Stop has removed since the lookup is left out.
unfoldable pub pause_entry : String → CronScheduler → CronScheduler × Bool
unfolding lookup insert
pause_entry id cs = elim (lookup id cs.entries) [
  | none ↦ (cs, false)
  | some entry ↦ if entry.job.status == "paused" then (cs, false) else (
    record cs {
      entries = insert id (with_status "paused" entry) cs.entries;
      cancelled = cancel entry.context cs.cancelled;
    },
    true,
  )
]

-- the UPDATE at the end of Pause
unfoldable pub pause_row : Bool → String → CronScheduler → CronScheduler
unfolding set_row_status
pause_row db_ok id cs = record cs { rows = set_row_status db_ok id "paused" cs.rows }

-- what the first section of Resume comes to
pub data Begun : Type 0 where
  refuses : CronError → Begun
  already marked : Begun

-- Resume up to the unlock of the entry
unfoldable pub begin_resume : String → CronScheduler → CronScheduler × Begun
unfolding lookup insert
begin_resume id cs =
    if cs.closed then (cs, refuses scheduler_closed) else elim (lookup id cs.entries) [
      | none ↦ (cs, refuses job_not_found)
      | some entry ↦
          if not (entry.job.status == "paused")
          then (cs, already)
          else (record cs { entries = insert id (with_status "active" entry) cs.entries }, marked)
    ]

-- Resume from its UPDATE on. The scheduler's lock is held, so that the entry is still there.
unfoldable pub finish_resume : Bool → String → CronScheduler → Result
unfolding lookup insert run_under set_row_status
finish_resume db_ok id cs = elim (lookup id cs.entries) [
  | none ↦ (cs, none)
  | some entry ↦
      if db_ok
      then (
        run_under id entry.job (record cs { rows = set_row_status true id "active" cs.rows }),
        none,
      )
      else (
        record cs { entries = insert id (with_status "paused" entry) cs.entries },
        some database_error,
      )
]

-- the sections of Pause, with nothing between them
unfoldable pub pause_sections : Bool → String → CronScheduler → Result
unfolding lookup pause_entry pause_row
pause_sections db_ok id cs = elim (lookup id cs.entries) [
  | none ↦ (cs, some job_not_found)
  | some entry ↦
      let (paused_cs, goes_on) = pause_entry id cs in
      if goes_on then (pause_row db_ok id paused_cs, database db_ok) else (cs, none)
]

-- the two sections of Resume, with nothing between them
unfoldable pub resume_sections : Bool → String → CronScheduler → Result
unfolding begin_resume finish_resume
resume_sections db_ok id cs =
    let (marked_cs, b) = begin_resume id cs in
    elim b [
      | refuses e ↦ (cs, some e)
      | already ↦ (cs, none)
      | marked ↦ finish_resume db_ok id marked_cs
    ]

-- A Pause that has its entry takes it after the first section of a Resume of the same job.
unfoldable pub overlapped : String → CronScheduler → CronScheduler
unfolding begin_resume pause_entry finish_resume pause_row
overlapped id cs =
    pause_row true id ((finish_resume true id ((pause_entry id ((begin_resume id cs).0)).0)).0)

insert-insert :
    (id : String) (x y : CronEntry) (m : Dict CronEntry)
    → insert id x (insert id y m) ≡ insert id x m
unfolding insert
insert-insert id x y [] = ground (arith, eq_refl id)
insert-insert id x y ((k, v) ∷ m) = elim (Bool-cases (k == id)) [
  | inl e ↦ ground (arith, e)
  | inr e ↦ ground (arith, e, insert-insert id x y m)
]

insert-same :
    (id : String) (x : CronEntry) (m : Dict CronEntry) → lookup id m ≡ some x → insert id x m ≡ m
unfolding insert lookup
insert-same id x [] h = absurd (cc h)
insert-same id x ((k, v) ∷ m) h = elim (Bool-cases (k == id)) [
  | inl e ↦ ground (arith, e, h)
  | inr e ↦ ground (arith, e, insert-same id x m (rw e at h))
]

found : (id : String) (x : CronEntry) (m : Dict CronEntry) → lookup id (insert id x m) ≡ some x
found id x m = rw (lookup-insert id id x m, eq_refl id) refl

marked_paused :
    (db_ok : Bool) (id : String) (entry : CronEntry) (cs : CronScheduler)
    → lookup id cs.entries ≡ some entry
    → entry.job.status ≡ "paused"
    → finish_resume db_ok id
        (record cs { entries = insert id (with_status "active" entry) cs.entries })
      ≡ (if db_ok
          then (
            run_under id
                (record entry.job { status = "active" })
                (record cs { rows = set_row_status true id "active" cs.rows }),
            none,
          )
          else (cs, some database_error))
unfolding finish_resume run_under
marked_paused true id entry cs h s =
    simp
      (
        found id (with_status "active" entry) cs.entries,
        insert-insert id
            (record { job = record entry.job { status = "active" }; context = cs.made })
            (with_status "active" entry) cs.entries,
        finish_resume,
        run_under,
      )
      refl
marked_paused false id entry cs h s =
    let same : with_status "paused" entry ≡ entry =
      ap (λ x. record entry { job = record entry.job { status = x } }) (sym s) in
    let back : insert id (with_status "paused" entry) cs.entries ≡ cs.entries =
      ap (λ x. insert id x cs.entries) same ∙ insert-same id entry cs.entries h in
    simp
      (
        found id (with_status "active" entry) cs.entries,
        insert-insert id (with_status "paused" entry) (with_status "active" entry) cs.entries,
        back,
        finish_resume,
      )
      refl

-- With nothing between its sections, a Pause is the step that the scheduler's relation has.
pause_sections-pause :
    (db_ok : Bool) (id : String) (cs : CronScheduler)
    → pause_sections db_ok id cs ≡ pause db_ok id cs
unfolding pause_sections pause_entry pause_row pause
pause_sections-pause db_ok id cs = elim (Option-cases (lookup id cs.entries)) [
  | inl e ↦ simp (e, pause_sections, pause) refl
  | inr (entry, e) ↦ elim (Bool-cases (entry.job.status == "paused")) [
    | inl s ↦ simp (e, s, pause_sections, pause_entry, pause) refl
    | inr s ↦ simp (e, s, pause_sections, pause_entry, pause_row, pause) refl
  ]
]

-- With nothing between its two sections, a Resume is the step that the scheduler's relation has.
resume_sections-resume :
    (db_ok : Bool) (id : String) (cs : CronScheduler)
    → resume_sections db_ok id cs ≡ resume db_ok id cs
unfolding resume_sections begin_resume resume
resume_sections-resume db_ok id cs = elim (Bool-cases cs.closed) [
  | inl c ↦ simp (c, resume_sections, begin_resume, resume) refl
  | inr c ↦ elim (Option-cases (lookup id cs.entries)) [
    | inl e ↦ simp (c, e, resume_sections, begin_resume, resume) refl
    | inr (entry, e) ↦ elim (Bool-cases (entry.job.status == "paused")) [
      | inr s ↦ simp (c, e, s, resume_sections, begin_resume, resume) refl
      | inl s ↦
          let p = (eq_iff entry.job.status "paused").0 s in
          let left : resume_sections db_ok id cs
              ≡ finish_resume db_ok id
                  (record cs { entries = insert id (with_status "active" entry) cs.entries }) =
            simp (c, e, s, resume_sections, begin_resume) refl in
          elim (Bool-cases db_ok) [
            | inl d ↦ left ∙ marked_paused db_ok id entry cs e p ∙ simp (c, e, s, d, resume) refl
            | inr d ↦ left ∙ marked_paused db_ok id entry cs e p ∙ simp (c, e, s, d, resume) refl
          ]
    ]
  ]
]

record IsRaced (id : String) (entry : CronEntry) (cs raced : CronScheduler) : Type 0 where
  open_ : raced.closed ≡ false
  stored :
      lookup id raced.entries
      ≡ some (record { job = record entry.job { status = "paused" }; context = cs.made })
  made : raced.made ≡ cs.made + 1
  running : raced.cancelled cs.made ≡ false
  owned : raced.owner cs.made ≡ id

overlapped-IsRaced :
    (id : String) (entry : CronEntry) (cs : CronScheduler)
    → cs.closed ≡ false
    → lookup id cs.entries ≡ some entry
    → entry.job.status ≡ "paused"
    → IsRaced id entry cs (overlapped id cs)
unfolding overlapped begin_resume pause_entry finish_resume pause_row run_under
overlapped-IsRaced id entry cs c h s =
    let active = with_status "active" entry in
    let paused = with_status "paused" entry in
    let e1 = insert id active cs.entries in
    let e2 = insert id paused e1 in
    let is : entry.job.status == "paused" ≡ true = (eq_iff entry.job.status "paused").1 s in
    let began : begin_resume id cs ≡ (record cs { entries = e1 }, marked) =
      simp (c, h, is, begin_resume) refl in
    let cs2 : CronScheduler = record cs {
      entries = e2;
      cancelled = cancel entry.context cs.cancelled;
    } in
    let took : (pause_entry id (record cs { entries = e1 })).0 ≡ cs2 =
      simp (found id active cs.entries, pause_entry) refl in
    let ended : (finish_resume true id cs2).0
        ≡ run_under id paused.job (record cs2 { rows = set_row_status true id "active" cs2.rows }) =
      simp (found id paused e1, finish_resume) refl in
    let all : overlapped id cs
        ≡ pause_row true id (
            run_under id paused.job
              (record cs2 { rows = set_row_status true id "active" cs2.rows })) =
      ap (λ x. pause_row true id ((finish_resume true id ((pause_entry id (x.0)).0)).0)) began
      ∙ ap (λ x. pause_row true id ((finish_resume true id x).0)) took
      ∙ ap (pause_row true id) ended in
    subst (IsRaced id entry cs) (sym all) (record {
      open_ = c;
      stored = found id _ e2;
      made = refl;
      running = ground arith;
      owned = ground arith;
    })

record IsRestarted (id : String) (entry : CronEntry) (cs next : CronScheduler) : Type 0 where
  stored :
      lookup id next.entries
      ≡ some (record { job = record entry.job { status = "active" }; context = cs.made })
  made : next.made ≡ cs.made + 1
  running : next.cancelled cs.made ≡ false
  owned : next.owner cs.made ≡ id
  kept : (c : ℕ) → c < cs.made → next.cancelled c ≡ cs.cancelled c
  known : (c : ℕ) → c < cs.made → next.owner c ≡ cs.owner c

resume-again :
    (id : String) (entry : CronEntry) (cs : CronScheduler)
    → cs.closed ≡ false
    → lookup id cs.entries ≡ some entry
    → entry.job.status ≡ "paused"
    → IsRestarted id entry cs ((resume true id cs).0)
unfolding resume run_under
resume-again id entry cs c h s =
    let active : CronJob = record entry.job { status = "active" } in
    let is : entry.job.status == "paused" ≡ true = (eq_iff entry.job.status "paused").1 s in
    let all : (resume true id cs).0
        ≡ run_under id active (record cs { rows = set_row_status true id "active" cs.rows }) =
      simp (c, h, is, resume) refl in
    subst (IsRestarted id entry cs) (sym all) (record {
      stored = found id _ cs.entries;
      made = refl;
      running = ground arith;
      owned = ground arith;
      kept = λ x l. ground (arith, l);
      known = λ x l. ground (arith, l);
    })

-- If a Pause takes the entry of a paused job between the two sections of a Resume and the database
-- answers, then the entry and its live loop are there and the job is paused; and after one more Resume
-- two loops of the job are live, with an active entry.
pub paused_between :
    (id : String) (entry : CronEntry) (cs : CronScheduler)
    → cs.closed ≡ false
    → lookup id cs.entries ≡ some entry
    → entry.job.status ≡ "paused"
    → let raced = overlapped id cs in
      let again = (resume true id raced).0 in
      ((e : CronEntry) × (lookup id raced.entries ≡ some e)
        × (e.job.status ≡ "paused")
        × IsLive raced e.context)
      × ((e : CronEntry) × (lookup id again.entries ≡ some e) × (e.job.status ≡ "active"))
      × ((first : ℕ) × (second : ℕ) × (first < second)
          × IsLive again first
          × IsLive again second
          × (again.owner first ≡ id)
          × (again.owner second ≡ id))
unfolding overlapped begin_resume pause_entry finish_resume pause_row run_under resume
paused_between id entry cs c h s =
    let r = overlapped-IsRaced id entry cs c h s in
    let again = resume-again id _ (overlapped id cs) r.open_ r.stored refl in
    let live : cs.made < (overlapped id cs).made = omega (arith, r.made) in
    (
      (_, r.stored, refl, record { is_made = live; running = r.running }),
      (_, again.stored, refl),
      (
        cs.made,
        (overlapped id cs).made,
        live,
        record {
          is_made = omega (arith, again.made, live);
          running = again.kept cs.made live ∙ r.running;
        },
        record { is_made = omega (arith, again.made); running = again.running },
        again.known cs.made live ∙ r.owned,
        again.owned,
      ),
    )
