-- ===== src/Daemon/Cron/Soundness.antt =====
-- A live loop belongs to an active entry.
use ratchet_cli.Base.{
  ℕ, ◌<◌, ◌≡◌, ◌≢◌, refl, sym, ap, ◌∙◌, ◌⊎◌, inl, inr, String, false, none, some, arith, eqb,
  eqb_iff, ◌==◌, eq_iff, Bool-cases,
}
use ratchet_cli.Base.Dict.{Dict, lookup, lookup-insert}
use ratchet_cli.Daemon.Schedule.{Parsed, ScheduleError, interval, invalid}
use ratchet_cli.Daemon.Cron.{CronJob, CronEntry, CronScheduler, run_under, cancel}

-- The loop of a context that was made and is not cancelled.
pub record IsLive (cs : CronScheduler) (c : ℕ) : Type 0 where
  pub is_made : c < cs.made
  pub running : cs.cancelled c ≡ false

-- The job of a loop has an active entry with its context, in a scheduler that is not closed.
pub record HasEntry (cs : CronScheduler) (c : ℕ) : Type 0 where
  pub entry : CronEntry
  pub found : lookup (cs.owner c) cs.entries ≡ some entry
  pub context : entry.context ≡ c
  pub active : entry.job.status ≡ "active"
  pub open_ : cs.closed ≡ false

pub record IsSound (cs : CronScheduler) : Type 0 where
  pub live : (c : ℕ) → IsLive cs c → HasEntry cs c
  pub is_made : (id : String) (e : CronEntry) → lookup id cs.entries ≡ some e → e.context < cs.made

-- No loop of the job is live.
abbrev pub IsQuiet : String → CronScheduler → Type 0
IsQuiet id cs = (c : ℕ) → IsLive cs c → cs.owner c ≢ id

pub run_under-IsSound :
    (id : String) (job : CronJob) (cs : CronScheduler)
    → IsSound cs
    → IsQuiet id cs
    → cs.closed ≡ false
    → job.status ≡ "active"
    → IsSound (run_under id job cs)
unfolding run_under
run_under-IsSound id job cs h quiet open_ active = record {
  live = λ c l. elim (Bool-cases (eqb c cs.made)) [
    | inl e ↦ record {
      entry = record { job = job; context = cs.made };
      found = ground (
        arith,
        e,
        lookup-insert id id (record { job = job; context = cs.made }) cs.entries,
        eq_iff id id,
      );
      context = sym ((eqb_iff c cs.made).0 e);
      active = active;
      open_ = open_;
    }
    | inr e ↦
        let before : IsLive cs c = record {
          is_made = ground (arith, l.is_made, e);
          running = ground (arith, l.running, e);
        } in
        let old = h.live c before in
        record {
          entry = old.entry;
          found = ground (
            arith,
            e,
            old.found,
            quiet c before,
            lookup-insert id (cs.owner c) (record { job = job; context = cs.made }) cs.entries,
            eq_iff id (cs.owner c),
          );
          context = old.context;
          active = old.active;
          open_ = old.open_;
        }
  ];
  is_made = λ k e f. ground (
    arith,
    f,
    lookup-insert id k (record { job = job; context = cs.made }) cs.entries,
    h.is_made k e,
  );
}

-- the rows do not matter
pub same_rows :
    (rows : Dict CronJob) (cs : CronScheduler) → IsSound cs → IsSound (record cs { rows = rows })
same_rows rows cs h = record {
  live = λ c l.
      let old = h.live c (record { is_made = l.is_made; running = l.running }) in
      record {
        entry = old.entry;
        found = old.found;
        context = old.context;
        active = old.active;
        open_ = old.open_;
      };
  is_made = h.is_made;
}

pub Parsed-cases :
    (x : Parsed) → ((e : ScheduleError) × (x ≡ invalid e)) ⊎ ((d : ℕ) × (x ≡ interval d))
Parsed-cases (invalid e) = inl (e, refl)
Parsed-cases (interval d) = inr (d, refl)

-- Without an active entry, a job has no live loop.
pub absent-IsQuiet :
    (id : String) (cs : CronScheduler) → IsSound cs → lookup id cs.entries ≡ none → IsQuiet id cs
absent-IsQuiet id cs h gone c l e =
    let f = (h.live c l).found in ground (arith, f, gone, ap (λ k. lookup k cs.entries) e)

active_not_paused : ◌≢◌ {A = String} "active" "paused"
active_not_paused e = ground (arith, (eq_iff "active" "paused").1 e)

pub paused-IsQuiet :
    (id : String) (entry : CronEntry) (cs : CronScheduler)
    → IsSound cs
    → lookup id cs.entries ≡ some entry
    → entry.job.status ≡ "paused"
    → IsQuiet id cs
paused-IsQuiet id entry cs h found paused c l e =
    let old = h.live c l in
    let same : some old.entry ≡ some entry =
      sym old.found ∙ ap (λ k. lookup k cs.entries) e ∙ found in
    let eq : old.entry ≡ entry = ground (arith, same) in
    active_not_paused (sym old.active ∙ ap (λ (x : CronEntry). x.job.status) eq ∙ paused)

-- the cancellation of a job's context, with any change of its entry
pub cancel-IsSound :
    (id : String) (entry : CronEntry) (entries : Dict CronEntry) (rows : Dict CronJob)
    (cs : CronScheduler)
    → IsSound cs
    → lookup id cs.entries ≡ some entry
    → ((k : String) → id ≢ k → lookup k entries ≡ lookup k cs.entries)
    → ((e : CronEntry) → lookup id entries ≡ some e → e.context < cs.made)
    → IsSound (record cs {
      entries = entries;
      cancelled = cancel entry.context cs.cancelled;
      rows = rows;
    })
cancel-IsSound id entry entries rows cs h found others bound = record {
  live = λ c l.
      let before : IsLive cs c = record {
        is_made = l.is_made;
        running = ground (arith, l.running);
      } in
      let old = h.live c before in
      let away : id ≢ cs.owner c = λ same.
        let eq : some old.entry ≡ some entry =
          sym old.found ∙ ap (λ k. lookup k cs.entries) (sym same) ∙ found in
        ground (arith, eq, old.context, l.running) in
      record {
        entry = old.entry;
        found = others (cs.owner c) away ∙ old.found;
        context = old.context;
        active = old.active;
        open_ = old.open_;
      };
  is_made = λ k e f. elim (Bool-cases (id == k)) [
    | inl s ↦ bound e (ap (λ j. lookup j entries) ((eq_iff id k).0 s) ∙ f)
    | inr s ↦ h.is_made k e (sym (others k (λ same. ground (arith, s, (eq_iff id k).1 same))) ∙ f)
  ];
}
