-- ===== src/Daemon/Cron/Ticks.antt =====
-- The close and the ticks keep the scheduler sound.
use ratchet_cli.Base.{
  ℕ, ◌≡◌, refl, sym, ap, ◌∙◌, inl, inr, String, Bool, true, false, not, some, [], ◌∷◌, arith,
  if◌then◌else◌, ◌==◌, eq_iff, Option-cases, Bool-cases,
}
use ratchet_cli.Base.Dict.{Dict, lookup, insert, lookup-insert}
use ratchet_cli.Daemon.Cron.{CronJob, CronEntry, CronScheduler, cancel_all, close, tick}
use ratchet_cli.Daemon.Cron.Soundness.{IsSound}

cancel_all-member :
    (es : Dict CronEntry) (cancelled : ℕ → Bool) (id : String) (e : CronEntry)
    → lookup id es ≡ some e
    → cancel_all es cancelled e.context ≡ true
unfolding cancel_all lookup
cancel_all-member [] cancelled id e f = absurd (ground (arith, f))
cancel_all-member ((k, x) ∷ es) cancelled id e f =
    ground (arith, f, cancel_all-member es cancelled id e)

cancel_all-keeps :
    (es : Dict CronEntry) (cancelled : ℕ → Bool) (c : ℕ)
    → cancelled c ≡ true
    → cancel_all es cancelled c ≡ true
unfolding cancel_all
cancel_all-keeps [] cancelled c h = h
cancel_all-keeps ((k, x) ∷ es) cancelled c h = ground (arith, cancel_all-keeps es cancelled c h)

open_before :
    (cs : CronScheduler) (c : ℕ)
    → cancel_all cs.entries cs.cancelled c ≡ false
    → cs.cancelled c ≡ false
open_before cs c h = elim (Bool-cases (cs.cancelled c)) [
  | inl e ↦ absurd (ground (arith, h, cancel_all-keeps cs.entries cs.cancelled c e))
  | inr e ↦ e
]

choose-IsSound :
    (c : Bool) (x y : CronScheduler) → IsSound x → IsSound y → IsSound (if c then x else y)
choose-IsSound true x y h k = h
choose-IsSound false x y h k = k

pub close-IsSound : (cs : CronScheduler) → IsSound cs → IsSound (close cs)
unfolding close
close-IsSound cs h = choose-IsSound cs.closed cs _ h (record {
  live = λ c l.
      let before =
        h.live c (record { is_made = l.is_made; running = open_before cs c l.running }) in
      let stopped =
        cancel_all-member cs.entries cs.cancelled (cs.owner c) before.entry before.found in
      absurd (ground (arith, stopped, before.context, l.running));
  is_made = h.is_made;
})

-- a change of a job that keeps its status
rejob-IsSound :
    (id : String) (entry : CronEntry) (job : CronJob) (rows : Dict CronJob) (cs : CronScheduler)
    → IsSound cs
    → lookup id cs.entries ≡ some entry
    → job.status ≡ entry.job.status
    → IsSound
        (record cs { entries = insert id (record entry { job = job }) cs.entries; rows = rows })
rejob-IsSound id entry job rows cs h found kept = record {
  live = λ c l.
      let old = h.live c (record { is_made = l.is_made; running = l.running }) in
      elim (Bool-cases (id == cs.owner c)) [
        | inr s ↦ record {
          entry = old.entry;
          found = ground (
            arith,
            s,
            old.found,
            lookup-insert id (cs.owner c) (record entry { job = job }) cs.entries,
          );
          context = old.context;
          active = old.active;
          open_ = old.open_;
        }
        | inl s ↦
            let same : some old.entry ≡ some entry =
              sym old.found
              ∙ ap (λ k. lookup k cs.entries) (sym ((eq_iff id (cs.owner c)).0 s))
              ∙ found in
            let eq : old.entry ≡ entry = ground (arith, same) in
            record {
              entry = record entry { job = job };
              found =
                  ground (
                    arith,
                    s,
                    lookup-insert id (cs.owner c) (record entry { job = job }) cs.entries,
                  );
              context = ap (λ (x : CronEntry). x.context) (sym eq) ∙ old.context;
              active = kept ∙ ap (λ (x : CronEntry). x.job.status) (sym eq) ∙ old.active;
              open_ = old.open_;
            }
      ];
  is_made = λ k e f. ground (
    arith,
    f,
    found,
    lookup-insert id k (record entry { job = job }) cs.entries,
    h.is_made k e,
    h.is_made id entry,
  );
}

pub tick-IsSound :
    (db_ok : Bool) (context at wait : ℕ) (cs : CronScheduler)
    → IsSound cs
    → IsSound (tick db_ok context at wait cs)
unfolding tick
tick-IsSound db_ok context at wait cs h =
    elim (Option-cases (lookup (cs.owner context) cs.entries)) [
      | inl e ↦ rw (e, tick) h
      | inr (entry, e) ↦
          rw (e, tick)
            (choose-IsSound (not (entry.job.status == "active")) cs _ h
              (rejob-IsSound (cs.owner context) entry _ _ cs h e refl))
    ]
