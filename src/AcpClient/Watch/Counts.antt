-- ===== src/AcpClient/Watch/Counts.antt =====
-- What the stages of a cycle of the watch do to its counts.
use mathlib.Core.Path.{subst}
use ratchet_cli.Base.{
  sym, All, All-snoc, ℕ, ◌+◌, ◌≤◌, ◌<◌, ◌≡◌, refl, ◌∙◌, inl, inr, String, Bool, true, false, List,
  arith, Bool-cases,
}
use ratchet_cli.AcpClient.Types.{cancellation_latched}
use ratchet_cli.AcpClient.Store.{Runtime, World}
use ratchet_cli.AcpClient.Store.Runs.{Op}
use ratchet_cli.AcpClient.Drain.Calls.{
  Turn, Admission, admitted, refused, unreleased, get_session, recovered,
}
use ratchet_cli.AcpClient.Drain.Turns.{
  Read-cases, RunsTo, RunsTo-refl, RunsTo-trans, before-RunsTo, act-RunsTo,
}
use ratchet_cli.AcpClient.Watch.{
  cancel_watch, final_check, finalize_watch_cancellation, stop_or_sleep, idle_stage,
}
use ratchet_cli.AcpClient.Watch.Results.{
  WatchError, WatchCycle, Cycle, Watch, After, watches_on, ends, reached_max_watch_cycles,
}

module _ (rt : Runtime) where
  -- the same counts, after store operations
  pub record Same (s s' : Watch) : Type 0 where
    pub runs : RunsTo rt s.world s'.world
    pub cycles : s'.result.cycles ≡ s.result.cycles
    pub processed : s'.result.processed ≡ s.result.processed
    pub completed : s'.result.completed ≡ s.result.completed
    pub failed : s'.result.failed ≡ s.result.failed
    pub seen : s'.seen ≡ s.seen

  pub Same-refl : (s : Watch) → Same s s
  Same-refl s = record {
    runs = RunsTo-refl rt s.world;
    cycles = refl;
    processed = refl;
    completed = refl;
    failed = refl;
    seen = refl;
  }

  pub Same-world : (s : Watch) (w : World) → RunsTo rt s.world w → Same s (record s { world = w })
  Same-world s w r = record {
    runs = r;
    cycles = refl;
    processed = refl;
    completed = refl;
    failed = refl;
    seen = refl;
  }

  pub Same-trans : (a b c : Watch) → Same a b → Same b c → Same a c
  Same-trans a b c h k = record {
    runs = RunsTo-trans rt _ _ _ h.runs k.runs;
    cycles = k.cycles ∙ h.cycles;
    processed = k.processed ∙ h.processed;
    completed = k.completed ∙ h.completed;
    failed = k.failed ∙ h.failed;
    seen = k.seen ∙ h.seen;
  }

  pub cancel_watch-Same :
      (t count : Turn) (id : String) (s : Watch) → Same s ((cancel_watch rt t count id s).0)
  unfolding cancel_watch recovered
  cancel_watch-Same t count id s = record {
    runs =
        RunsTo-trans rt _ _ _ (act-RunsTo rt t (Op.recover_running_queue_items id t.at) s.world)
          (before-RunsTo rt count _);
    cycles = refl;
    processed = refl;
    completed = refl;
    failed = refl;
    seen = refl;
  }

  pub final_check-Same : (c : Cycle) (id : String) (s : Watch) → Same s ((final_check rt c id s).0)
  unfolding final_check
  final_check-Same c id s =
      let f = Same-world s _ (before-RunsTo rt c.final s.world) in
      elim (Read-cases (get_session rt c.final id s.world)) [
        | inl (e, p) ↦ rw (p, final_check) f
        | inr (rec, p) ↦ elim (Bool-cases (cancellation_latched rec.status)) [
          | inl l ↦
              rw (p, l, final_check) (Same-trans s _ _ f (cancel_watch-Same c.recover c.count id _))
          | inr l ↦ rw (p, l, final_check) f
        ]
      ]

  module _ (max per : ℕ) where
    abbrev pub Within : List WatchCycle → Type 0
    Within cycles = All (λ c. c.drained.processed ≤ per) cycles

    -- One iteration counts one cycle at most, with at most `per` prompts.
    pub record Grows (s s' : Watch) : Type 0 where
      pub runs : RunsTo rt s.world s'.world
      pub cycles : s'.result.cycles ≤ s.result.cycles + 1
      pub processed : s'.result.processed ≤ s.result.processed + per
      pub counted :
          s'.result.completed + s'.result.failed + s.result.processed
          ≤ s.result.completed + s.result.failed + s'.result.processed
      pub bounded : Within s.seen → Within s'.seen

    pub data Advances (s : Watch) : After → Type 0 where
      advances_on :
          (s' : Watch)
          → Grows s s'
          → s'.result.cycles ≡ s.result.cycles + 1
          → s'.result.cycles < max
          → Advances s (watches_on s')
      advances_end : (s' : Watch) (es : List WatchError) → Grows s s' → Advances s (ends s' es)

    pub Same-Grows : (s s' : Watch) → Same s s' → Grows s s'
    Same-Grows s s' h = record {
      runs = h.runs;
      cycles = omega (arith, h.cycles);
      processed = omega (arith, h.processed);
      counted = omega (arith, h.processed, h.completed, h.failed);
      bounded = λ b. subst Within (sym h.seen) b;
    }

    pub after : {a b s' : Watch} → Same a b → Grows b s' → Grows a s'
    after h g = record {
      runs = RunsTo-trans rt _ _ _ h.runs g.runs;
      cycles = omega (arith, g.cycles, h.cycles);
      processed = omega (arith, g.processed, h.processed);
      counted = omega (arith, g.counted, h.processed, h.completed, h.failed);
      bounded = λ b. g.bounded (subst Within (sym h.seen) b);
    }

    pub before_same : {a b s' : Watch} → Grows a b → Same b s' → Grows a s'
    before_same g h = record {
      runs = RunsTo-trans rt _ _ _ g.runs h.runs;
      cycles = omega (arith, g.cycles, h.cycles);
      processed = omega (arith, g.processed, h.processed);
      counted = omega (arith, g.counted, h.processed, h.completed, h.failed);
      bounded = λ b. subst Within (sym h.seen) (g.bounded b);
    }

    pub Same-later : (a b : Watch) (n : After) → Same a b → Advances b n → Advances a n
    Same-later a b _ h (advances_on s' g c l) =
        advances_on s' (after h g) (omega (arith, c, h.cycles)) l
    Same-later a b _ h (advances_end s' es g) = advances_end s' es (after h g)

    -- the counts after an iteration that goes on to its end
    pub record Counted (s s' : Watch) : Type 0 where
      pub grows : Grows s s'
      pub one : s'.result.cycles ≡ s.result.cycles + 1

    pub finalized :
        (a : Admission) (c : Cycle) (id : String) (s s' : Watch)
        → Grows s s'
        → Advances s (finalize_watch_cancellation rt a c id s')
    unfolding finalize_watch_cancellation
    finalized refused c id s s' g = advances_end s' _ g
    finalized admitted c id s s' g = advances_end _ _ (before_same g (final_check-Same c id s'))
    finalized unreleased c id s s' g = advances_end _ _ (before_same g (final_check-Same c id s'))

    pub stopped :
        (b : Bool) (c : Cycle) (id : String) (s s' : Watch)
        → Counted s s'
        → (b ≡ false → s'.result.cycles < max)
        → Advances s (stop_or_sleep rt b c id s')
    unfolding stop_or_sleep
    stopped true c id s s' g room = finalized c.admission c id s s' g.grows
    stopped false c id s s' g room = elim (Bool-cases c.sleeps) [
      | inl e ↦ rw (e, stop_or_sleep) (advances_on s' g.grows g.one (room refl))
      | inr e ↦ rw (e, stop_or_sleep) (advances_end s' _ g.grows)
    ]

    pub reached-lt : (n : ℕ) → 0 < max → reached_max_watch_cycles n max ≡ false → n < max
    unfolding reached_max_watch_cycles
    reached-lt n positive h = ground (arith, h, positive)

    module _ (positive : 0 < max) where
      pub idle-Advances :
          (stop : Bool) (c : Cycle) (id : String) (s : Watch)
          → Advances s (idle_stage rt stop max c id s)
      unfolding idle_stage
      idle-Advances stop c id s =
          stopped _ c id s _
            (record {
              grows = record {
                runs = RunsTo-refl rt s.world;
                cycles = omega arith;
                processed = omega arith;
                counted = omega arith;
                bounded = λ b. All-snoc _ s.seen b (omega arith);
              };
              one = refl;
            })
            (λ h. reached-lt (s.result.cycles + 1) positive (ground (arith, h)))
