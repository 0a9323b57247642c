-- ===== src/AcpClient/Watch/Cycles.antt =====
-- The watch returns within its cycles, and what its counts say.
use mathlib.Core.Path.{subst}
use ratchet_cli.Base.{
  ℕ, zero, suc, ◌+◌, ◌*◌, ◌≤◌, ◌<◌, ◌≡◌, refl, inl, inr, String, Bool, Option, none, some, List, [],
  ◌∷◌, arith, length, All, All-snoc, ap, ◌++◌, eqb, Bool-cases,
}
use ratchet_cli.AcpClient.Types.{cancellation_latched}
use ratchet_cli.AcpClient.Records.{find_session, IsUnique}
use ratchet_cli.AcpClient.Mutate.Keeping.{latch_rank}
use ratchet_cli.AcpClient.Store.{Runtime, World}
use ratchet_cli.AcpClient.Store.Latch.{cancellation_latch}
use ratchet_cli.AcpClient.Drain.Calls.{Turn, DrainError, DrainResult, get_session}
use ratchet_cli.AcpClient.Drain.Turns.{Read-cases, RunsTo, RunsTo-trans, before-RunsTo}
use ratchet_cli.AcpClient.Drain.Bounds.{Tally, owned-Drains, drained}
use ratchet_cli.AcpClient.Watch.{
  watch_queue_work, count_and_end, stop_or_sleep, add_drain, work_stage, cycle_stage, watch_cycle,
  watch_loop,
}
use ratchet_cli.AcpClient.Watch.Results.{
  WatchError, watch_errors, WatchCycle, Cycle, Watch, After, watches_on, ends, out_of_rounds,
  reached_max_watch_cycles, per_cycle,
}
use ratchet_cli.AcpClient.Watch.{fresh_watch}
use ratchet_cli.AcpClient.Watch.Counts.{
  Same, Same-refl, Same-world, Same-trans, cancel_watch-Same, Grows, Advances, advances_on,
  advances_end, Same-Grows, after, Within, Same-later, Counted, stopped, reached-lt, idle-Advances,
}

module _ (rt : Runtime) where
  module _ (max k : ℕ) (positive : 0 < max) where
    per-positive : 0 < per_cycle k
    per-positive = ground arith

    drained-Counted :
        (s : Watch) (w : World) (d : DrainResult) (c : WatchCycle)
        → c.drained ≡ d
        → Tally rt (per_cycle k) per-positive s.world w d
        → Counted rt max
            (per_cycle k)
            s
            (record s { world = w; result = add_drain rt d s.result; seen = s.seen ++ c ∷ [] })
    drained-Counted s w d c e h = record {
      grows = record {
        runs = h.runs;
        cycles = omega arith;
        processed = omega (arith, h.bounded);
        counted = omega (arith, h.counted);
        bounded = λ b.
            All-snoc _ s.seen b (omega (arith, h.bounded, ap (λ (x : DrainResult). x.processed) e));
      };
      one = refl;
    }

    ended :
        (c : Cycle) (id : String) (s s' : Watch) (es : List DrainError)
        → Counted rt max (per_cycle k) s s'
        → Advances rt max (per_cycle k) s (elim es [
          | e ∷ rest ↦ ends s' (watch_errors (e ∷ rest))
          | [] ↦ stop_or_sleep rt (reached_max_watch_cycles (s.result.cycles + 1) max) c id s'
        ])
    ended c id s s' (e ∷ rest) g = advances_end s' _ g.grows
    ended c id s s' [] g = stopped rt max (per_cycle k) _ c id s s' g (λ h.
        omega (arith, g.one, reached-lt rt max (per_cycle k) (s.result.cycles + 1) positive h))

    -- the result of the drain of one cycle
    drain-Advances :
        (c : Cycle) (id : String) (s : Watch) (work : ℕ)
        → per_cycle k ≤ length c.rounds
        → Advances rt max (per_cycle k) s (work_stage rt max k work c id s)
    unfolding work_stage
    drain-Advances c id s work enough =
        let (w, d, es, e, tally) = drained rt (per_cycle k) per-positive s.world _ (
          owned-Drains rt (per_cycle k) per-positive id c.begin c.rounds c.last c.closes s.world
            enough) in
        rw (e, work_stage) (ended c id s _ es (drained-Counted s w d _ refl tally))

    counted_end :
        (t : Turn) (id : String) (es : List WatchError) (s s' : Watch)
        → Same rt s s'
        → Advances rt max (per_cycle k) s (count_and_end rt t id es s')
    unfolding count_and_end
    counted_end t id es s s' h = advances_end _ es (
        after rt max (per_cycle k) h (record {
          runs = before-RunsTo rt t s'.world;
          cycles = omega arith;
          processed = omega arith;
          counted = omega arith;
          bounded = λ b. b;
        }))

    stage-Advances :
        (stop : Bool) (c : Cycle) (id : String) (s : Watch)
        → per_cycle k ≤ length c.rounds
        → Advances rt max (per_cycle k) s (cycle_stage rt stop max k c id s)
    unfolding cycle_stage
    stage-Advances stop c id s enough =
        let h = Same-world rt s _ (before-RunsTo rt c.work s.world) in
        elim (Read-cases (watch_queue_work rt c.work id s.world)) [
          | inl (e, p) ↦ rw (p, cycle_stage) (counted_end c.count id _ s _ h)
          | inr (n, p) ↦ elim (Bool-cases (eqb n 0)) [
            | inl z ↦
                rw (p, z, cycle_stage)
                  (Same-later rt max (per_cycle k) s _ _ h
                    (idle-Advances rt max (per_cycle k) positive stop c id _))
            | inr z ↦
                rw (p, z, cycle_stage)
                  (Same-later rt max (per_cycle k) s _ _ h (drain-Advances c id _ n enough))
          ]
        ]

    cycle-Advances :
        (stop : Bool) (c : Cycle) (id : String) (s : Watch)
        → per_cycle k ≤ length c.rounds
        → Advances rt max (per_cycle k) s (watch_cycle rt stop max k c id s)
    unfolding watch_cycle
    cycle-Advances stop c id s enough =
        let h = Same-world rt s _ (before-RunsTo rt c.check s.world) in
        elim (Bool-cases c.context_done) [
          | inl d ↦ rw (d, watch_cycle) (counted_end c.count id _ s s (Same-refl rt s))
          | inr d ↦ elim (Read-cases (get_session rt c.check id s.world)) [
            | inl (e, p) ↦ rw (d, p, watch_cycle) (counted_end c.count id _ s _ h)
            | inr (rec, p) ↦ elim (Bool-cases (cancellation_latched rec.status)) [
              | inl l ↦
                  rw (d, p, l, watch_cycle)
                    (advances_end _ _ (
                      Same-Grows rt max (per_cycle k) s _
                        (Same-trans rt s _ _ h (cancel_watch-Same rt c.recover c.count id _))))
              | inr l ↦
                  rw (d, p, l, watch_cycle)
                    (Same-later rt max (per_cycle k) s _ _ h (stage-Advances stop c id _ enough))
            ]
          ]
        ]

    record Watched (s s' : Watch) (j : ℕ) : Type 0 where
      runs : RunsTo rt s.world s'.world
      cycles : s'.result.cycles ≤ max
      processed : s'.result.processed ≤ s.result.processed + j * per_cycle k
      counted :
          s'.result.completed + s'.result.failed + s.result.processed
          ≤ s.result.completed + s.result.failed + s'.result.processed
      bounded : Within rt max (per_cycle k) s.seen → Within rt max (per_cycle k) s'.seen

    abbrev Ends : Watch → ℕ → Option (Watch × List WatchError) → Type 0
    Ends s j none = ⊥
    Ends s j (some (s', es)) = Watched s s' j

    first_of :
        (s s' : Watch) (j : ℕ)
        → Grows rt max (per_cycle k) s s'
        → s.result.cycles < max
        → Watched s s' (suc j)
    first_of s s' j g room = record {
      runs = g.runs;
      cycles = omega (arith, g.cycles, room);
      processed = grind (arith, g.processed);
      counted = g.counted;
      bounded = g.bounded;
    }

    rest_of :
        (s m s' : Watch) (j : ℕ)
        → Grows rt max (per_cycle k) s m
        → Watched m s' j
        → Watched s s' (suc j)
    rest_of s m s' j g h = record {
      runs = RunsTo-trans rt _ _ _ g.runs h.runs;
      cycles = h.cycles;
      processed = grind (arith, g.processed, h.processed);
      counted = omega (arith, g.counted, h.counted);
      bounded = λ b. h.bounded (g.bounded b);
    }

    more :
        (s m : Watch) (j : ℕ) (x : Option (Watch × List WatchError))
        → Grows rt max (per_cycle k) s m
        → Ends m j x
        → Ends s (suc j) x
    more s m j none g h = h
    more s m j (some (s', es)) g h = rest_of s m s' j g h

    after-Ends :
        (s : Watch) (j : ℕ) (n : After) (rest : Watch → Option (Watch × List WatchError))
        → Advances rt max (per_cycle k) s n
        → s.result.cycles + suc j ≡ max
        → ((m : Watch) → m.result.cycles + j ≡ max → m.result.cycles < max → Ends m j (rest m))
        → Ends s
            (suc j)
            (elim n [ watches_on m ↦ rest m | ends m es ↦ some (m, es) | out_of_rounds ↦ none ])
    after-Ends s j _ rest (advances_on m g c l) e ih =
        more s m j (rest m) g (ih m (omega (arith, c, e)) l)
    after-Ends s j _ rest (advances_end m es g) e ih = first_of s m j g (omega (arith, e))

    loop-Ends :
        (stop : Bool) (cs : List Cycle) (id : String) (s : Watch) (j : ℕ)
        → s.result.cycles + j ≡ max
        → s.result.cycles < max
        → j ≤ length cs
        → All (λ c. per_cycle k ≤ length c.rounds) cs
        → Ends s j (watch_loop rt stop max k cs id s)
    unfolding watch_loop
    loop-Ends stop [] id s j e room f enough = absurd (omega (arith, e, room, f))
    loop-Ends stop (c ∷ cs) id s zero e room f enough = absurd (omega (arith, e, room))
    loop-Ends stop (c ∷ cs) id s (suc j) e room f (h, hs) =
        after-Ends s j _ (λ m. watch_loop rt stop max k cs id m) (cycle-Advances stop c id s h) e
          (λ m e' r. loop-Ends stop cs id m j e' r (omega (arith, f)) hs)

    watched :
        (s : Watch) (j : ℕ) (x : Option (Watch × List WatchError))
        → Ends s j x
        → (s' : Watch) × (es : List WatchError) × (x ≡ some (s', es)) × Watched s s' j
    watched s j none h = absurd h
    watched s j (some (s', es)) h = (s', es, refl, h)

-- A watch with a positive maximum of cycles, given that many cycles and in each as many rounds as it
-- may process prompts, of files in which no two sessions have one id, returns, whatever other
-- processes, the environment and the agent do. It has counted at most its maximum of cycles; every cycle
-- that it reports has processed at most the allowed prompts, and all together at most the maximum times
-- as many; it has completed and failed no more than it processed; and no session was lost nor a cancellation released.
pub watch_returns :
    (rt : Runtime) (stop : Bool) (max k : ℕ) (cs : List Cycle) (id : String) (w : World)
    → 0 < max
    → max ≤ length cs
    → All (λ c. per_cycle k ≤ length c.rounds) cs
    → IsUnique w.sessions
    → (s : Watch) × (es : List WatchError) × (watch_loop rt stop max k cs id (fresh_watch id w)
        ≡ some (s, es))
      × (s.result.cycles ≤ max)
      × All (λ c. c.drained.processed ≤ per_cycle k) s.seen
      × (s.result.processed ≤ max * per_cycle k)
      × (s.result.completed + s.result.failed ≤ s.result.processed)
      × ((j : String)
          → latch_rank (find_session w.sessions j) ≤ latch_rank (find_session s.world.sessions j))
watch_returns rt stop max k cs id w positive enough rounds unique =
    let (s, es, e, h) = watched rt max k positive (fresh_watch id w) max _ (
      loop-Ends rt max k positive stop cs id (fresh_watch id w) max (omega arith) positive enough
        rounds) in
    let (ops, end) = h.runs in
    let latch = (cancellation_latch rt ops w unique).1 in
    (
      s,
      es,
      e,
      h.cycles,
      h.bounded tt,
      omega (arith, h.processed),
      omega (arith, h.counted),
      λ j.
          subst
            (λ v. latch_rank (find_session w.sessions j) ≤ latch_rank (find_session v.sessions j))
            end (latch j),
    )
