-- ===== src/AcpClient/Drain/Bounds.antt =====
-- The drain returns, and what its counts say.
use mathlib.Core.Path.{subst}
use ratchet_cli.Base.{
  ℕ, ◌+◌, ◌≤◌, ◌<◌, ◌≡◌, refl, sym, ◌∙◌, inl, inr, String, Bool, true, false, Option, none, some,
  List, [], ◌∷◌, arith, length, Bool-cases,
}
use ratchet_cli.AcpClient.Records.{find_session, IsUnique}
use ratchet_cli.AcpClient.Mutate.Keeping.{latch_rank}
use ratchet_cli.AcpClient.Store.{Runtime, World}
use ratchet_cli.AcpClient.Store.Latch.{cancellation_latch}
use ratchet_cli.AcpClient.Store.Runs.{Op}
use ratchet_cli.AcpClient.Drain.Calls.{
  Turn, DrainError, DrainResult, Round, Loop, Next, goes_on, breaks, returns, act, recovered,
}
use ratchet_cli.AcpClient.Drain.{iteration, is_full, drain_loop, finish_drain, drain_queue_owned}
use ratchet_cli.AcpClient.Drain.Stages.{
  Counts, counts_on, counts_break, counts_return, iteration-Counts,
}
use ratchet_cli.AcpClient.Drain.Turns.{
  Outcome-cases, RunsTo, RunsTo-trans, before-RunsTo, act-RunsTo,
}

module _ (rt : Runtime) (max : ℕ) (positive : 0 < max) where
  -- what the loop has processed, completed and failed when it ends
  pub record Tally (w : World) (w' : World) (r : DrainResult) : Type 0 where
    pub runs : RunsTo rt w w'
    pub bounded : r.processed ≤ max
    pub counted : r.completed + r.failed ≤ r.processed
    pub close : r.processed ≤ r.completed + r.failed + 1

  -- before an iteration every processed prompt was completed
  record IsRunning (w : World) (l : Loop) : Type 0 where
    runs : RunsTo rt w l.world
    bounded : l.result.processed ≤ max
    completed : l.result.completed ≡ l.result.processed
    failed : l.result.failed ≡ 0

  counted_so_far : (w : World) (l : Loop) → IsRunning w l → Tally w l.world l.result
  counted_so_far w l h = record {
    runs = h.runs;
    bounded = h.bounded;
    counted = omega (arith, h.completed, h.failed);
    close = omega (arith, h.completed, h.failed);
  }

  abbrev Ends : World → Option (Loop × Bool × List DrainError) → Type 0
  Ends w none = ⊥
  Ends w (some (l, returned, es)) = Tally w l.world l.result

  full : (l : Loop) → max ≤ l.result.processed → is_full max l.result ≡ true
  full l h = ground (arith, positive, h)

  next-Ends :
      (id : String) (rounds : List Round) (w : World) (l : Loop) (n : Next)
      → IsRunning w l
      → l.result.processed < max
      → ((l' : Loop)
          → IsRunning w l'
          → l'.result.processed ≡ l.result.processed + 1
          → Ends w (drain_loop rt max id rounds l'))
      → Counts rt l n
      → Ends w (elim n [
        | goes_on l' ↦ drain_loop rt max id rounds l'
        | breaks l' ↦ some (l', false, [])
        | returns l' es ↦ some (l', true, es)
      ])
  next-Ends id rounds w l _ h room rest (counts_on l' r p c d) =
      rest l'
        (record {
          runs = RunsTo-trans rt _ _ _ h.runs r;
          bounded = omega (arith, p, room);
          completed = omega (arith, c, p, h.completed);
          failed = d ∙ h.failed;
        })
        p
  next-Ends id rounds w l _ h room rest (counts_break l' g) = counted_so_far w l' (record {
    runs = RunsTo-trans rt _ _ _ h.runs g.runs;
    bounded = omega (arith, g.processed, h.bounded);
    completed = g.completed ∙ h.completed ∙ sym g.processed;
    failed = g.failed ∙ h.failed;
  })
  next-Ends id rounds w l _ h room rest (counts_return l' es r c p d q) = record {
    runs = RunsTo-trans rt _ _ _ h.runs r;
    bounded = omega (arith, p, room);
    counted = omega (arith, c, d, h.completed, h.failed);
    close = omega (arith, c, p, h.completed);
  }

  loop-Ends :
      (id : String) (rounds : List Round) (w : World) (l : Loop)
      → IsRunning w l
      → max ≤ l.result.processed + length rounds
      → Ends w (drain_loop rt max id rounds l)
  unfolding drain_loop
  loop-Ends id [] w l h f = rw (full l (omega (arith, f))) (counted_so_far w l h)
  loop-Ends id (r ∷ rs) w l h f = elim (Bool-cases (is_full max l.result)) [
    | inl e ↦ rw (e, drain_loop) (counted_so_far w l h)
    | inr e ↦
        rw (e, drain_loop)
          (next-Ends id rs w l (iteration rt id r l) h (ground (arith, e, positive))
            (λ l' h' p. loop-Ends id rs w l' h' (omega (arith, f, p))) (iteration-Counts rt id r l))
  ]

  abbrev Drains : World → Option (World × DrainResult × List DrainError) → Type 0
  Drains w none = ⊥
  Drains w (some (w', r, es)) = Tally w w' r

  finish-Drains :
      (id : String) (last : Turn) (closes : Bool) (w : World)
      (x : Option (Loop × Bool × List DrainError))
      → Ends w x
      → Drains w (elim x [ none ↦ none | some end ↦ some (finish_drain rt id last closes end) ])
  unfolding finish_drain
  finish-Drains id last closes w none h = absurd h
  finish-Drains id last closes w (some (l, true, es)) h = h
  finish-Drains id last closes w (some (l, false, es)) h = record {
    runs = RunsTo-trans rt _ _ _ h.runs (before-RunsTo rt last l.world);
    bounded = h.bounded;
    counted = h.counted;
    close = h.close;
  }

  pub owned-Drains :
      (id : String) (begin : Turn) (rounds : List Round) (last : Turn) (closes : Bool) (w : World)
      → max ≤ length rounds
      → Drains w (drain_queue_owned rt max id begin rounds last closes w)
  unfolding drain_queue_owned recovered
  owned-Drains id begin rounds last closes w f =
      let op = Op.recover_running_queue_items id begin.at in
      let a = act-RunsTo rt begin op w in
      elim (Outcome-cases ((act rt begin op w).1)) [
        | inl (e, p) ↦
            rw (p, drain_queue_owned)
              (record {
                runs = a;
                bounded = omega arith;
                counted = omega arith;
                close = omega arith;
              })
        | inr p ↦
            rw (p, drain_queue_owned)
              (finish-Drains id last closes w _ (
                loop-Ends id rounds w _
                  (record { runs = a; bounded = omega arith; completed = refl; failed = refl })
                  (omega (arith, f))))
      ]

  pub drained :
      (w : World) (x : Option (World × DrainResult × List DrainError))
      → Drains w x
      → (w' : World) × (r : DrainResult) × (es : List DrainError) × (x ≡ some (w', r, es))
        × Tally w w' r
  drained w none h = absurd h
  drained w (some (w', r, es)) h = (w', r, es, refl, h)

-- A drain with a positive limit, given that many rounds, of files in which no two sessions have one id,
-- returns, whatever other processes, the environment and the agent do. It has processed at most its limit; it has completed or failed all that
-- it processed but one prompt at most; and no session was lost nor a cancellation released.
pub drain_returns :
    (rt : Runtime) (max : ℕ) (id : String) (begin : Turn) (rounds : List Round) (last : Turn)
    (closes : Bool) (w : World)
    → 0 < max
    → max ≤ length rounds
    → IsUnique w.sessions
    → (w' : World) × (r : DrainResult) × (es : List DrainError) × (drain_queue_owned rt max id begin
          rounds last closes w
        ≡ some (w', r, es))
      × (r.processed ≤ max)
      × (r.completed + r.failed ≤ r.processed)
      × (r.processed ≤ r.completed + r.failed + 1)
      × ((j : String)
          → latch_rank (find_session w.sessions j) ≤ latch_rank (find_session w'.sessions j))
drain_returns rt max id begin rounds last closes w positive enough unique =
    let (w', r, es, e, tally) =
      drained rt max positive w _
        (owned-Drains rt max positive id begin rounds last closes w enough) in
    let (ops, end) = tally.runs in
    let latch = (cancellation_latch rt ops w unique).1 in
    (
      w',
      r,
      es,
      e,
      tally.bounded,
      tally.counted,
      tally.close,
      λ j.
          subst
            (λ v. latch_rank (find_session w.sessions j) ≤ latch_rank (find_session v.sessions j))
            end (latch j),
    )
