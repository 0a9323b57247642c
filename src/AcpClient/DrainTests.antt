-- ===== src/AcpClient/DrainTests.antt =====
-- Runs of the drain and the watch on the file of Tests, and instances of their theorems.
use ratchet_cli.Base.{
  ℕ, ◌+◌, ◌*◌, ◌≤◌, ◌≡◌, refl, String, true, false, Option, none, some, List, [], ◌∷◌, arith, ◌==◌,
  any, All, Bool-cases, inl, inr, if◌then◌else◌,
}
use ratchet_cli.AcpClient.Records.{find_session, put_session, find_prompt, put_prompt}
use ratchet_cli.AcpClient.Mutate.Keeping.{latch_rank}
use ratchet_cli.AcpClient.Normalize.{normalize_records}
use ratchet_cli.AcpClient.Store.{World, Write}
use ratchet_cli.AcpClient.Store.Ops
use ratchet_cli.AcpClient.Store.Ops.{first_pending}
use ratchet_cli.AcpClient.Store.Reconcile.{
  Projection, latched_time, reconcile_cancellation_requests, reconciled,
}
use ratchet_cli.AcpClient.Drain.Calls.{
  Turn, DrainError, DrainResult, Check, Round, admitted, started, prompted, prompt_failed,
}
use ratchet_cli.AcpClient.Drain.{drain_queue_owned}
use ratchet_cli.AcpClient.Drain.Bounds.{drain_returns}
use ratchet_cli.AcpClient.Watch.{watch_loop, watch_queue}
use ratchet_cli.AcpClient.Watch.Results.{acquired, Cycle, Watch, WatchError, fresh_watch}
use ratchet_cli.AcpClient.Watch.Cycles.{watch_returns}
use ratchet_cli.AcpClient.Tests.{runtime, good, world, latched_work}

abbrev quiet : ℕ → Turn
quiet now = record { others = []; env = good; at = now }

abbrev unasked : Check
unasked = record { callback = some false; turn = quiet 30 }

abbrev round : Round
round = record {
  first = unasked;
  next = quiet 31;
  second = unasked;
  cancel = quiet 32;
  running = quiet 33;
  admission = admitted;
  launch = quiet 34;
  start = started "acp-1";
  recover = quiet 35;
  set_acp = quiet 36;
  reply = prompted "acp-1" "done" "end_turn" [];
  mark = quiet 37;
  count = quiet 38;
}

-- the second prompt fails
abbrev failing : Round
failing = record round { reply = prompt_failed "boom" }

abbrev drained_counts : Option (World × DrainResult × List DrainError) → List ℕ
drained_counts none = []
drained_counts (some (w, r, es)) = r.processed ∷ r.completed ∷ r.failed ∷ r.remaining ∷ []

-- A drain completes the recovered prompt and fails at the second one.
drain_counts :
    drained_counts
      (drain_queue_owned runtime 5 "work" (quiet 29) (round ∷ failing ∷ []) (quiet 39) true world)
    ≡ 2 ∷ 1 ∷ 1 ∷ 0 ∷ []
unfolding drain_queue_owned Ops.recover_running_queue_items put_session Ops.mark_queue_running
    find_prompt Ops.set_acp_session_id Ops.mark_queue_completed put_prompt Ops.mark_queue_failed
drain_counts = refl

drain_returns_example :
    (w' : World) × (r : DrainResult) × (es : List DrainError) × (drain_queue_owned runtime 2 "work"
        (quiet 29)
        (round ∷ failing ∷ [])
        (quiet 39)
        true
        world
      ≡ some (w', r, es))
    × (r.processed ≤ 2)
    × (r.completed + r.failed ≤ r.processed)
    × (r.processed ≤ r.completed + r.failed + 1)
    × ((j : String)
        → latch_rank (find_session world.sessions j) ≤ latch_rank (find_session w'.sessions j))
drain_returns_example =
    drain_returns runtime 2 "work" (quiet 29) (round ∷ failing ∷ []) (quiet 39) true world
      (omega arith) (omega arith) (tt, tt)

abbrev cycle : Cycle
cycle = record {
  context_done = false;
  check = quiet 40;
  recover = quiet 41;
  count = quiet 42;
  work = quiet 43;
  begin = quiet 29;
  rounds = round ∷ [];
  last = quiet 39;
  closes = true;
  admission = admitted;
  final = quiet 44;
  sleeps = true;
}

abbrev clean : Projection
clean = record {
  wrote = λ name. Write.committed;
  removed = λ name. Write.committed;
  listed = true;
  entries = "old" ∷ [];
}

abbrev watched_counts : Option (Watch × List WatchError) → List ℕ
watched_counts none = []
watched_counts (some (s, es)) =
    s.result.cycles ∷ s.result.processed ∷ s.result.completed ∷ s.result.remaining ∷ []

-- A watch that stops when the queue is empty drains the two prompts in two cycles and counts an idle one.
watch_counts :
    watched_counts (
      watch_queue runtime true 0 0 " work " good clean
        (acquired true)
        (cycle ∷ cycle ∷ cycle ∷ cycle ∷ [])
        world)
    ≡ 3 ∷ 2 ∷ 2 ∷ 0 ∷ []
unfolding watch_queue Ops.recover_running_queue_items put_session Ops.mark_queue_running find_prompt
    Ops.set_acp_session_id Ops.mark_queue_completed put_prompt
watch_counts = refl

watch_returns_example :
    (s : Watch) × (es : List WatchError) × (watch_loop runtime true 2 1
        (cycle ∷ cycle ∷ [])
        "work"
        (fresh_watch "work" world)
      ≡ some (s, es))
    × (s.result.cycles ≤ 2)
    × All (λ c. c.drained.processed ≤ 1) s.seen
    × (s.result.processed ≤ 2 * 1)
    × (s.result.completed + s.result.failed ≤ s.result.processed)
    × ((j : String)
        → latch_rank (find_session world.sessions j) ≤ latch_rank (find_session s.world.sessions j))
watch_returns_example =
    watch_returns runtime true 2 1 (cycle ∷ cycle ∷ []) "work" world (omega arith) (omega arith)
      (omega arith, (omega arith, tt)) (tt, tt)

abbrev stale : World
stale = record world {
  sessions = latched_work ∷ [];
  cancels = λ name. if "old" == name then some 3 else none;
}

unlisted : (name : String) → any (λ e. e == name) ("old" ∷ []) ≡ false → stale.cancels name ≡ none
unlisted name h = elim (Bool-cases ("old" == name)) [
  | inl e ↦ absurd (ground (arith, e, h))
  | inr e ↦ rw e refl
]

reconciled_example :
    let w' = (reconcile_cancellation_requests runtime good clean stale).1 in
    ((name : String)
      → w'.cancels name
        ≡ latched_time (λ id. id) name (normalize_records (λ id. id) 51 (latched_work ∷ [])))
    × (w'.sessions ≡ stale.sessions)
    × (w'.logs ≡ stale.logs)
unfolding reconcile_cancellation_requests
reconciled_example = reconciled runtime good clean stale refl (λ name h. unlisted name h)
