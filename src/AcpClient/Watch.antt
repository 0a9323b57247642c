-- ===== src/AcpClient/Watch.antt =====
-- internal/acpclient/watch.go, and DrainQueue of drain.go. A `Cycle` has the turns of one iteration of the
-- watch and the rounds of its drain, so that the cycles are the loop's fuel.
use ratchet_cli.Base.{
  ℕ, ◌+◌, String, Bool, true, false, not, ◌&&◌, ◌||◌, Option, none, some, List, [], ◌∷◌, ◌++◌, ltb,
  leb, eqb, count_if, if◌then◌else◌, ◌==◌, is_blank, trim_space,
}
use ratchet_cli.AcpClient.Types.{
  SessionRecord, QueuedPrompt, cancellation_latched, is_pending, is_running,
}
use ratchet_cli.AcpClient.Mutate.{StoreError}
use ratchet_cli.AcpClient.Store.{Runtime, World, Env, Outcome, done, fault}
use ratchet_cli.AcpClient.Store.Reconcile.{Projection, reconcile_cancellation_requests}
use ratchet_cli.AcpClient.Drain.Calls.{
  Turn, DrainError, store_error, admission_error, session_id_required, drain_busy, lease_error,
  release_error, DrainResult, Round, Admission, admitted, refused, unreleased, errors_of, Read,
  answer, failure, before, get_session, count_pending_queue, recovered, recovered_canceled,
}
use ratchet_cli.AcpClient.Drain.{no_result, drain_queue_owned}
use Results.{
  Lease, release_errors, WatchError, watch_errors, WatchCycle, WatchResult, Cycle, Watch, After,
  reached_max_watch_cycles, per_cycle, fresh_watch, unwatched, acquired, busy, lease_failed,
  drain_error, cancel_requested, context_error, watches_on, ends, out_of_rounds,
}
pub mod Results
pub mod Counts
pub mod Cycles

module _ (rt : Runtime) where
  -- DrainQueue; `none` is a drain that outlives its rounds
  unfoldable pub drain_queue :
      ℕ
      → String
      → Env
      → Projection
      → Lease
      → Turn
      → List Round
      → Turn
      → Bool
      → World
      → Option (World × DrainResult × List DrainError)
  unfolding is_blank trim_space reconcile_cancellation_requests drain_queue_owned
  drain_queue max given env p lease begin rounds last closes w =
      let id = trim_space given in
      let (o, w') = reconcile_cancellation_requests rt env p w in
      if is_blank given then some (w, no_result, session_id_required ∷ []) else elim o [
        | fault e ↦ some (w', no_result, store_error e ∷ [])
        | done ↦ elim lease [
          | busy ↦ some (w', no_result, drain_busy ∷ [])
          | lease_failed ↦ some (w', no_result, lease_error ∷ [])
          | acquired released ↦ elim (drain_queue_owned rt max id begin rounds last closes w') [
            | none ↦ none
            | some (w'', r, es) ↦ some (w'', r, es ++ release_errors released)
          ]
        ]
      ]

  -- watchQueueWork
  unfoldable pub watch_queue_work : Turn → String → World → Read ℕ
  unfolding get_session
  watch_queue_work t id w = elim (get_session rt t id w) [
    | failure e ↦ failure e
    | answer rec ↦
        answer (count_if (λ p. is_pending p.status || is_running p.status) rec.prompt_queue)
  ]

  -- the recovery of a watch that finds the cancellation requested, before the count
  unfoldable pub cancel_watch : Turn → Turn → String → Watch → Watch × List WatchError
  unfolding recovered recovered_canceled count_pending_queue before
  cancel_watch t count id s =
      let (w, o) = recovered rt t id s.world in
      let canceled = s.result.canceled + recovered_canceled rt t id s.world in
      let result : WatchResult = record s.result {
        canceled = canceled;
        remaining = count_pending_queue rt count id w;
      } in
      (
        record s { world = before rt count w; result = result },
        cancel_requested ∷ watch_errors (errors_of o),
      )

  -- `result.Remaining = countPendingQueue(...)` and a return
  unfoldable pub count_and_end : Turn → String → List WatchError → Watch → After
  unfolding count_pending_queue before
  count_and_end count id es s =
      let result : WatchResult = record s.result {
        remaining = count_pending_queue rt count id s.world;
      } in
      ends (record s { world = before rt count s.world; result = result }) es

  -- the operation that finalizeWatchCancellation runs under withLaunchAdmission
  unfoldable pub final_check : Cycle → String → Watch → Watch × List WatchError
  unfolding get_session before cancel_watch
  final_check c id s =
      let s' : Watch = record s { world = before rt c.final s.world } in
      elim (get_session rt c.final id s.world) [
        | failure e ↦ (s', drain_error e ∷ [])
        | answer rec ↦ elim (cancellation_latched rec.status) [
          | true ↦ cancel_watch c.recover c.count id s'
          | false ↦ (s', [])
        ]
      ]

  -- finalizeWatchCancellation, and the return after it
  unfoldable pub finalize_watch_cancellation : Admission → Cycle → String → Watch → After
  unfolding final_check
  finalize_watch_cancellation refused c id s = ends s (drain_error admission_error ∷ [])
  finalize_watch_cancellation admitted c id s = let (s', es) = final_check c id s in ends s' es
  finalize_watch_cancellation unreleased c id s =
      let (s', es) = final_check c id s in ends s' (es ++ drain_error admission_error ∷ [])

  -- the end of an iteration that may stop
  unfoldable pub stop_or_sleep : Bool → Cycle → String → Watch → After
  unfolding finalize_watch_cancellation
  stop_or_sleep true c id s = finalize_watch_cancellation c.admission c id s
  stop_or_sleep false c id s = if c.sleeps then watches_on s else ends s (context_error ∷ [])

  -- the branch without work
  unfoldable pub idle_stage : Bool → ℕ → Cycle → String → Watch → After
  unfolding stop_or_sleep reached_max_watch_cycles
  idle_stage stop_when_empty max c id s =
      let n = s.result.cycles + 1 in
      let cycle : WatchCycle = record {
        session_id = id;
        cycle = n;
        pending_before = 0;
        idle = true;
        drained = record no_result { session_id = id };
      } in
      stop_or_sleep (stop_when_empty || reached_max_watch_cycles n max) c id (record s {
        result = record s.result { cycles = n; remaining = 0 };
        seen = s.seen ++ cycle ∷ [];
      })

  -- what a drain adds to the result of the watch
  abbrev pub add_drain : DrainResult → WatchResult → WatchResult
  add_drain d r = record {
    session_id = r.session_id;
    acp_session_id = if d.acp_session_id == "" then r.acp_session_id else d.acp_session_id;
    cycles = r.cycles + 1;
    processed = r.processed + d.processed;
    completed = r.completed + d.completed;
    failed = r.failed + d.failed;
    canceled = r.canceled + d.canceled;
    remaining = d.remaining;
  }

  -- the branch with work
  unfoldable pub work_stage : ℕ → ℕ → ℕ → Cycle → String → Watch → After
  unfolding drain_queue_owned stop_or_sleep reached_max_watch_cycles
  work_stage max max_per_cycle work c id s =
      elim (drain_queue_owned rt (per_cycle max_per_cycle) id c.begin c.rounds c.last c.closes
        s.world) [
          | none ↦ out_of_rounds
          | some (w, d, es) ↦
              (let n = s.result.cycles + 1 in
                let cycle : WatchCycle = record {
                  session_id = id;
                  cycle = n;
                  pending_before = work;
                  idle = false;
                  drained = d;
                } in
                let s' : Watch = record s {
                  world = w;
                  result = add_drain d s.result;
                  seen = s.seen ++ cycle ∷ [];
                } in
                elim es [
                  | e ∷ rest ↦ ends s' (watch_errors (e ∷ rest))
                  | [] ↦ stop_or_sleep (reached_max_watch_cycles n max) c id s'
                ])
        ]

  -- from the count of the work on
  unfoldable pub cycle_stage : Bool → ℕ → ℕ → Cycle → String → Watch → After
  unfolding watch_queue_work count_and_end before idle_stage work_stage
  cycle_stage stop_when_empty max max_per_cycle c id s =
      let seen : Watch = record s { world = before rt c.work s.world } in
      elim (watch_queue_work c.work id s.world) [
        | failure e ↦ count_and_end c.count id (drain_error e ∷ []) seen
        | answer n ↦ elim (eqb n 0) [
          | true ↦ idle_stage stop_when_empty max c id seen
          | false ↦ work_stage max max_per_cycle n c id seen
        ]
      ]

  -- one iteration
  unfoldable pub watch_cycle : Bool → ℕ → ℕ → Cycle → String → Watch → After
  unfolding count_and_end get_session before cancel_watch cycle_stage
  watch_cycle stop_when_empty max max_per_cycle c id s =
      let seen : Watch = record s { world = before rt c.check s.world } in
      let (s', es) = cancel_watch c.recover c.count id seen in
      elim c.context_done [
        | true ↦ count_and_end c.count id (context_error ∷ []) s
        | false ↦ elim (get_session rt c.check id s.world) [
          | failure e ↦ count_and_end c.count id (drain_error e ∷ []) seen
          | answer rec ↦ elim (cancellation_latched rec.status) [
            | true ↦ ends s' es
            | false ↦ cycle_stage stop_when_empty max max_per_cycle c id seen
          ]
        ]
      ]

  -- the loop of WatchQueue; `none` is a watch that outlives its cycles or a drain its rounds
  unfoldable pub watch_loop :
      Bool → ℕ → ℕ → List Cycle → String → Watch → Option (Watch × List WatchError)
  unfolding watch_cycle
  watch_loop stop_when_empty max max_per_cycle [] id s = none
  watch_loop stop_when_empty max max_per_cycle (c ∷ cs) id s =
      elim (watch_cycle stop_when_empty max max_per_cycle c id s) [
        | watches_on s' ↦ watch_loop stop_when_empty max max_per_cycle cs id s'
        | ends s' es ↦ some (s', es)
        | out_of_rounds ↦ none
      ]

  -- WatchQueue
  unfoldable pub watch_queue :
      Bool
      → ℕ
      → ℕ
      → String
      → Env
      → Projection
      → Lease
      → List Cycle
      → World
      → Option (Watch × List WatchError)
  unfolding is_blank trim_space reconcile_cancellation_requests watch_loop
  watch_queue stop_when_empty max max_per_cycle given env p lease cs w =
      let id = trim_space given in
      let (o, w') = reconcile_cancellation_requests rt env p w in
      if is_blank given then some (unwatched w (drain_error session_id_required ∷ [])) else elim o [
        | fault e ↦ some (unwatched w' (drain_error (store_error e) ∷ []))
        | done ↦ elim lease [
          | busy ↦ some (unwatched w' (drain_error drain_busy ∷ []))
          | lease_failed ↦ some (unwatched w' (drain_error lease_error ∷ []))
          | acquired released ↦
              elim (watch_loop stop_when_empty max max_per_cycle cs id (fresh_watch id w')) [
                | none ↦ none
                | some (s, es) ↦ some (s, es ++ watch_errors (release_errors released))
              ]
        ]
      ]
