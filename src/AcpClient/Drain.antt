-- ===== src/AcpClient/Drain.antt =====
-- internal/acpclient/drain.go. Between any two calls of the store other processes can run operations of
-- it: a `Turn` says which, and what the environment answers then. A `Round` has the turns of one
-- iteration of the loop and what the agent answers, so that the rounds are the loop's fuel.
pub mod Calls
pub mod Turns
pub mod Stages
pub mod Bounds
use ratchet_cli.Base.{
  ℕ, ◌+◌, String, Bool, true, false, not, ◌&&◌, ◌||◌, Option, none, some, List, [], ◌∷◌, ◌++◌, ltb,
  leb, eqb, if◌then◌else◌, ◌==◌, is_blank, trim_space,
}
use ratchet_cli.AcpClient.Types.{QueuedPrompt, SessionRecord, cancellation_latched}
use ratchet_cli.AcpClient.Mutate.{StoreError}
use ratchet_cli.AcpClient.Mutate.Queue.{recovered_count, pending_count}
use ratchet_cli.AcpClient.EventLog.{EventLine}
use ratchet_cli.AcpClient.Store.{Runtime, World, Env, Outcome, done, fault}
use ratchet_cli.AcpClient.Store.Ops
use ratchet_cli.AcpClient.Store.Ops.{first_pending}
use ratchet_cli.AcpClient.Store.Runs.{Op, perform, run_ops}
use Calls.{
  Turn, DrainError, store_error, prompt_error, callback_error, start_error, admission_error,
  close_error, session_id_required, drain_busy, lease_error, release_error, DrainResult, Check,
  Admission, admitted, refused, unreleased, StartReply, started, start_canceled, start_failed,
  Reply, prompt_failed, prompted, Round, Loop, Next, goes_on, breaks, returns, errors_of, Read,
  answer, failure, add_canceled, before, act, get_session, count_pending_queue,
  drain_cancel_requested, checked, recovered, recovered_canceled,
}

-- `max > 0 && result.Processed >= max`; 0 stands for every number that is not positive
abbrev pub is_full : ℕ → DrainResult → Bool
is_full max r = ltb 0 max && leb max r.processed

abbrev pub no_result : DrainResult
no_result = record {
  session_id = "";
  acp_session_id = "";
  processed = 0;
  completed = 0;
  failed = 0;
  canceled = 0;
  remaining = 0;
}

-- the deferred close of the runner
abbrev pub close_errors : Bool → Bool → List DrainError
close_errors runner closes = if runner && not closes then close_error ∷ [] else []

module _ (rt : Runtime) where
  -- the branch of a requested cancellation
  unfoldable pub cancel_stage : String → Turn → Loop → Next
  unfolding act get_session
  cancel_stage id t l =
      let (w, o) = act rt t (Op.cancel_pending_queue id t.at) l.world in
      let n = count_pending_queue rt t id l.world in
      elim o [
        | fault e ↦ returns (record l { world = w }) (store_error e ∷ [])
        | done ↦ breaks (record l { world = w; result = add_canceled n l.result })
      ]

  -- from `runner.Prompt` on
  unfoldable pub prompt_stage : String → Round → QueuedPrompt → Loop → Next
  unfolding act count_pending_queue
  prompt_stage id r next l =
      let t = r.mark in
      let result : DrainResult = record l.result { processed = l.result.processed + 1 } in
      elim r.reply [
        | prompt_failed message ↦
            (let (w, o) = act rt t (Op.mark_queue_failed id next.id message t.at) l.world in
              elim o [
                | fault e ↦
                    returns (record l { world = w; result = result })
                      (prompt_error message ∷ store_error e ∷ [])
                | done ↦
                    returns
                      (record l {
                        world = before rt r.count w;
                        result = record result {
                          failed = result.failed + 1;
                          remaining = count_pending_queue rt r.count id w;
                        };
                      })
                      (prompt_error message ∷ [])
              ])
        | prompted session text stop events ↦
            (let (w, o) =
                act rt t (Op.mark_queue_completed id next.id text stop events t.at) l.world in
              let acp = if result.acp_session_id == "" then session else result.acp_session_id in
              let named : DrainResult = record result { acp_session_id = acp } in
              elim o [
                | fault e ↦ returns (record l { world = w; result = named }) (store_error e ∷ [])
                | done ↦ goes_on (record l {
                  world = w;
                  result = record named { completed = named.completed + 1 };
                })
              ])
      ]

  -- a start that fails with an error other than ErrCancelRequested
  unfoldable pub abort_start : String → Turn → DrainError → Loop → Next
  unfolding recovered
  abort_start id t e l =
      let (w, o) = recovered rt t id l.world in returns (record l { world = w }) (e ∷ errors_of o)

  -- a start that finds the cancellation requested
  unfoldable pub cancel_start : String → Turn → Loop → Next
  unfolding recovered recovered_canceled
  cancel_start id t l =
      let (w, o) = recovered rt t id l.world in
      let l' : Loop = record l {
        world = w;
        result = add_canceled (recovered_canceled rt t id l.world) l.result;
      } in
      elim o [ fault e ↦ returns l' (store_error e ∷ []) | done ↦ breaks l' ]

  -- what follows a runner that was started
  unfoldable pub name_stage : String → Round → QueuedPrompt → String → String → Loop → Next
  unfolding act prompt_stage
  name_stage id r next old session l =
      let named : Loop = record l { result = record l.result { acp_session_id = session } } in
      let (w, o) = act rt r.set_acp (Op.set_acp_session_id id session) l.world in
      if (old == "") && not (session == "")
      then elim o [
        | fault e ↦ returns (record named { world = w }) (store_error e ∷ [])
        | done ↦ prompt_stage id r next (record named { world = w })
      ]
      else prompt_stage id r next named

  -- what the answer of StartRunner leads to, with the lock of withLaunchAdmission
  unfoldable pub launch_stage :
      String → Round → QueuedPrompt → String → StartReply → Admission → Loop → Next
  unfolding abort_start cancel_start name_stage
  launch_stage id r next old start_failed a l = abort_start id r.recover start_error l
  launch_stage id r next old start_canceled a l = cancel_start id r.recover l
  launch_stage id r next old (started session) unreleased l =
      abort_start id r.recover admission_error (record l { runner = true })
  launch_stage id r next old (started session) a l =
      name_stage id r next old session (record l { runner = true })

  -- the operation that withLaunchAdmission runs, and what follows it
  unfoldable pub enter_stage : String → Round → QueuedPrompt → Admission → Loop → Next
  unfolding get_session abort_start cancel_start launch_stage before
  enter_stage id r next a l =
      let seen : Loop = record l { world = before rt r.launch l.world } in
      elim (get_session rt r.launch id l.world) [
        | failure e ↦ abort_start id r.recover e seen
        | answer rec ↦ elim (cancellation_latched rec.status) [
          | true ↦ cancel_start id r.recover seen
          | false ↦ launch_stage id r next rec.acp_session_id r.start a seen
        ]
      ]

  -- withLaunchAdmission, by its lock
  unfoldable pub admit_stage : String → Round → QueuedPrompt → Admission → Loop → Next
  unfolding abort_start enter_stage
  admit_stage id r next refused l = abort_start id r.recover admission_error l
  admit_stage id r next a l = enter_stage id r next a l

  -- the branch `runner == nil`, and what follows it
  unfoldable pub start_stage : String → Round → QueuedPrompt → Loop → Next
  unfolding prompt_stage admit_stage
  start_stage id r next l = elim l.runner [
    | true ↦ prompt_stage id r next l
    | false ↦ admit_stage id r next r.admission l
  ]

  -- from the second check on
  unfoldable pub run_stage : String → Round → QueuedPrompt → Loop → Next
  unfolding drain_cancel_requested cancel_stage act start_stage
  run_stage id r next l =
      let w = checked rt r.second l.world in
      elim (drain_cancel_requested rt r.second id l.world) [
        | failure e ↦ returns (record l { world = w }) (e ∷ [])
        | answer true ↦ cancel_stage id r.cancel (record l { world = w })
        | answer false ↦
            (let (w', o) = act rt r.running (Op.mark_queue_running id next.id r.running.at) w in
              elim o [
                | fault e ↦ returns (record l { world = w' }) (store_error e ∷ [])
                | done ↦ start_stage id r next (record l { world = w' })
              ])
      ]

  -- one iteration
  unfoldable pub iteration : String → Round → Loop → Next
  unfolding drain_cancel_requested cancel_stage get_session first_pending run_stage before
  iteration id r l =
      let w = checked rt r.first l.world in
      let seen : Loop = record l { world = before rt r.next w } in
      elim (drain_cancel_requested rt r.first id l.world) [
        | failure e ↦ returns (record l { world = w }) (e ∷ [])
        | answer true ↦ cancel_stage id r.cancel (record l { world = w })
        | answer false ↦ elim (get_session rt r.next id w) [
          | failure e ↦ returns seen (e ∷ [])
          | answer rec ↦ elim (first_pending rt rec.prompt_queue) [
            | none ↦ breaks seen
            | some next ↦ run_stage id r next seen
          ]
        ]
      ]

  -- the loop; `none` is a loop that outlives its rounds. The Boolean says whether it returned.
  unfoldable pub drain_loop :
      ℕ → String → List Round → Loop → Option (Loop × Bool × List DrainError)
  unfolding iteration
  drain_loop max id [] l = if is_full max l.result then some (l, false, []) else none
  drain_loop max id (r ∷ rs) l = elim (is_full max l.result) [
    | true ↦ some (l, false, [])
    | false ↦ elim (iteration id r l) [
      | goes_on l' ↦ drain_loop max id rs l'
      | breaks l' ↦ some (l', false, [])
      | returns l' es ↦ some (l', true, es)
    ]
  ]

  -- the end of drainQueueOwned: the count of what remains, after a break, and the close
  unfoldable pub finish_drain :
      String → Turn → Bool → Loop × Bool × List DrainError → World × DrainResult × List DrainError
  unfolding count_pending_queue before
  finish_drain id last closes (l, returned, es) =
      let es' = es ++ close_errors l.runner closes in
      if returned then (l.world, l.result, es') else (
        before rt last l.world,
        record l.result { remaining = count_pending_queue rt last id l.world },
        es',
      )

  -- drainQueueOwned
  unfoldable pub drain_queue_owned :
      ℕ
      → String
      → Turn
      → List Round
      → Turn
      → Bool
      → World
      → Option (World × DrainResult × List DrainError)
  unfolding recovered recovered_canceled drain_loop finish_drain
  drain_queue_owned max id begin rounds last closes w =
      let (w', o) = recovered rt begin id w in
      let result : DrainResult = record no_result {
        session_id = id;
        canceled = recovered_canceled rt begin id w;
      } in
      elim o [
        | fault e ↦ some (w', no_result, store_error e ∷ [])
        | done ↦
            elim (drain_loop max id rounds
              (record { world = w'; result = result; runner = false })) [
                | none ↦ none
                | some end ↦ some (finish_drain id last closes end)
              ]
      ]
