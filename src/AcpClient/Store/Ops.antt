-- ===== src/AcpClient/Store/Ops.antt =====
-- The operations of `Store` that change state, each as the source composes it, and `perform`, which
-- runs one of them. `env.now` is the time that an operation reads where no time is given.
use ratchet_cli.Base.{
  ℕ, String, Bool, true, false, Option, none, some, List, [], ◌∷◌, ◌==◌, is_blank, if◌then◌else◌,
}
use ratchet_cli.AcpClient.Types.{
  TurnSummary, QueuedPrompt, SessionRecord, cancellation_latched, is_pending,
}
use ratchet_cli.AcpClient.Records.{find_session}
use ratchet_cli.AcpClient.Normalize.{or_time, or_pending, normalize_records}
use ratchet_cli.AcpClient.Mutate.{StoreError}
use ratchet_cli.AcpClient.Mutate.Session
use ratchet_cli.AcpClient.Mutate.Session.{or_text}
use ratchet_cli.AcpClient.Mutate.Queue
use ratchet_cli.AcpClient.Mutate.Queue.{Update}
use ratchet_cli.AcpClient.EventLog.{EventLine}
use ratchet_cli.AcpClient.Store.{
  Runtime, World, Env, Outcome, done, fault, nothing, cancel_file, transition_session,
  create_session_with_events,
}

abbrev require_id : String → World → Outcome × World → Outcome × World
require_id id w run = if is_blank id then (fault StoreError.id_required, w) else run

abbrev require_queue_id : String → World → Outcome × World → Outcome × World
require_queue_id id w run = if is_blank id then (fault StoreError.queue_id_required, w) else run

module _ (rt : Runtime) where
  open rt use {store_key, new_queue_id}

  -- the prompt that AppendQueuedPrompt appends
  unfoldable pub prepared_prompt : ℕ → QueuedPrompt → QueuedPrompt
  prepared_prompt now prompt = record prompt {
    id = or_text prompt.id (new_queue_id prompt.prompt now);
    created_at = or_time prompt.created_at now;
    status = or_pending prompt.status;
  }

  -- updateQueuedPromptWithEvents, which both callers call with `terminal` true
  unfoldable pub update_with_events :
      Env → String → String → ℕ → List EventLine → Update → World → Outcome × World
  unfolding is_blank Queue.update_queued_prompt transition_session
  update_with_events env id queue_id when events update w = require_queue_id queue_id w (
      transition_session rt env nothing id events
        (Queue.update_queued_prompt id queue_id (or_time when env.now) true update) w)

  -- Upsert
  unfoldable pub upsert : Env → SessionRecord → World → Outcome × World
  unfolding is_blank Session.upsert transition_session
  upsert env rec w =
      require_id rec.id w
        (transition_session rt env nothing rec.id [] (Session.upsert env.now rec) w)

  -- InsertSession
  unfoldable pub insert_session : Env → SessionRecord → World → Outcome × World
  unfolding create_session_with_events
  insert_session env rec w = create_session_with_events rt env rec [] w

  -- MarkSessionStarted
  unfoldable pub mark_session_started : Env → SessionRecord → World → Outcome × World
  unfolding is_blank Session.update_session_lifecycle_record transition_session
  mark_session_started env rec w = require_id rec.id w (
      transition_session rt env nothing rec.id []
        (Session.update_session_lifecycle_record env.now rec none false) w)

  -- MarkSessionCompletedWithEvents
  unfoldable pub mark_session_completed :
      Env → SessionRecord → TurnSummary → List EventLine → World → Outcome × World
  unfolding is_blank Session.update_session_lifecycle_record transition_session
  mark_session_completed env rec turn events w = require_id rec.id w (
      transition_session rt env nothing rec.id events
        (Session.update_session_lifecycle_record env.now rec (some turn) true) w)

  -- AppendQueuedPrompt
  unfoldable pub append_queued_prompt : Env → SessionRecord → QueuedPrompt → World → Outcome × World
  unfolding is_blank prepared_prompt Session.append_queued_prompt transition_session
  append_queued_prompt env rec prompt w = require_id rec.id w (
      transition_session rt env nothing rec.id []
        (Session.append_queued_prompt rec (prepared_prompt env.now prompt)) w)

  -- MarkQueueRunning
  unfoldable pub mark_queue_running : Env → String → String → ℕ → World → Outcome × World
  unfolding is_blank Queue.mark_queue_running transition_session
  mark_queue_running env id queue_id when w = require_queue_id queue_id w (
      transition_session rt env nothing id []
        (Queue.mark_queue_running id queue_id (or_time when env.now)) w)

  -- MarkQueueCompletedWithEvents
  unfoldable pub mark_queue_completed :
      Env → String → String → String → String → List EventLine → ℕ → World → Outcome × World
  unfolding update_with_events Queue.complete_prompt
  mark_queue_completed env id queue_id response stop_reason events when w =
      update_with_events env id queue_id when events (Queue.complete_prompt response stop_reason) w

  -- MarkQueueFailed
  unfoldable pub mark_queue_failed : Env → String → String → String → ℕ → World → Outcome × World
  unfolding update_with_events Queue.fail_prompt
  mark_queue_failed env id queue_id message when w =
      update_with_events env id queue_id when [] (Queue.fail_prompt message) w

  -- CancelPendingQueue
  unfoldable pub cancel_pending_queue : Env → String → ℕ → World → Outcome × World
  unfolding Queue.cancel_pending_queue transition_session
  cancel_pending_queue env id when w =
      transition_session rt env nothing id [] (Queue.cancel_pending_queue id (or_time when env.now))
        w

  -- recoverRunningQueueItems
  unfoldable pub recover_running_queue_items : Env → String → ℕ → World → Outcome × World
  unfolding Queue.recover_running_queue_items transition_session
  recover_running_queue_items env id when w =
      transition_session rt env nothing id []
        (Queue.recover_running_queue_items id (or_time when env.now)) w

  -- MarkPendingCanceled
  unfoldable pub mark_pending_canceled : Env → String → ℕ → World → Outcome × World
  unfolding Queue.mark_pending_canceled transition_session
  mark_pending_canceled env id when w =
      transition_session rt env nothing id [] (Queue.mark_pending_canceled store_key id when) w

  -- requestCancel
  unfoldable pub request_cancel : Env → String → ℕ → World → Outcome × World
  unfolding is_blank Session.request_cancel transition_session
  request_cancel env id when w =
      let at = or_time when env.now in
      require_id id w
        (transition_session rt env (cancel_file id at) id [] (Session.request_cancel id at) w)

  -- setACPSessionID
  unfoldable pub set_acp_session_id : Env → String → String → World → Outcome × World
  unfolding Session.set_acp_session_id transition_session
  set_acp_session_id env id acp w =
      if acp == ""
      then (done, w)
      else transition_session rt env nothing id [] (Session.set_acp_session_id id acp) w

  -- Get, and CheckCancellation on what it returns; `none` is ErrSessionNotFound
  unfoldable pub get : ℕ → World → String → Option SessionRecord
  unfolding find_session normalize_records
  get loaded_at w id = find_session (normalize_records store_key loaded_at w.sessions) id

  unfoldable pub check_cancellation : ℕ → World → String → Option Bool
  unfolding get
  check_cancellation loaded_at w id = elim (get loaded_at w id) [
    | none ↦ none
    | some rec ↦ some (cancellation_latched rec.status)
  ]

  unfoldable pub first_pending : List QueuedPrompt → Option QueuedPrompt
  first_pending [] = none
  first_pending (p ∷ rest) = if is_pending p.status then some p else first_pending rest

  -- NextQueuedPrompt: an unknown session, or the first pending prompt if there is one
  unfoldable pub next_queued_prompt : ℕ → World → String → Option (Option QueuedPrompt)
  unfolding get first_pending
  next_queued_prompt loaded_at w id = elim (get loaded_at w id) [
    | none ↦ none
    | some rec ↦ some (first_pending rec.prompt_queue)
  ]
