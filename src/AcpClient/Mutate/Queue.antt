-- ===== src/AcpClient/Mutate/Queue.antt =====
-- Transition functions on the prompt queue of one record.
use ratchet_cli.Base.{
  ℕ, String, Bool, true, false, none, some, List, [], ◌∷◌, ◌++◌, map, not, ◌&&◌, ◌||◌, ◌==◌, eqb,
  leb, any, count_if, if◌then◌else◌, trim_space, count_chars, take_chars,
}
use ratchet_cli.AcpClient.Types.{
  SessionStatus, QueueStatus, PendingStatus, QueuedPrompt, SessionRecord, cancellation_latched,
  is_canceled, is_pending, is_running,
}
use ratchet_cli.AcpClient.Records.{Sessions, put_session, find_prompt, put_prompt}
use ratchet_cli.AcpClient.Normalize.{pending_id}
use ratchet_cli.AcpClient.Mutate.{
  StoreError, Mutation, changed, unchanged, refused, with_session, preserve_latch,
}

-- summarizeStoreText
unfoldable pub summarize_store_text : String → String
unfolding trim_space count_chars take_chars
summarize_store_text value =
    let text = trim_space value in if leb (count_chars text) 200 then text else take_chars 200 text

-- findQueuedPrompt and its error return
abbrev pub with_prompt : SessionRecord → String → (QueuedPrompt → Mutation) → Mutation
with_prompt rec queue_id body = elim (find_prompt rec.prompt_queue queue_id) [
  | none ↦ refused StoreError.prompt_not_found
  | some p ↦ body p
]

-- the transition of MarkQueueRunning
unfoldable pub mark_queue_running : String → String → ℕ → Sessions → Mutation
mark_queue_running id queue_id when ss = with_session ss id λ rec.
    if cancellation_latched rec.status
    then refused StoreError.cancel_requested
    else with_prompt rec queue_id λ p.
      if is_pending p.status
      then changed (
          put_session id
            (record rec {
              prompt_queue =
                  put_prompt queue_id
                    (record p { status = QueueStatus.running; started_at = some when })
                    rec.prompt_queue;
              status = SessionStatus.running;
              updated_at = when;
            })
            ss)
      else refused StoreError.not_pending

-- the `update` callback: the record and the prompt, after the change
abbrev pub Update : Type 0
Update = SessionRecord → QueuedPrompt → ℕ → SessionRecord × QueuedPrompt

-- the callback of MarkQueueCompletedWithEvents
unfoldable pub complete_prompt : String → String → Update
unfolding summarize_store_text
complete_prompt response stop_reason rec p at = (
  record rec {
    status = SessionStatus.completed;
    last_stop_reason = stop_reason;
    summary = summarize_store_text response;
    turns =
        rec.turns
        ++ record {
          prompt = summarize_store_text p.prompt;
          response = summarize_store_text response;
          stop_reason = stop_reason;
          created_at = at;
        }
          ∷ [];
  },
  record p {
    status = QueueStatus.completed;
    completed_at = some at;
    response = response;
    stop_reason = stop_reason;
  },
)

-- the callback of MarkQueueFailed
unfoldable pub fail_prompt : String → Update
unfolding summarize_store_text
fail_prompt message rec p at = (
  record rec { status = SessionStatus.completed; summary = summarize_store_text message },
  record p { status = QueueStatus.failed; completed_at = some at; error = message },
)

-- the transition of updateQueuedPromptWithEvents
unfoldable pub update_queued_prompt : String → String → ℕ → Bool → Update → Sessions → Mutation
unfolding preserve_latch
update_queued_prompt id queue_id when terminal update ss = with_session ss id λ rec.
    with_prompt rec queue_id λ p.
      if terminal && cancellation_latched rec.status
      then changed (
          put_session id
            (record rec {
              prompt_queue =
                  put_prompt queue_id
                    (record p { status = QueueStatus.canceled; canceled_at = some when })
                    rec.prompt_queue;
              status = SessionStatus.canceled;
              updated_at = when;
            })
            ss)
      else let (rec', p') = update rec p when in
        let written = record rec' { prompt_queue = put_prompt queue_id p' rec'.prompt_queue } in
        let latched = preserve_latch rec.status written in
        changed (put_session id (record latched { updated_at = when }) ss)

abbrev pub cancel_prompt : ℕ → QueuedPrompt → QueuedPrompt
cancel_prompt when p = record p { status = QueueStatus.canceled; canceled_at = some when }

-- the loop of CancelPendingQueue, at one prompt
unfoldable pub cancel_if_pending : ℕ → QueuedPrompt → QueuedPrompt
cancel_if_pending when p = if is_pending p.status then cancel_prompt when p else p

abbrev pub pending_count : List QueuedPrompt → ℕ
pending_count = count_if (λ p. is_pending p.status)

abbrev pub has_running : List QueuedPrompt → Bool
has_running = any (λ p. is_running p.status)

-- whether CancelPendingQueue turns a requested cancellation into a finished one
abbrev pub terminalized : SessionRecord → Bool
terminalized rec =
    cancellation_latched rec.status
    && not (has_running rec.prompt_queue)
    && not (is_canceled rec.status)

abbrev pub emptied_record : ℕ → SessionRecord → SessionRecord
emptied_record when rec =
    let status' = if terminalized rec then SessionStatus.canceled else rec.status in
    record rec {
      prompt_queue = map (cancel_if_pending when) rec.prompt_queue;
      status = if has_running rec.prompt_queue then status' else SessionStatus.canceled;
      updated_at = when;
    }

-- the transition of CancelPendingQueue; the count that it returns is `pending_count`
unfoldable pub cancel_pending_queue : String → ℕ → Sessions → Mutation
unfolding cancel_if_pending
cancel_pending_queue id when ss = with_session ss id λ rec.
    if eqb (pending_count rec.prompt_queue) 0 && not (terminalized rec)
    then unchanged
    else changed (put_session id (emptied_record when rec) ss)

abbrev pub is_active : QueueStatus → Bool
is_active s = is_running s || is_pending s

-- the loop of recoverRunningQueueItems, at one prompt
unfoldable pub recover_prompt : ℕ → Bool → QueuedPrompt → QueuedPrompt
recover_prompt when true p =
    if is_active p.status
    then record p { status = QueueStatus.canceled; canceled_at = some when; started_at = none }
    else p
recover_prompt when false p =
    if is_running p.status then record p { status = QueueStatus.pending; started_at = none } else p

-- the count of recoverRunningQueueItems
unfoldable pub recovered_count : Bool → List QueuedPrompt → ℕ
recovered_count latched =
    count_if (λ p. if latched then is_active p.status else is_running p.status)

abbrev pub recovered_record : ℕ → SessionRecord → SessionRecord
recovered_record when rec =
    let latched = cancellation_latched rec.status in
    record rec {
      prompt_queue = map (recover_prompt when latched) rec.prompt_queue;
      status = if latched then SessionStatus.canceled else SessionStatus.queued;
      updated_at = when;
    }

-- the transition of recoverRunningQueueItems; it also returns `recovered_count` and the latch
unfoldable pub recover_running_queue_items : String → ℕ → Sessions → Mutation
unfolding recover_prompt recovered_count
recover_running_queue_items id when ss = with_session ss id λ rec.
    let latched = cancellation_latched rec.status in
    if eqb (recovered_count latched rec.prompt_queue) 0 && not latched
    then unchanged
    else changed (put_session id (recovered_record when rec) ss)

module _ (store_key : String → String) where
  abbrev is_waiting : PendingStatus → Bool
  is_waiting PendingStatus.pending = true
  is_waiting _ = false

  -- the transition of MarkPendingCanceled
  unfoldable pub mark_pending_canceled : String → ℕ → Sessions → Mutation
  mark_pending_canceled id when ss = with_session ss id λ rec. elim rec.pending_prompt [
    | none ↦ refused StoreError.no_pending_prompt
    | some pending ↦
        if is_waiting pending.status
        then changed (
            put_session id
              (record rec {
                pending_prompt =
                    some
                      (record pending { status = PendingStatus.canceled; canceled_at = some when });
                prompt_queue =
                    map
                      (λ p.
                        if p.id == pending_id store_key pending then cancel_prompt when p else p)
                      rec.prompt_queue;
                status = SessionStatus.canceled;
                updated_at = when;
              })
              ss)
        else refused StoreError.no_pending_prompt
  ]
