-- ===== src/AcpClient/Store/Runs.antt =====
-- Runs: any of the store's operations, one after the other.
use ratchet_cli.Base.{ℕ, String, List, [], ◌∷◌}
use ratchet_cli.AcpClient.Types.{TurnSummary, QueuedPrompt, SessionRecord}
use ratchet_cli.AcpClient.EventLog.{EventLine}
use ratchet_cli.AcpClient.Store.{Runtime, World, Env, Outcome, create_session_with_events}
use ratchet_cli.AcpClient.Store.Ops

-- The operations that change state; `import_session` is what ImportSession does to the store.
pub data Op : Type 0 where
  upsert : SessionRecord → Op
  insert_session : SessionRecord → Op
  import_session : SessionRecord → List EventLine → Op
  mark_session_started : SessionRecord → Op
  mark_session_completed : SessionRecord → TurnSummary → List EventLine → Op
  append_queued_prompt : SessionRecord → QueuedPrompt → Op
  mark_queue_running : String → String → ℕ → Op
  mark_queue_completed : String → String → String → String → List EventLine → ℕ → Op
  mark_queue_failed : String → String → String → ℕ → Op
  cancel_pending_queue : String → ℕ → Op
  recover_running_queue_items : String → ℕ → Op
  mark_pending_canceled : String → ℕ → Op
  request_cancel : String → ℕ → Op
  set_acp_session_id : String → String → Op

unfoldable pub perform : Runtime → Env → Op → World → Outcome × World
perform rt env (upsert a) w = Ops.upsert rt env a w
perform rt env (insert_session a) w = Ops.insert_session rt env a w
perform rt env (import_session a b) w = create_session_with_events rt env a b w
perform rt env (mark_session_started a) w = Ops.mark_session_started rt env a w
perform rt env (mark_session_completed a b c) w = Ops.mark_session_completed rt env a b c w
perform rt env (append_queued_prompt a b) w = Ops.append_queued_prompt rt env a b w
perform rt env (mark_queue_running a b c) w = Ops.mark_queue_running rt env a b c w
perform rt env (mark_queue_completed a b c d e f) w = Ops.mark_queue_completed rt env a b c d e f w
perform rt env (mark_queue_failed a b c d) w = Ops.mark_queue_failed rt env a b c d w
perform rt env (cancel_pending_queue a b) w = Ops.cancel_pending_queue rt env a b w
perform rt env (recover_running_queue_items a b) w = Ops.recover_running_queue_items rt env a b w
perform rt env (mark_pending_canceled a b) w = Ops.mark_pending_canceled rt env a b w
perform rt env (request_cancel a b) w = Ops.request_cancel rt env a b w
perform rt env (set_acp_session_id a b) w = Ops.set_acp_session_id rt env a b w

-- each operation with what the environment answers to it
abbrev pub run_ops : Runtime → List (Env × Op) → World → World
run_ops rt [] w = w
run_ops rt ((env, op) ∷ rest) w = run_ops rt rest (perform rt env op w).1
