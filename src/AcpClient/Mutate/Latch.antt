-- ===== src/AcpClient/Mutate/Latch.antt =====
-- No transition function loses a record, makes an id occur twice, or releases a cancellation.
use ratchet_cli.Base.{
  ℕ, ◌≤◌, ◌≡◌, refl, String, Bool, false, Option, some, arith, ◌∙◌, Option-cases, inl, inr,
}
use ratchet_cli.AcpClient.Types.{
  SessionStatus, SessionRecord, QueuedPrompt, TurnSummary, cancellation_latched,
}
use ratchet_cli.AcpClient.Records.{Sessions, find_session, put_session, IsUnique}
use ratchet_cli.AcpClient.Records.Laws.{find-id}
use ratchet_cli.AcpClient.Mutate.{preserve_latch}
use ratchet_cli.AcpClient.Mutate.Session
use ratchet_cli.AcpClient.Mutate.Session.{stamp, enqueue, lifecycle_record, merge_session_metadata}
use ratchet_cli.AcpClient.Mutate.Queue
use ratchet_cli.AcpClient.Mutate.Queue.{Update, with_prompt}
use ratchet_cli.AcpClient.Mutate.Keeping.{
  status_rank, Keeps, KeepsM, changed_keeps, refused_keeps, put-Keeps, append-Keeps,
  preserve_latch-rank, preserve_latch-id, KeepsM-if, keeps_rules, put_rule, with_session-KeepsM,
  with_prompt-KeepsM,
}

lifecycle-put :
    (ss : Sessions) (now : ℕ) (rec : SessionRecord) (turn : Option TurnSummary)
    (old : SessionRecord)
    → find_session ss rec.id ≡ some old
    → IsUnique ss
    → Keeps ss (put_session rec.id (lifecycle_record now rec turn old) ss)
unfolding lifecycle_record
lifecycle-put ss now rec turn old e u =
    put-Keeps rec.id old _ ss e (preserve_latch-id old.status _) (preserve_latch-rank old.status _)
      u

ranks_of_unlatched : (s : SessionStatus) → cancellation_latched s ≡ false → status_rank s ≤ 1
ranks_of_unlatched s h = ground arith

merge-put :
    (ss : Sessions) (rec old : SessionRecord) (prompt : QueuedPrompt)
    → find_session ss rec.id ≡ some old
    → cancellation_latched old.status ≡ false
    → IsUnique ss
    → Keeps ss (put_session rec.id (enqueue prompt (merge_session_metadata old rec)) ss)
unfolding merge_session_metadata
merge-put ss rec old prompt e h u =
    put-Keeps rec.id old _ ss e (find-id rec.id ss e) (ground arith) u

module _ (ss : Sessions) (u : IsUnique ss) where
  pub insert-Keeps :
      (now : ℕ) (rec : SessionRecord) → KeepsM ss (Session.insert_session_record now rec ss)
  unfolding Session.insert_session_record
  insert-Keeps now rec = elim (Option-cases (find_session ss rec.id)) [
    | inl e ↦
        rw (e, Session.insert_session_record) (changed_keeps (append-Keeps ss (stamp now rec) e u))
    | inr (old, e) ↦ rw (e, Session.insert_session_record) refused_keeps
  ]

  pub upsert-Keeps : (now : ℕ) (rec : SessionRecord) → KeepsM ss (Session.upsert now rec ss)
  unfolding Session.upsert
  upsert-Keeps now rec = elim (Option-cases (find_session ss rec.id)) [
    | inl e ↦ rw (e, Session.upsert) (changed_keeps (append-Keeps ss (stamp now rec) e u))
    | inr (old, e) ↦
        rw (e, Session.upsert)
          (changed_keeps (
            put-Keeps rec.id old _ ss e (preserve_latch-id old.status _)
              (preserve_latch-rank old.status _) u))
  ]

  pub lifecycle-Keeps :
      (now : ℕ) (rec : SessionRecord) (turn : Option TurnSummary) (terminal : Bool)
      → KeepsM ss (Session.update_session_lifecycle_record now rec turn terminal ss)
  unfolding Session.update_session_lifecycle_record
  lifecycle-Keeps now rec turn terminal = elim (Option-cases (find_session ss rec.id)) [
    | inl e ↦
        rw (e, Session.update_session_lifecycle_record) (changed_keeps (append-Keeps ss _ e u))
    | inr (old, e) ↦
        rw (e, Session.update_session_lifecycle_record)
          (search (keeps_rules, lifecycle-put ss now rec turn old e u))
  ]

  pub append_prompt-Keeps :
      (rec : SessionRecord) (prompt : QueuedPrompt)
      → KeepsM ss (Session.append_queued_prompt rec prompt ss)
  unfolding Session.append_queued_prompt
  append_prompt-Keeps rec prompt = elim (Option-cases (find_session ss rec.id)) [
    | inl e ↦ rw (e, Session.append_queued_prompt) (search (keeps_rules, append-Keeps ss _ e u))
    | inr (old, e) ↦
        rw (e, Session.append_queued_prompt)
          (search (
            keeps_rules,
            λ (h : cancellation_latched old.status ≡ false). merge-put ss rec old prompt e h u,
          ))
  ]

  pub request_cancel-Keeps : (id : String) (at : ℕ) → KeepsM ss (Session.request_cancel id at ss)
  unfolding Session.request_cancel
  request_cancel-Keeps id at = elim (Option-cases (find_session ss id)) [
    | inl e ↦ rw (e, Session.request_cancel) (changed_keeps (append-Keeps ss _ e u))
    | inr (old, e) ↦
        rw (e, Session.request_cancel)
          (changed_keeps (put-Keeps id old _ ss e (find-id id ss e) (ground arith) u))
  ]

  pub set_acp-Keeps : (id acp : String) → KeepsM ss (Session.set_acp_session_id id acp ss)
  unfolding Session.set_acp_session_id
  set_acp-Keeps id acp =
      with_session-KeepsM ss id _ λ old e. search (keeps_rules, put_rule ss id old e u, arith)

  pub mark_running-Keeps :
      (id queue_id : String) (when : ℕ) → KeepsM ss (Queue.mark_queue_running id queue_id when ss)
  unfolding Queue.mark_queue_running
  mark_running-Keeps id queue_id when = with_session-KeepsM ss id _ λ old e.
      KeepsM-if ss _ _ _ refused_keeps λ (h : cancellation_latched old.status ≡ false).
        with_prompt-KeepsM ss old queue_id _
          λ p f. search (keeps_rules, put_rule ss id old e u, ranks_of_unlatched old.status h)

  pub cancel_pending-Keeps :
      (id : String) (when : ℕ) → KeepsM ss (Queue.cancel_pending_queue id when ss)
  unfolding Queue.cancel_pending_queue
  cancel_pending-Keeps id when =
      with_session-KeepsM ss id _ λ old e. search (keeps_rules, put_rule ss id old e u, arith)

  pub recover-Keeps :
      (id : String) (when : ℕ) → KeepsM ss (Queue.recover_running_queue_items id when ss)
  unfolding Queue.recover_running_queue_items
  recover-Keeps id when =
      with_session-KeepsM ss id _ λ old e. search (keeps_rules, put_rule ss id old e u, arith)

  pub mark_pending_canceled-Keeps :
      (store_key : String → String) (id : String) (when : ℕ)
      → KeepsM ss (Queue.mark_pending_canceled store_key id when ss)
  unfolding Queue.mark_pending_canceled
  mark_pending_canceled-Keeps store_key id when = with_session-KeepsM ss id _ λ old e.
      elim (Option-cases old.pending_prompt) [
        | inl f ↦ rw f refused_keeps
        | inr (p, f) ↦ rw f (search (keeps_rules, put_rule ss id old e u, arith))
      ]

-- A callback that leaves the record's id alone.
pub record KeepsId (update : Update) : Type 0 where
  pub same_id : (rec : SessionRecord) (p : QueuedPrompt) (at : ℕ) → (update rec p at).0.id ≡ rec.id

pub complete-KeepsId :
    (response stop_reason : String) → KeepsId (Queue.complete_prompt response stop_reason)
unfolding Queue.complete_prompt
complete-KeepsId response stop_reason = record { same_id = λ rec p at. refl }

pub fail-KeepsId : (message : String) → KeepsId (Queue.fail_prompt message)
unfolding Queue.fail_prompt
fail-KeepsId message = record { same_id = λ rec p at. refl }

update_put :
    (ss : Sessions) (id : String) (old written : SessionRecord) (when : ℕ)
    → find_session ss id ≡ some old
    → IsUnique ss
    → written.id ≡ old.id
    → Keeps ss
        (put_session id (record (preserve_latch old.status written) { updated_at = when }) ss)
update_put ss id old written when e u same =
    put-Keeps id old (record (preserve_latch old.status written) { updated_at = when }) ss e
      (preserve_latch-id old.status written ∙ same ∙ find-id id ss e)
      (preserve_latch-rank old.status written) u

pub update_queued_prompt-Keeps :
    (ss : Sessions) (id queue_id : String) (when : ℕ) (terminal : Bool) (update : Update)
    → IsUnique ss
    → KeepsId update
    → KeepsM ss (Queue.update_queued_prompt id queue_id when terminal update ss)
unfolding Queue.update_queued_prompt
update_queued_prompt-Keeps ss id queue_id when terminal update u keep =
    with_session-KeepsM ss id _ λ old e.
      with_prompt-KeepsM ss old queue_id _
        λ p f. search (keeps_rules, put_rule ss id old e u, update_put, keep.same_id, arith)
