-- ===== src/AcpClient/Mutate/QueueLaws.antt =====
-- What the queue operations leave behind.
use ratchet_cli.Base.{
  ℕ, ◌+◌, ◌≡◌, refl, String, Bool, true, false, some, List, [], ◌∷◌, map, arith, length, length-map,
  if◌then◌else◌, count_if,
}
use ratchet_cli.AcpClient.Types.{
  SessionStatus, QueuedPrompt, SessionRecord, cancellation_latched, is_running,
}
use ratchet_cli.AcpClient.Records.{Sessions, find_session, put_session}
use ratchet_cli.AcpClient.Records.Laws.{find-put_self, find-id}
use ratchet_cli.AcpClient.Mutate.{changed}
use ratchet_cli.AcpClient.Mutate.Queue.{
  cancel_if_pending, pending_count, has_running, cancel_pending_queue, recover_prompt,
  recovered_record, emptied_record, recover_running_queue_items,
}

abbrev pub running_count : List QueuedPrompt → ℕ
running_count = count_if (λ p. is_running p.status)

cancel_all :
    (when : ℕ) (ps : List QueuedPrompt)
    → (pending_count (map (cancel_if_pending when) ps) ≡ 0)
      × (running_count (map (cancel_if_pending when) ps) ≡ running_count ps)
unfolding cancel_if_pending
cancel_all when [] = (refl, refl)
cancel_all when (p ∷ ps) = let (a, b) = cancel_all when ps in (ground (arith, a), ground (arith, b))

recover_all :
    (when : ℕ) (latched : Bool) (ps : List QueuedPrompt)
    → (running_count (map (recover_prompt when latched) ps) ≡ 0)
      × (pending_count (map (recover_prompt when latched) ps)
          ≡ (if latched then 0 else pending_count ps + running_count ps))
unfolding recover_prompt
recover_all when true [] = (refl, refl)
recover_all when false [] = (refl, refl)
recover_all when true (p ∷ ps) =
    let (a, b) = recover_all when true ps in (ground (arith, a), ground (arith, b))
recover_all when false (p ∷ ps) =
    let (a, b) = recover_all when false ps in (ground (arith, a), ground (arith, b))

-- After a recovery that changed something the session's queue has no running prompt and as many
-- prompts as before. If its cancellation was requested, no prompt is pending either and the session
-- is canceled; if not, every prompt that was running is pending again and the session is queued.
pub recovered_queue :
    (ss ss' : Sessions) (id : String) (when : ℕ) (rec : SessionRecord)
    → find_session ss id ≡ some rec
    → recover_running_queue_items id when ss ≡ changed ss'
    → (rec' : SessionRecord) × (find_session ss' id ≡ some rec')
      × (length rec'.prompt_queue ≡ length rec.prompt_queue)
      × (running_count rec'.prompt_queue ≡ 0)
      × (pending_count rec'.prompt_queue ≡ (
          if cancellation_latched rec.status
          then 0
          else pending_count rec.prompt_queue + running_count rec.prompt_queue))
      × (rec'.status ≡ (
          if cancellation_latched rec.status then SessionStatus.canceled else SessionStatus.queued))
unfolding recover_running_queue_items
recovered_queue ss ss' id when rec found h =
    let new = recovered_record when rec in
    let written : changed (put_session id new ss) ≡ changed ss' = ground (arith, found, h) in
    let (none_running, pending) =
      recover_all when (cancellation_latched rec.status) rec.prompt_queue in
    (
      new,
      cc (written, find-put_self id new rec ss (find-id id ss found) found),
      length-map (recover_prompt when (cancellation_latched rec.status)) rec.prompt_queue,
      none_running,
      pending,
      refl,
    )

-- After CancelPendingQueue changed something the session's queue has no pending prompt, as many
-- running ones and as many prompts as before; without a running prompt the session is canceled, and
-- with one its status is what it was.
pub emptied_queue :
    (ss ss' : Sessions) (id : String) (when : ℕ) (rec : SessionRecord)
    → find_session ss id ≡ some rec
    → cancel_pending_queue id when ss ≡ changed ss'
    → (rec' : SessionRecord) × (find_session ss' id ≡ some rec')
      × (length rec'.prompt_queue ≡ length rec.prompt_queue)
      × (pending_count rec'.prompt_queue ≡ 0)
      × (running_count rec'.prompt_queue ≡ running_count rec.prompt_queue)
      × (rec'.status
          ≡ (if has_running rec.prompt_queue then rec.status else SessionStatus.canceled))
unfolding cancel_pending_queue
emptied_queue ss ss' id when rec found h =
    let new = emptied_record when rec in
    let written : changed (put_session id new ss) ≡ changed ss' = ground (arith, found, h) in
    let (none_pending, running) = cancel_all when rec.prompt_queue in
    (
      new,
      cc (written, find-put_self id new rec ss (find-id id ss found) found),
      length-map (cancel_if_pending when) rec.prompt_queue,
      none_pending,
      running,
      ground arith,
    )
