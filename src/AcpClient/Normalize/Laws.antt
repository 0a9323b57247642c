-- ===== src/AcpClient/Normalize/Laws.antt =====
-- What the repair keeps, and that repairing twice is repairing once.
use mathlib.Core.Option
use mathlib.Core.List.{map-append}
use ratchet_cli.Base.{
  ℕ, String, ◌≡◌, ◌≢◌, refl, true, Option, none, some, List, [], ◌∷◌, ◌++◌, map, arith, Bool-cases,
  inl, inr, ◌==◌, eq_refl, any,
}
use ratchet_cli.AcpClient.Types.{PendingPrompt, QueuedPrompt, SessionRecord, cancellation_latched}
use ratchet_cli.AcpClient.Records.{Sessions, find_session, IsFresh, IsUnique}
use ratchet_cli.AcpClient.Normalize.{
  or_time, normalize_prompt, pending_id, queued_of, append_pending, normalize_record,
  normalize_records,
}

module _ (store_key : String → String) where
  pub find-normalize_records :
      (now : ℕ) (ss : Sessions) (id : String)
      → find_session (normalize_records store_key now ss) id
        ≡ Option.map (normalize_record store_key now) (find_session ss id)
  unfolding find_session normalize_records
  find-normalize_records now [] id = refl
  find-normalize_records now (rec ∷ rest) id = ground (arith, find-normalize_records now rest id)

  IsFresh-normalize_records :
      (now : ℕ) (id : String) (ss : Sessions)
      → IsFresh id ss
      → IsFresh id (normalize_records store_key now ss)
  unfolding normalize_records
  IsFresh-normalize_records now id [] u = tt
  IsFresh-normalize_records now id (rec ∷ rest) u = (u.0, IsFresh-normalize_records now id rest u.1)

  pub IsUnique-normalize_records :
      (now : ℕ) (ss : Sessions) → IsUnique ss → IsUnique (normalize_records store_key now ss)
  unfolding normalize_records
  IsUnique-normalize_records now [] u = tt
  IsUnique-normalize_records now (rec ∷ rest) u =
      (IsFresh-normalize_records now rec.id rest u.0, IsUnique-normalize_records now rest u.1)

  pub latched-normalize_record :
      (now : ℕ) (rec : SessionRecord)
      → cancellation_latched (normalize_record store_key now rec).status
        ≡ cancellation_latched rec.status
  unfolding normalize_record
  latched-normalize_record now rec = ground arith

  normalize_prompts_idem :
      (t : ℕ) (ps : List QueuedPrompt)
      → map (normalize_prompt t) (map (normalize_prompt t) ps) ≡ map (normalize_prompt t) ps
  unfolding normalize_prompt
  normalize_prompts_idem t [] = refl
  normalize_prompts_idem t (p ∷ ps) = ground (arith, normalize_prompts_idem t ps)

  any-normalize_prompt :
      (t : ℕ) (id : String) (ps : List QueuedPrompt)
      → any (λ q. q.id == id) (map (normalize_prompt t) ps) ≡ any (λ q. q.id == id) ps
  unfolding normalize_prompt
  any-normalize_prompt t id [] = refl
  any-normalize_prompt t id (p ∷ ps) = ground (arith, any-normalize_prompt t id ps)

  any-queued_of :
      (p : PendingPrompt) (ps : List QueuedPrompt)
      → any (λ q. q.id == pending_id store_key p) (ps ++ queued_of store_key p ∷ []) ≡ true
  unfolding queued_of
  any-queued_of p [] = rw eq_refl
  any-queued_of p (q ∷ ps) = ground (arith, any-queued_of p ps)

  queued_of-normal :
      (t : ℕ) (p : PendingPrompt)
      → p.created_at ≢ 0
      → normalize_prompt t (queued_of store_key p) ≡ queued_of store_key p
  unfolding normalize_prompt queued_of
  queued_of-normal t p h = ground arith

  -- The pending prompt is queued once.
  append_pending_idem :
      (t : ℕ) (p : PendingPrompt) (ps : List QueuedPrompt)
      → p.created_at ≢ 0
      → let queue = append_pending store_key (some p) (map (normalize_prompt t) ps) in
        append_pending store_key (some p) (map (normalize_prompt t) queue) ≡ queue
  unfolding append_pending
  append_pending_idem t p ps h =
      elim (Bool-cases (any (λ q. q.id == pending_id store_key p) (map (normalize_prompt t) ps))) [
        | inl e ↦ simp (e, normalize_prompts_idem t ps)
        | inr e ↦ simp (
          e,
          map-append,
          normalize_prompts_idem t ps,
          queued_of-normal t p h,
          any-queued_of p (map (normalize_prompt t) ps),
        )
      ]

  append_idem :
      (t : ℕ) (o : Option PendingPrompt) (ps : List QueuedPrompt)
      → ((p : PendingPrompt) → o ≡ some p → p.created_at ≢ 0)
      → let queue = append_pending store_key o (map (normalize_prompt t) ps) in
        append_pending store_key o (map (normalize_prompt t) queue) ≡ queue
  append_idem t none ps h = unfold append_pending in normalize_prompts_idem t ps
  append_idem t (some p) ps h = append_pending_idem t p ps (h p refl)

  -- Repairing a repaired record, at any later time, changes nothing, where the pending prompt of the
  -- record, if it has one, has a creation time.
  pub normalize_record_idem :
      (now later : ℕ) (rec : SessionRecord)
      → now ≢ 0
      → ((p : PendingPrompt) → rec.pending_prompt ≡ some p → p.created_at ≢ 0)
      → normalize_record store_key later (normalize_record store_key now rec)
        ≡ normalize_record store_key now rec
  unfolding normalize_record
  normalize_record_idem now later rec h pend =
      ground
        (arith, append_idem (or_time rec.created_at now) rec.pending_prompt rec.prompt_queue pend)
