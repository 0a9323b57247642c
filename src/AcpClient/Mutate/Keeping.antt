-- ===== src/AcpClient/Mutate/Keeping.antt =====
-- What a transition function keeps of the records.
use ratchet_cli.Base.{
  ℕ, ◌≤◌, ◌≡◌, refl, String, Bool, true, false, Option, none, some, [], ◌∷◌, ◌++◌, arith, ◌∙◌,
  eq_iff, Option-cases, inl, inr, if◌then◌else◌,
}
use ratchet_cli.AcpClient.Types.{SessionStatus, SessionRecord, QueuedPrompt}
use ratchet_cli.AcpClient.Records.{Sessions, find_session, put_session, find_prompt, IsUnique}
use ratchet_cli.AcpClient.Records.Laws.{
  find-put, find-append, find-id, IsUnique-put, IsUnique-append,
}
use ratchet_cli.AcpClient.Mutate.{
  StoreError, Mutation, changed, unchanged, refused, with_session, preserve_latch,
}
use ratchet_cli.AcpClient.Mutate.Queue.{with_prompt}

-- How far the cancellation of a session has gone.
abbrev pub status_rank : SessionStatus → ℕ
status_rank SessionStatus.cancel_requested = 2
status_rank SessionStatus.canceled = 3
status_rank _ = 1

-- 0 is an unknown session.
abbrev pub latch_rank : Option SessionRecord → ℕ
latch_rank none = 0
latch_rank (some rec) = status_rank rec.status

-- Ids stay unique, and no rank falls.
pub record Keeps (old new : Sessions) : Type 0 where
  pub unique : IsUnique new
  pub rank : (id : String) → latch_rank (find_session old id) ≤ latch_rank (find_session new id)

-- What a transition function returns keeps them.
pub data KeepsM (old : Sessions) : Mutation → Type 0 where
  changed_keeps : {new : Sessions} → Keeps old new → KeepsM old (changed new)
  unchanged_keeps : KeepsM old unchanged
  refused_keeps : {e : StoreError} → KeepsM old (refused e)

-- A write through the pointer to the record with an id.
pub put-Keeps :
    (id : String) (rec new : SessionRecord) (ss : Sessions)
    → find_session ss id ≡ some rec
    → new.id ≡ id
    → status_rank rec.status ≤ status_rank new.status
    → IsUnique ss
    → Keeps ss (put_session id new ss)
put-Keeps id rec new ss found h le u = record {
  unique = IsUnique-put id new ss h u;
  rank = λ j. ground (arith, found, find-put id j new ss h, eq_iff id j);
}

pub append-Keeps :
    (ss : Sessions) (rec : SessionRecord)
    → find_session ss rec.id ≡ none
    → IsUnique ss
    → Keeps ss (ss ++ rec ∷ [])
append-Keeps ss rec absent u = record {
  unique = IsUnique-append ss rec u absent;
  rank = λ j. ground (arith, find-append j ss rec);
}

pub preserve_latch-rank :
    (s : SessionStatus) (new : SessionRecord)
    → status_rank s ≤ status_rank (preserve_latch s new).status
unfolding preserve_latch
preserve_latch-rank s new = ground arith

pub preserve_latch-id :
    (s : SessionStatus) (new : SessionRecord) → (preserve_latch s new).id ≡ new.id
unfolding preserve_latch
preserve_latch-id s new = ground arith

pub KeepsM-if :
    (ss : Sessions) (b : Bool) (x y : Mutation)
    → KeepsM ss x
    → (b ≡ false → KeepsM ss y)
    → KeepsM ss (if b then x else y)
KeepsM-if ss true x y hx hy = hx
KeepsM-if ss false x y hx hy = hy refl

pub ruleset keeps_rules = (changed_keeps, unchanged_keeps, refused_keeps, KeepsM-if)

pub put_rule :
    (ss : Sessions) (id : String) (rec : SessionRecord)
    → find_session ss id ≡ some rec
    → IsUnique ss
    → (new : SessionRecord) → new.id ≡ rec.id
    → status_rank rec.status ≤ status_rank new.status
    → KeepsM ss (changed (put_session id new ss))
put_rule ss id rec e u new same le =
    changed_keeps (put-Keeps id rec new ss e (same ∙ find-id id ss e) le u)

pub with_session-KeepsM :
    (ss : Sessions) (id : String) (body : SessionRecord → Mutation)
    → ((rec : SessionRecord) → find_session ss id ≡ some rec → KeepsM ss (body rec))
    → KeepsM ss (with_session ss id body)
with_session-KeepsM ss id body h = elim (Option-cases (find_session ss id)) [
  | inl e ↦ rw (e, with_session) refused_keeps
  | inr (rec, e) ↦ rw (e, with_session) (h rec e)
]

pub with_prompt-KeepsM :
    (ss : Sessions) (rec : SessionRecord) (id : String) (body : QueuedPrompt → Mutation)
    → ((p : QueuedPrompt) → find_prompt rec.prompt_queue id ≡ some p → KeepsM ss (body p))
    → KeepsM ss (with_prompt rec id body)
with_prompt-KeepsM ss rec id body h = elim (Option-cases (find_prompt rec.prompt_queue id)) [
  | inl e ↦ rw (e, with_prompt) refused_keeps
  | inr (p, e) ↦ rw (e, with_prompt) (h p e)
]
