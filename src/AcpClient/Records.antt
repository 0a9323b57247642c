-- ===== src/AcpClient/Records.antt =====
-- The list of session records (`storeFile`) and the two searches of internal/acpclient/store.go.
-- A pointer into the list that is written through is `put_session` or `put_prompt`.
pub mod Laws
use ratchet_cli.Base.{
  String, Bool, true, false, Option, none, some, List, [], ◌∷◌, ◌≡◌, ◌==◌, if◌then◌else◌,
}
use ratchet_cli.AcpClient.Types.{SessionRecord, QueuedPrompt}

abbrev pub Sessions : Type 0
Sessions = List SessionRecord

-- findSessionRecord; `none` is ErrSessionNotFound
unfoldable pub find_session : Sessions → String → Option SessionRecord
find_session [] id = none
find_session (rec ∷ rest) id = if rec.id == id then some rec else find_session rest id

-- a write through the pointer that `findSessionRecord` returns
unfoldable pub put_session : String → SessionRecord → Sessions → Sessions
put_session id new [] = []
put_session id new (rec ∷ rest) = if rec.id == id then new ∷ rest else rec ∷ put_session id new rest

-- findQueuedPrompt; `none` is ErrQueuePromptNotFound
unfoldable pub find_prompt : List QueuedPrompt → String → Option QueuedPrompt
find_prompt [] id = none
find_prompt (p ∷ rest) id = if p.id == id then some p else find_prompt rest id

-- a write through the pointer that `findQueuedPrompt` returns
unfoldable pub put_prompt : String → QueuedPrompt → List QueuedPrompt → List QueuedPrompt
put_prompt id new [] = []
put_prompt id new (p ∷ rest) = if p.id == id then new ∷ rest else p ∷ put_prompt id new rest

abbrev pub is_found {ℓ} : {A : Type ℓ} → Option A → Bool
is_found none = false
is_found (some _) = true

-- No record has the id.
abbrev pub IsFresh : String → Sessions → Type 0
IsFresh id [] = Unit
IsFresh id (rec ∷ rest) = (rec.id == id ≡ false) × IsFresh id rest

-- No two records have one id.
abbrev pub IsUnique : Sessions → Type 0
IsUnique [] = Unit
IsUnique (rec ∷ rest) = IsFresh rec.id rest × IsUnique rest
