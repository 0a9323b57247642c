-- ===== src/AcpClient/Store.antt =====
-- The durable state of internal/acpclient and its transaction (store.go, eventlog.go).
-- Every operation runs under the store's lock, so a run is a sequence of whole operations. What the
-- file system answers is an argument.
pub mod Ops
pub mod Runs
pub mod Latch
pub mod Reconcile
pub mod Atomic
use ratchet_cli.Base.{
  ℕ, ◌≡◌, String, Bool, true, false, Option, none, some, List, [], ◌∷◌, ◌++◌, ◌==◌, not, is_blank,
  trim_space, if◌then◌else◌,
}
use mathlib.Core.List.{Perm}
use ratchet_cli.AcpClient.Records.{Sessions}
use ratchet_cli.AcpClient.Normalize.{normalize_records}
use ratchet_cli.AcpClient.Mutate.{StoreError, Mutation, changed, unchanged, refused}
use ratchet_cli.AcpClient.Mutate.Session.{insert_session_record}
use ratchet_cli.AcpClient.Types.{SessionRecord}
use ratchet_cli.AcpClient.EventLog.{EventLine, next_seq, encode_event_log}

-- What the operations call that is not modelled by a definition.
pub record Runtime : Type 0 where
  pub store_key : String → String  -- base64 of an id
  pub new_queue_id : String → ℕ → String  -- a fresh id from a prompt and a time
  pub valid_message : String → Bool  -- ValidateJSONRPCMessage
  pub sort_records : Sessions → Sessions  -- slices.SortFunc on UpdatedAt, which is not stable
  pub sort_perm : (ss : Sessions) → Perm ss (sort_records ss)

-- The session file, the event log files and the cancel request files. `none` is a missing file.
pub record World : Type 0 where
  pub sessions : Sessions
  pub logs : String → Option (List EventLine)
  pub cancels : String → Option ℕ

-- An atomic write returns nil, an error before the file is replaced, or an error after it.
pub data Write : Type 0 where
  committed failed unconfirmed : Write

-- What the environment answers during one operation: the locks and their release, the reads and the writes, and the
-- times that the two repairs and the encoding read.
pub record Env : Type 0 where
  pub lock : Bool
  pub unlock : Bool  -- the release of the store's lock
  pub load : Bool
  pub log_lock : Bool
  pub log_unlock : Bool
  pub log_read : Bool
  pub log_write : Write
  pub save : Write
  pub restore : Write
  pub cancel_write : Write
  pub now : ℕ
  pub loaded_at : ℕ
  pub saved_at : ℕ

pub data Outcome : Type 0 where
  done : Outcome
  fault : StoreError → Outcome

-- `err = errors.Join(err, release())`. A release that fails after another error leaves that one in it.
unfoldable pub release_outcome : Bool → Outcome → Outcome
release_outcome true o = o
release_outcome false done = fault StoreError.release_failed
release_outcome false (fault e) = fault e

-- what withStoreProcessLock and withEventLogLock return of an operation under their lock
unfoldable pub released : Bool → Outcome × World → Outcome × World
unfolding release_outcome
released ok r = (release_outcome ok r.0, r.1)

abbrev pub set_at {ℓ} : {V : Type ℓ} → String → V → (String → V) → String → V
set_at k v f j = if k == j then v else f j

-- the files after an atomic write
abbrev pub written : Write → World → World → World
written Write.failed old new = old
written _ old new = new

abbrev is_confirmed : Write → Bool
is_confirmed Write.committed = true
is_confirmed _ = false

-- `afterCommit`: nothing, or the cancel request file of a session
pub data AfterCommit : Type 0 where
  nothing : AfterCommit
  cancel_file : String → ℕ → AfterCommit

abbrev after_write : Env → AfterCommit → Write
after_write env nothing = Write.committed
after_write env (cancel_file id at) = env.cancel_write

abbrev after_world : Env → AfterCommit → World → World
after_world env nothing w = w
after_world env (cancel_file id at) w =
    written env.cancel_write w (record w { cancels = set_at id (some at) w.cancels })

-- `if confirmationErr != nil { return storeCommitUnconfirmed(…) }; return nil`
abbrev confirm : Write → Write → Write → Outcome
confirm Write.committed Write.committed Write.committed = done
confirm _ _ _ = fault StoreError.commit_unconfirmed

module _ (rt : Runtime) where
  open rt use {store_key, valid_message, sort_records}

  -- saveUnlocked
  unfoldable pub saved : Env → Sessions → World → World
  unfolding normalize_records
  saved env ss w =
      written env.save w
        (record w { sessions = sort_records (normalize_records store_key env.saved_at ss) })

  -- the branch of transitionSession without events
  unfoldable pub commit_plain : Env → AfterCommit → Sessions → World → Outcome × World
  unfolding saved
  commit_plain env after ss w = elim env.save [
    | Write.failed ↦ (fault StoreError.write_failed, w)
    | _ ↦ (
      confirm Write.committed env.save (after_write env after),
      after_world env after (saved env ss w),
    )
  ]

  abbrev pub or_empty : Option (List EventLine) → List EventLine
  or_empty none = []
  or_empty (some log) = log

  -- restoreEventLogSnapshot after a failed save, given the files with the new log
  abbrev restored : Env → String → World → World → World
  restored env id old new =
      written env.restore new (record new { logs = set_at id (old.logs id) new.logs })

  -- the save and what follows it, once the event log is written
  unfoldable pub commit_logged :
      Env → AfterCommit → String → Sessions → World → World → Outcome × World
  unfolding saved
  commit_logged env after id ss old w = elim env.save [
    | Write.failed ↦ (fault StoreError.write_failed, restored env id old w)
    | _ ↦ (
      confirm env.log_write env.save (after_write env after),
      after_world env after (saved env ss w),
    )
  ]

  -- the branch of transitionSession with events, in withEventLogLock
  unfoldable pub commit_events :
      Env → AfterCommit → String → List EventLine → Sessions → World → Outcome × World
  unfolding commit_logged next_seq encode_event_log trim_space is_blank released
  commit_events env after id events ss w =
      let name = trim_space id in
      let log = or_empty (w.logs name) in
      let logged =
        λ (lines : List EventLine). record w { logs = set_at name (some (log ++ lines)) w.logs } in
      if is_blank id
      then (fault StoreError.id_required, w)
      else if not env.log_lock
      then (fault StoreError.lock_failed, w)
      else released env.log_unlock (
          if not env.log_read
          then (fault StoreError.log_unreadable, w)
          else elim (encode_event_log valid_message env.now events (next_seq log)) [
            | none ↦ (fault StoreError.invalid_message, w)
            | some lines ↦ elim env.log_write [
              | Write.failed ↦ (fault StoreError.write_failed, w)
              | _ ↦ commit_logged env after name ss w (logged lines)
            ]
          ])

  abbrev commit : Env → AfterCommit → String → List EventLine → Sessions → World → Outcome × World
  commit env after id [] ss w = commit_plain env after ss w
  commit env after id (e ∷ es) ss w = commit_events env after id (e ∷ es) ss w

  -- what transitionSession does with the result of `mutate`
  unfoldable pub finish :
      Env → AfterCommit → String → List EventLine → Mutation → World → Outcome × World
  unfolding commit_plain commit_events
  finish env after id events (refused e) w = (fault e, w)
  finish env after id events unchanged w = (done, w)
  finish env after id events (changed ss) w = commit env after id events ss w

  -- transitionSession
  unfoldable pub transition_session :
      Env → AfterCommit → String → List EventLine → (Sessions → Mutation) → World → Outcome × World
  unfolding finish normalize_records released
  transition_session env after id events mutate w =
      if not env.lock
      then (fault StoreError.lock_failed, w)
      else released env.unlock (
          if not env.load
          then (fault StoreError.load_failed, w)
          else finish env after id events
              (mutate (normalize_records store_key env.loaded_at w.sessions)) w)

  -- the file of a new session's events: removed when there are none
  abbrev new_log : List EventLine → Option (List EventLine)
  new_log [] = none
  new_log (e ∷ es) = some (e ∷ es)

  -- the part of createSessionWithEvents under the two locks, for encoded events
  unfoldable pub create_logged : Env → String → List EventLine → Sessions → World → Outcome × World
  unfolding commit_logged trim_space released
  create_logged env id lines ss w =
      let name = trim_space id in
      let logged = record w { logs = set_at name (new_log lines) w.logs } in
      if not env.log_lock
      then (fault StoreError.lock_failed, w)
      else released env.log_unlock (
          if not env.log_read then (fault StoreError.log_unreadable, w) else elim env.log_write [
            | Write.failed ↦ (fault StoreError.write_failed, w)
            | _ ↦ commit_logged env nothing name ss w logged
          ])

  unfoldable pub finish_create : Env → String → List EventLine → Mutation → World → Outcome × World
  unfolding create_logged
  finish_create env id lines (refused e) w = (fault e, w)
  finish_create env id lines unchanged w = (done, w)
  finish_create env id lines (changed ss) w = create_logged env id lines ss w

  -- createSessionWithEvents, from the lock on
  unfoldable pub create_session : Env → SessionRecord → List EventLine → World → Outcome × World
  unfolding finish_create insert_session_record normalize_records released
  create_session env rec lines w =
      if not env.lock
      then (fault StoreError.lock_failed, w)
      else released env.unlock (
          if not env.load
          then (fault StoreError.load_failed, w)
          else finish_create env rec.id lines
              (insert_session_record env.now rec
                (normalize_records store_key env.loaded_at w.sessions))
              w)

  -- createSessionWithEvents
  unfoldable pub create_session_with_events :
      Env → SessionRecord → List EventLine → World → Outcome × World
  unfolding create_session encode_event_log is_blank
  create_session_with_events env rec events w =
      if is_blank rec.id
      then (fault StoreError.id_required, w)
      else elim (encode_event_log valid_message env.now events 1) [
        | none ↦ (fault StoreError.invalid_message, w)
        | some lines ↦ create_session env rec lines w
      ]
