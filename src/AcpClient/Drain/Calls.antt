-- ===== src/AcpClient/Drain/Calls.antt =====
-- The calls that the drain makes of the store, with what other processes do before each.
use ratchet_cli.Base.{
  ℕ, ◌+◌, String, Bool, true, false, not, Option, none, some, List, [], ◌∷◌, if◌then◌else◌,
}
use ratchet_cli.AcpClient.Types.{SessionRecord, cancellation_latched}
use ratchet_cli.AcpClient.Mutate.{StoreError}
use ratchet_cli.AcpClient.Mutate.Queue.{recovered_count, pending_count}
use ratchet_cli.AcpClient.EventLog.{EventLine}
use ratchet_cli.AcpClient.Store.{Runtime, World, Env, Outcome, done, fault}
use ratchet_cli.AcpClient.Store.Ops
use ratchet_cli.AcpClient.Store.Ops.{first_pending}
use ratchet_cli.AcpClient.Store.Runs.{Op, perform, run_ops}

pub record Turn : Type 0 where
  pub others : List (Env × Op)
  pub env : Env
  pub at : ℕ  -- `drainOpts.now()`

pub data DrainError : Type 0 where
  store_error : StoreError → DrainError
  prompt_error : String → DrainError
  callback_error start_error admission_error close_error session_id_required drain_busy lease_error
        release_error :
      DrainError

pub record DrainResult : Type 0 where
  pub session_id : String
  pub acp_session_id : String
  pub processed : ℕ
  pub completed : ℕ
  pub failed : ℕ
  pub canceled : ℕ
  pub remaining : ℕ

-- drainCancelRequested: what the callback answers, where none is `some false`, and the store's turn
pub record Check : Type 0 where
  pub callback : Option Bool
  pub turn : Turn

-- the lock of withLaunchAdmission: taken, not taken, or taken and not released
pub data Admission : Type 0 where
  admitted refused unreleased : Admission

-- StartRunner; it fails with ErrCancelRequested or with another error
pub data StartReply : Type 0 where
  started : String → StartReply
  start_canceled start_failed : StartReply

pub data Reply : Type 0 where
  prompt_failed : String → Reply
  prompted : String → String → String → List EventLine → Reply  -- session, text, stop reason

pub record Round : Type 0 where
  pub first : Check
  pub next : Turn
  pub second : Check
  pub cancel : Turn
  pub running : Turn
  pub admission : Admission
  pub launch : Turn
  pub start : StartReply
  pub recover : Turn
  pub set_acp : Turn
  pub reply : Reply
  pub mark : Turn
  pub count : Turn

-- what the function has at one point: the files, the result and whether there is a runner
pub record Loop : Type 0 where
  pub world : World
  pub result : DrainResult
  pub runner : Bool

-- An iteration goes on, breaks, or returns with errors.
pub data Next : Type 0 where
  goes_on breaks : Loop → Next
  returns : Loop → List DrainError → Next

abbrev pub errors_of : Outcome → List DrainError
errors_of done = []
errors_of (fault e) = store_error e ∷ []

-- what a read of the store answers
pub data Read {ℓ} (A : Type ℓ) : Type ℓ where
  answer : A → Read A
  failure : DrainError → Read A

abbrev pub add_canceled : ℕ → DrainResult → DrainResult
add_canceled n r = record r { canceled = r.canceled + n }

module _ (rt : Runtime) where
  -- the files when a turn's operation begins
  unfoldable pub before : Turn → World → World
  before t w = run_ops rt t.others w

  -- an operation of the store, and the error that it returns
  unfoldable pub act : Turn → Op → World → World × Outcome
  unfolding before perform
  act t op w = let (o, w') = perform rt t.env op (before t w) in (w', o)

  -- Store.Get
  unfoldable pub get_session : Turn → String → World → Read SessionRecord
  unfolding before Ops.get
  get_session t id w =
      if not t.env.lock
      then failure (store_error StoreError.lock_failed)
      else if not t.env.load
      then failure (store_error StoreError.load_failed)
      else elim (Ops.get rt t.env.loaded_at (before t w) id) [
        | none ↦ failure (store_error StoreError.session_not_found)
        | some rec ↦
            if t.env.unlock then answer rec else failure (store_error StoreError.release_failed)
      ]

  -- countPendingQueue
  unfoldable pub count_pending_queue : Turn → String → World → ℕ
  unfolding get_session
  count_pending_queue t id w = elim (get_session t id w) [
    | failure e ↦ 0
    | answer rec ↦ pending_count rec.prompt_queue
  ]

  -- drainCancelRequested
  unfoldable pub drain_cancel_requested : Check → String → World → Read Bool
  unfolding get_session
  drain_cancel_requested c id w = elim c.callback [
    | none ↦ failure callback_error
    | some true ↦ answer true
    | some false ↦ elim (get_session c.turn id w) [
      | failure e ↦ failure e
      | answer rec ↦ answer (cancellation_latched rec.status)
    ]
  ]

  -- the files after drainCancelRequested, which reads the store only if the callback says no
  abbrev pub checked : Check → World → World
  checked c w = elim c.callback [ some false ↦ before c.turn w | _ ↦ w ]

  -- recoverRunningQueueItems: its error, and the canceled prompts if the cancellation is latched
  unfoldable pub recovered : Turn → String → World → World × Outcome
  unfolding act
  recovered t id w = act t (Op.recover_running_queue_items id t.at) w

  unfoldable pub recovered_canceled : Turn → String → World → ℕ
  unfolding get_session recovered_count
  recovered_canceled t id w = elim (get_session t id w) [
    | failure e ↦ 0
    | answer rec ↦
        if cancellation_latched rec.status then recovered_count true rec.prompt_queue else 0
  ]
