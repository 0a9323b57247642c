-- ===== src/AcpClient/Background/Leases.antt =====
-- The lease of one session in internal/acpclient/background.go: the file lock that all managers on the
-- store share, and what the maps of each manager hold for that session. A process may have several
-- managers; the lock excludes them as it excludes other processes. A call of the code is cut into
-- steps where it unlocks the mutex, waits on a channel or writes to the disk.
use ratchet_cli.Base.{
  ℕ, zero, suc, ◌+◌, ◌-◌, Bool, true, false, not, Option, none, some, List, [], ◌∷◌, ◌++◌, eqb,
  length, if◌then◌else◌,
}

-- How far workerDone is. The flag of the last three says whether the worker owns the transition.
pub data WorkerPhase : Type 0 where
  watching : WorkerPhase
  awaiting : ℕ → WorkerPhase  -- it reads the channel of a stop owner
  persisting releasing closing : Bool → WorkerPhase
  returning finished : WorkerPhase

-- a backgroundWorker; `lease` says whether its releaseLease is set
pub record BackgroundWorker : Type 0 where
  pub lease : Bool
  pub phase : WorkerPhase

-- The entries of one BackgroundManager for the session, and its workers by number. A stop owner is a
-- number too, and `sent` has what went into the channels of the owners.
pub record Entries : Type 0 where
  pub closed : Bool
  pub active : Option ℕ
  pub reserved : Bool  -- transitions
  pub transition_lease : Bool
  pub stopping : Option ℕ
  pub next_owner : ℕ
  pub sent : List (ℕ × Bool)
  pub workers : List BackgroundWorker
  pub holders : ℕ  -- calls between a reserveTransition and the end of their transition

abbrev pub new_entries : Entries
new_entries = record {
  closed = false;
  active = none;
  reserved = false;
  transition_lease = false;
  stopping = none;
  next_owner = 0;
  sent = [];
  workers = [];
  holders = 0;
}

-- One manager's entries, and whether the lease file is locked.
pub record View : Type 0 where
  pub locked : Bool
  pub entries : Entries

pub data LeaseError : Type 0 where
  manager_closed transition_busy lock_error : LeaseError

-- tryStoreFileLock; the flag says whether the file can be opened and locked at all
unfoldable pub try_lease : Bool → Bool → Option LeaseError
try_lease usable locked =
    if not usable then some lock_error else if locked then some transition_busy else none

-- reserveTransition
unfoldable pub reserve_transition : Bool → View → View × Option LeaseError
unfolding try_lease
reserve_transition usable v =
    let m = v.entries in
    if m.closed
    then (v, some manager_closed)
    else if m.reserved
    then (v, some transition_busy)
    else elim (try_lease usable v.locked) [
      | some e ↦ (v, some e)
      | none ↦ (
        record {
          locked = true;
          entries = record m { reserved = true; transition_lease = true; holders = m.holders + 1 };
        },
        none,
      )
    ]

-- releaseTransition
unfoldable pub release_transition : View → View
release_transition v =
    let m = v.entries in
    record {
      locked = if m.transition_lease then false else v.locked;
      entries = record m { reserved = false; transition_lease = false; holders = m.holders - 1 };
    }

-- launchLocked
unfoldable pub launch_locked : View → View
launch_locked v =
    let m = v.entries in
    record v {
      entries = record m {
        active = some (length m.workers);
        reserved = false;
        transition_lease = false;
        workers = m.workers ++ (record { lease = m.transition_lease; phase = watching }) ∷ [];
        holders = m.holders - 1;
      };
    }

-- How withLaunchAdmission and the look at the session end in launchPersistedPolicy.
pub data LaunchAdmission : Type 0 where
  not_admitted canceled_session admitted : LaunchAdmission

-- launchPersistedPolicy, with whether it has launched the worker
unfoldable pub launch_persisted_policy : LaunchAdmission → View → View × Bool
unfolding launch_locked
launch_persisted_policy not_admitted v = (v, false)
launch_persisted_policy canceled_session v = (v, false)
launch_persisted_policy admitted v =
    if v.entries.closed then (v, false) else (launch_locked v, true)

-- reserveStopTransition, from the worker's entry on
unfoldable pub reserve_stop : View → View
reserve_stop v =
    let m = v.entries in
    record v {
      entries = record m {
        reserved = true;
        stopping = some m.next_owner;
        next_owner = m.next_owner + 1;
      };
    }

-- reserveStopTransition
unfoldable pub reserve_stop_transition : Bool → View → View × Option LeaseError
unfolding try_lease reserve_stop
reserve_stop_transition usable v =
    let m = v.entries in
    if m.closed
    then (v, some manager_closed)
    else if m.reserved
    then (v, some transition_busy)
    else elim m.active [
      | some w ↦ (reserve_stop v, none)
      | none ↦ elim (try_lease usable v.locked) [
        | some e ↦ (v, some e)
        | none ↦ (
          reserve_stop (record { locked = true; entries = record m { transition_lease = true } }),
          none,
        )
      ]
    ]

abbrev pub is_number : ℕ → Option ℕ → Bool
is_number n none = false
is_number n (some k) = eqb n k

-- releaseStopTransition
unfoldable pub release_stop_transition : ℕ → View → View
release_stop_transition owner v =
    let m = v.entries in
    if is_number owner m.stopping
    then record {
      locked = if m.transition_lease then false else v.locked;
      entries = record m { reserved = false; transition_lease = false; stopping = none };
    }
    else v

-- `stopOwner.handoff <- b`
unfoldable pub send_handoff : ℕ → Bool → View → View
send_handoff owner b v = record v {
  entries = record v.entries { sent = (owner, b) ∷ v.entries.sent };
}

-- Shutdown, up to its waits
unfoldable pub shutdown : View → View
shutdown v = record v { entries = record v.entries { closed = true } }

-- `xs[i] = new`
unfoldable pub set_index {ℓ} : {A : Type ℓ} → ℕ → A → List A → List A
set_index i w [] = []
set_index zero w (x ∷ xs) = w ∷ xs
set_index (suc i) w (x ∷ xs) = x ∷ set_index i w xs

unfoldable pub received : ℕ → List (ℕ × Bool) → Option Bool
received owner [] = none
received owner ((o, b) ∷ sent) = if eqb o owner then some b else received owner sent

abbrev pub with_worker : ℕ → BackgroundWorker → Entries → Entries
with_worker i w m = record m { workers = set_index i w m.workers }

-- One step of workerDone, of worker `i` which is `w`. The watcher has returned in the first one.
-- What a persisting worker records is `end_worker` of Ending.
unfoldable pub step_worker : ℕ → BackgroundWorker → WorkerPhase → View → View
unfolding set_index received
step_worker i w watching v =
    let m = v.entries in
    let at = λ (p : WorkerPhase). with_worker i (record w { phase = p }) m in
    elim m.stopping [
      | some owner ↦ record v { entries = at (awaiting owner) }
      | none ↦ record v {
        entries = record (at (persisting (not (m.reserved)))) { reserved = true };
      }
    ]
step_worker i w (awaiting owner) v =
    let m = v.entries in
    let at = λ (p : WorkerPhase). with_worker i (record w { phase = p }) m in
    elim (received owner m.sent) [
      | none ↦ v
      | some true ↦ record v { entries = at (persisting false) }
      | some false ↦ record v { entries = at returning }
    ]
step_worker i w (persisting owns) v = record v {
  entries = with_worker i (record w { phase = releasing owns }) v.entries;
}
step_worker i w returning v = record v {
  entries = record (with_worker i (record { lease = false; phase = closing false }) v.entries) {
    transition_lease = if w.lease then true else v.entries.transition_lease;
  };
}
step_worker i w (releasing owns) v = record {
  locked = if w.lease then false else v.locked;
  entries = with_worker i (record { lease = false; phase = closing owns }) v.entries;
}
step_worker i w (closing owns) v =
    let m = v.entries in
    record v {
      entries = record (with_worker i (record w { phase = finished }) m) {
        active = if is_number i m.active then none else m.active;
        reserved = if owns then false else m.reserved;
      };
    }
step_worker i w finished v = v
