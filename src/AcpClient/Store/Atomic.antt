-- ===== src/AcpClient/Store/Atomic.antt =====
-- transitionSession is all or nothing, up to the restoring write of the event log.
use mathlib.Core.Path.{subst}
use ratchet_cli.Base.{
  sym, ◌≡◌, ◌≢◌, refl, String, ◌⊎◌, Bool, true, false, some, List, [], ◌∷◌, ◌++◌, arith, ◌==◌,
  eq_iff, Option-cases, inl, inr, not, trim_space, if◌then◌else◌,
}
use ratchet_cli.AcpClient.Records.{Sessions}
use ratchet_cli.AcpClient.Normalize.{normalize_records}
use ratchet_cli.AcpClient.Mutate.{StoreError, Mutation, changed, unchanged, refused}
use ratchet_cli.AcpClient.EventLog.{EventLine, encode_event_log, next_seq}
use ratchet_cli.AcpClient.Store.{
  Runtime, World, Env, Write, Outcome, released, done, fault, AfterCommit, commit, commit_plain,
  commit_events, finish, transition_session, or_empty,
}

-- Nothing that a later operation can read differs.
pub record SameFiles (old new : World) : Type 0 where
  pub sessions : new.sessions ≡ old.sessions
  pub logs : (id : String) → new.logs id ≡ old.logs id
  pub cancels : (id : String) → new.cancels id ≡ old.cancels id

abbrev Failed : Outcome → Type 0
Failed done = ⊥
Failed (fault e) = e ≢ StoreError.commit_unconfirmed

module _ (rt : Runtime) (env : Env) (restorable : env.restore ≢ Write.failed)
    (unlocked : env.unlock ≡ true) (log_unlocked : env.log_unlock ≡ true) where
  SameFiles-refl : (w : World) → SameFiles w w
  SameFiles-refl w = record { sessions = refl; logs = λ id. refl; cancels = λ id. refl }

  commit-atomic :
      (after : AfterCommit) (id : String) (events : List EventLine) (ss : Sessions) (w : World)
      → Failed (commit rt env after id events ss w).0
      → SameFiles w (commit rt env after id events ss w).1
  unfolding commit_plain commit_events released
  commit-atomic after id [] ss w h = record {
    sessions = ground arith;
    logs = λ j. ground arith;
    cancels = λ j. ground arith;
  }
  commit-atomic after id (e ∷ es) ss w h = record {
    sessions = ground arith;
    logs = λ j. ground (arith, eq_iff (trim_space id) j);
    cancels = λ j. ground arith;
  }

  finish-atomic :
      (after : AfterCommit) (id : String) (events : List EventLine) (m : Mutation) (w : World)
      → Failed (finish rt env after id events m w).0
      → SameFiles w (finish rt env after id events m w).1
  unfolding finish
  finish-atomic after id events (refused e) w h = SameFiles-refl w
  finish-atomic after id events unchanged w h = SameFiles-refl w
  finish-atomic after id events (changed ss) w h = commit-atomic after id events ss w h

  SameFiles-if :
      (b : Bool) (w : World) (x y : Outcome × World)
      → (Failed x.0 → SameFiles w x.1)
      → (Failed y.0 → SameFiles w y.1)
      → Failed (if b then x else y).0
      → SameFiles w (if b then x else y).1
  SameFiles-if true w x y hx hy h = hx h
  SameFiles-if false w x y hx hy h = hy h

  transition-atomic :
      (after : AfterCommit) (id : String) (events : List EventLine) (mutate : Sessions → Mutation)
      (w : World)
      → Failed (transition_session rt env after id events mutate w).0
      → SameFiles w (transition_session rt env after id events mutate w).1
  unfolding transition_session released
  transition-atomic after id events mutate w =
      SameFiles-if (not env.lock) w _ _ (λ _. SameFiles-refl w)
        (rw (unlocked, released)
          (SameFiles-if (not env.load) w _ _ (λ _. SameFiles-refl w)
            (finish-atomic after id events _ w)))

-- A transition that returns an error other than the one for an unconfirmed commit has changed no
-- file, if the write that restores the event log does not fail and the two locks are released.
pub transition_all_or_nothing :
    (rt : Runtime) (env : Env) (after : AfterCommit) (id : String) (events : List EventLine)
    (mutate : Sessions → Mutation) (w : World) (e : StoreError)
    → (transition_session rt env after id events mutate w).0 ≡ fault e
    → e ≢ StoreError.commit_unconfirmed
    → env.restore ≢ Write.failed
    → env.unlock ≡ true
    → env.log_unlock ≡ true
    → SameFiles w (transition_session rt env after id events mutate w).1
transition_all_or_nothing rt env after id events mutate w e h other restorable unlocked
      log_unlocked =
    transition-atomic rt env restorable unlocked log_unlocked after id events mutate w
      (subst Failed (sym h) other)

abbrev Committed : Outcome → Type 0
Committed o =
    (o ≡ done) ⊎ ((o ≡ fault StoreError.commit_unconfirmed) ⊎ (o ≡ fault StoreError.release_failed))

-- A transition with events that reports a commit, confirmed or not, or a lock that was not released
-- and nothing else, has stored the changed records,
-- normalized and sorted, and has appended the numbered events to the log of its session, and only
-- to that log.
pub transition_commits :
    (rt : Runtime) (env : Env) (after : AfterCommit) (id : String) (e : EventLine)
    (es : List EventLine) (mutate : Sessions → Mutation) (w : World) (ss : Sessions)
    → mutate (normalize_records rt.store_key env.loaded_at w.sessions) ≡ changed ss
    → let (outcome, w') = transition_session rt env after id (e ∷ es) mutate w in
      Committed outcome
      → (w'.sessions ≡ rt.sort_records (normalize_records rt.store_key env.saved_at ss))
        × ((lines : List EventLine) × (encode_event_log rt.valid_message env.now
                (e ∷ es)
                (next_seq (or_empty rt (w.logs (trim_space id))))
              ≡ some lines)
            × ((j : String)
                → w'.logs j ≡ (
                    if trim_space id == j
                    then some (or_empty rt (w.logs (trim_space id)) ++ lines)
                    else w.logs j)))
unfolding transition_session released
transition_commits rt env after id e es mutate w ss h c =
    elim (Option-cases (
      encode_event_log rt.valid_message env.now (e ∷ es)
        (next_seq (or_empty rt (w.logs (trim_space id)))))) [
          | inl f ↦ absurd (ground (arith, h, f))
          | inr (lines, f) ↦ (
            ground (arith, h, f),
            (lines, f, λ j. ground (arith, h, f, eq_iff (trim_space id) j)),
          )
        ]
