-- ===== src/Daemon/Broadcaster.antt =====
-- internal/daemon/session_broadcaster.go. A channel is what its buffer of capacity 64 holds, the
-- oldest first; the events are of a parameter type.
use ratchet_cli.Base.{
  ℕ, String, Bool, true, false, Option, none, some, List, [], ◌∷◌, ◌++◌, ltb, length, if◌then◌else◌,
  ◌==◌,
}
use ratchet_cli.Base.Dict.{Dict, lookup, insert, remove, map_entries}
pub mod Fanout

abbrev pub SessionBroadcaster {ℓ} : Type ℓ → Type ℓ
SessionBroadcaster E = Dict (Dict (List E))

module _ {ℓ} {E : Type ℓ} where
  -- the map of a session, or a new one
  abbrev pub or_new : Option (Dict (List E)) → Dict (List E)
  or_new none = []
  or_new (some subs) = subs

  -- Subscribe
  unfoldable pub subscribe : String → String → SessionBroadcaster E → SessionBroadcaster E
  unfolding lookup insert
  subscribe session sub b = insert session (insert sub [] (or_new (lookup session b))) b

  -- `if len(subs) == 0 { delete(b.subs, sessionID) }`, after a deletion
  unfoldable pub store_or_drop :
      String → Dict (List E) → SessionBroadcaster E → SessionBroadcaster E
  unfolding insert remove
  store_or_drop session [] b = remove session b
  store_or_drop session (s ∷ ss) b = insert session (s ∷ ss) b

  -- Unsubscribe
  unfoldable pub unsubscribe : String → String → SessionBroadcaster E → SessionBroadcaster E
  unfolding lookup remove store_or_drop
  unsubscribe session sub b = elim (lookup session b) [
    | none ↦ b
    | some subs ↦ store_or_drop session (remove sub subs) b
  ]

  -- `select { case ch <- event: default: }`
  unfoldable pub push : E → List E → List E
  push event ch = if ltb (length ch) 64 then ch ++ event ∷ [] else ch

  -- Publish
  unfoldable pub publish : String → E → SessionBroadcaster E → SessionBroadcaster E
  unfolding map_entries push
  publish session event b =
      map_entries
        (λ s subs. if s == session then map_entries (λ k ch. push event ch) subs else subs) b
