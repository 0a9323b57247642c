-- ===== src/Mesh/Router.antt =====
-- internal/mesh/router.go and message.go. An inbox is the list of the messages that its buffer
-- holds, the oldest first. The content of a message is one of the parameter `C`.
use ratchet_cli.Base.{
  ℕ, String, Bool, true, false, Option, none, some, List, [], ◌∷◌, ◌++◌, ltb, length, if◌then◌else◌,
  ◌==◌,
}
use ratchet_cli.Base.Dict.{Dict, lookup, insert, remove, map_entries}
pub mod Delivery
pub mod Runs

-- ID, Type, Content, Metadata and Timestamp are the content.
pub record Message {ℓ} (C : Type ℓ) : Type ℓ where
  pub from : String
  pub to : String
  pub content : C

abbrev pub inbox_buffer : ℕ
inbox_buffer = 64

abbrev pub Router {ℓ} : Type ℓ → Type ℓ
Router C = Dict (List (Message C))

pub data RouterError : Type 0 where
  already_registered not_registered : RouterError

module _ {ℓ} {C : Type ℓ} where
  -- `select { case ch <- msg: default: }`
  unfoldable pub offer : Message C → List (Message C) → List (Message C)
  offer msg buffer = if ltb (length buffer) inbox_buffer then buffer ++ msg ∷ [] else buffer

  -- Register; the receive end is the node's inbox
  unfoldable pub register : String → Router C → Router C × Option RouterError
  unfolding lookup insert
  register node r = elim (lookup node r) [
    | some _ ↦ (r, some already_registered)
    | none ↦ (insert node [] r, none)
  ]

  -- what a broadcast does with one inbox
  unfoldable pub broadcast_to : Message C → String → List (Message C) → List (Message C)
  unfolding offer
  broadcast_to msg id ch = if id == msg.from then ch else offer msg ch

  -- Send
  unfoldable pub send : Message C → Router C → Router C × Option RouterError
  unfolding offer broadcast_to lookup insert map_entries
  send msg r =
      if msg.to == "*" then (map_entries (broadcast_to msg) r, none) else elim (lookup msg.to r) [
        | none ↦ (r, some not_registered)
        | some ch ↦ (insert msg.to (offer msg ch) r, none)
      ]

  -- Unregister, and the messages that remain in the closed channel
  unfoldable pub unregister : String → Router C → Router C × List (Message C)
  unfolding lookup remove
  unregister node r = elim (lookup node r) [ none ↦ (r, []) | some ch ↦ (remove node r, ch) ]

  -- a receive at a node's inbox that does not block
  unfoldable pub receive : String → Router C → Router C × Option (Message C)
  unfolding lookup insert
  receive node r = elim (lookup node r) [
    | some (msg ∷ rest) ↦ (insert node rest r, some msg)
    | _ ↦ (r, none)
  ]
