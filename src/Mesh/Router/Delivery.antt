-- ===== src/Mesh/Router/Delivery.antt =====
-- Who receives a message.
use ratchet_cli.Base.{
  ◌≡◌, inl, inr, String, Bool, not, none, some, List, [], ◌∷◌, arith, if◌then◌else◌, ◌==◌, eq_iff,
  Option-cases,
}
use ratchet_cli.Base.Dict.{lookup, apply_at, lookup-insert, lookup-remove, lookup-map_entries}
use ratchet_cli.Mesh.Router.{
  Message, Router, not_registered, offer, broadcast_to, send, register, unregister, receive,
}

module _ {ℓ} {C : Type ℓ} where
  -- The message is for this node.
  abbrev pub is_for : Message C → String → Bool
  is_for msg node = if msg.to == "*" then not (node == msg.from) else msg.to == node

  pub lookup-send :
      (msg : Message C) (r : Router C) (node : String)
      → lookup node ((send msg r).0)
        ≡ (if is_for msg node then apply_at (offer msg) (lookup node r) else lookup node r)
  unfolding send broadcast_to
  lookup-send msg r node = elim (Option-cases (lookup msg.to r)) [
    | inl e ↦ ground (arith, e, eq_iff msg.to node, lookup-map_entries (broadcast_to msg) node r)
    | inr (ch, e) ↦ ground (
      arith,
      e,
      eq_iff msg.to node,
      lookup-map_entries (broadcast_to msg) node r,
      lookup-insert msg.to node (offer msg ch) r,
    )
  ]

  send-error :
      (msg : Message C) (r : Router C)
      → (send msg r).1 ≡ (
          if msg.to == "*"
          then none
          else elim (lookup msg.to r) [ none ↦ some not_registered | some _ ↦ none ])
  unfolding send
  send-error msg r = elim (Option-cases (lookup msg.to r)) [
    | inl e ↦ ground (arith, e)
    | inr (ch, e) ↦ ground (arith, e)
  ]

  -- A send offers the message to the registered nodes that it is for, and leaves every other node's
  -- inbox as it was; it fails exactly if it is for one node and that node is not registered.
  pub send_lem :
      (msg : Message C) (r : Router C) (node : String)
      → let (r', error) = send msg r in
        (lookup node r'
          ≡ (if is_for msg node then apply_at (offer msg) (lookup node r) else lookup node r))
        × (error ≡ (
            if msg.to == "*"
            then none
            else elim (lookup msg.to r) [ none ↦ some not_registered | some _ ↦ none ]))
  send_lem msg r node = (lookup-send msg r node, send-error msg r)

  pub lookup-register :
      (id : String) (r : Router C) (node : String)
      → lookup node ((register id r).0) ≡ (
          if id == node
          then some (elim (lookup node r) [ none ↦ [] | some ch ↦ ch ])
          else lookup node r)
  unfolding register
  lookup-register id r node = elim (Option-cases (lookup id r)) [
    | inl e ↦ ground (arith, e, eq_iff id node, lookup-insert id node [] r)
    | inr (ch, e) ↦ ground (arith, e, eq_iff id node)
  ]

  pub lookup-unregister :
      (id : String) (r : Router C) (node : String)
      → lookup node ((unregister id r).0) ≡ (if id == node then none else lookup node r)
  unfolding unregister
  lookup-unregister id r node = elim (Option-cases (lookup id r)) [
    | inl e ↦ ground (arith, e, eq_iff id node)
    | inr (ch, e) ↦ ground (arith, e, lookup-remove id node r)
  ]

  abbrev pub tail : List (Message C) → List (Message C)
  tail [] = []
  tail (m ∷ ms) = ms

  pub lookup-receive :
      (id : String) (r : Router C) (node : String)
      → lookup node ((receive id r).0)
        ≡ (if id == node then apply_at tail (lookup node r) else lookup node r)
  unfolding receive
  lookup-receive id r node = elim (Option-cases (lookup id r)) [
    | inl e ↦ ground (arith, e, eq_iff id node)
    | inr ([], e) ↦ ground (arith, e, eq_iff id node)
    | inr (m ∷ ms, e) ↦ ground (arith, e, eq_iff id node, lookup-insert id node ms r)
  ]
