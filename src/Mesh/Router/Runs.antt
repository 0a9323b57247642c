-- ===== src/Mesh/Router/Runs.antt =====
-- Sequences of operations of the router, beside the queue of one node.
use mathlib.Core.Path.{subst}
use ratchet_cli.Base.{
  ◌≤◌, ◌≡◌, refl, sym, ap, ◌∙◌, String, Bool, true, false, Option, none, some, List, [], ◌∷◌, arith,
  length, length-append, if◌then◌else◌, ◌==◌,
}
use ratchet_cli.Base.Dict.{lookup, apply_at}
use ratchet_cli.Mesh.Router.{
  Message, Router, inbox_buffer, offer, send, register, unregister, receive,
}
use ratchet_cli.Mesh.Router.Delivery.{
  is_for, tail, lookup-send, lookup-register, lookup-unregister, lookup-receive,
}

pub data Op {ℓ} (C : Type ℓ) : Type ℓ where
  registers unregisters receives : String → Op C
  sends : Message C → Op C

module _ {ℓ} {C : Type ℓ} where
  abbrev pub step : Op C → Router C → Router C
  step (registers id) r = (register id r).0
  step (unregisters id) r = (unregister id r).0
  step (receives id) r = (receive id r).0
  step (sends msg) r = (send msg r).0

  -- one node's queue, which is `none` while the node is not registered
  abbrev pub queue_step : String → Op C → Option (List (Message C)) → Option (List (Message C))
  queue_step node (registers id) q =
      if id == node then some (elim q [ none ↦ [] | some ch ↦ ch ]) else q
  queue_step node (unregisters id) q = if id == node then none else q
  queue_step node (receives id) q = if id == node then apply_at tail q else q
  queue_step node (sends msg) q = if is_for msg node then apply_at (offer msg) q else q

  step-refines :
      (op : Op C) (r : Router C) (node : String)
      → lookup node (step op r) ≡ queue_step node op (lookup node r)
  step-refines (registers id) r node = lookup-register id r node
  step-refines (unregisters id) r node = lookup-unregister id r node
  step-refines (receives id) r node = lookup-receive id r node
  step-refines (sends msg) r node = lookup-send msg r node

  abbrev pub run : List (Op C) → Router C → Router C
  run [] r = r
  run (op ∷ ops) r = run ops (step op r)

  abbrev pub queue_run :
      String → List (Op C) → Option (List (Message C)) → Option (List (Message C))
  queue_run node [] q = q
  queue_run node (op ∷ ops) q = queue_run node ops (queue_step node op q)

  -- After every run from any router, a node's inbox is what a queue of its own makes of the same
  -- operations, started with the node's inbox, whatever the other nodes hold.
  pub run-refines :
      (ops : List (Op C)) (r : Router C) (node : String)
      → lookup node (run ops r) ≡ queue_run node ops (lookup node r)
  run-refines [] r node = refl
  run-refines (op ∷ ops) r node =
      run-refines ops (step op r) node ∙ ap (queue_run node ops) (step-refines op r node)

  -- No inbox holds more than its buffer.
  abbrev pub IsBounded : Option (List (Message C)) → Type 0
  IsBounded none = Unit
  IsBounded (some q) = length q ≤ inbox_buffer

  offer-bounded :
      (msg : Message C) (q : List (Message C))
      → length q ≤ inbox_buffer
      → length (offer msg q) ≤ inbox_buffer
  unfolding offer
  offer-bounded msg q h = ground (arith, length-append q (msg ∷ []))

  IsBounded-if :
      (c : Bool) (x y : Option (List (Message C)))
      → IsBounded x
      → IsBounded y
      → IsBounded (if c then x else y)
  IsBounded-if true x y h k = h
  IsBounded-if false x y h k = k

  apply-IsBounded :
      (f : List (Message C) → List (Message C))
      → ((q : List (Message C)) → length q ≤ inbox_buffer → length (f q) ≤ inbox_buffer)
      → (q : Option (List (Message C))) → IsBounded q
      → IsBounded (apply_at f q)
  apply-IsBounded f h none k = tt
  apply-IsBounded f h (some q) k = h q k

  tail-bounded : (q : List (Message C)) → length q ≤ inbox_buffer → length (tail q) ≤ inbox_buffer
  tail-bounded [] h = h
  tail-bounded (m ∷ q) h = omega (arith, h)

  new-IsBounded :
      (q : Option (List (Message C)))
      → IsBounded q
      → IsBounded (some (elim q [ none ↦ [] | some ch ↦ ch ]))
  new-IsBounded none h = omega arith
  new-IsBounded (some q) h = h

  queue_step-IsBounded :
      (node : String) (op : Op C) (q : Option (List (Message C)))
      → IsBounded q
      → IsBounded (queue_step node op q)
  queue_step-IsBounded node (registers id) q h = IsBounded-if (id == node) _ q (new-IsBounded q h) h
  queue_step-IsBounded node (unregisters id) q h = IsBounded-if (id == node) none q tt h
  queue_step-IsBounded node (receives id) q h =
      IsBounded-if (id == node) _ q (apply-IsBounded tail tail-bounded q h) h
  queue_step-IsBounded node (sends msg) q h =
      IsBounded-if (is_for msg node) _ q (apply-IsBounded (offer msg) (offer-bounded msg) q h) h

  queue_run-IsBounded :
      (node : String) (ops : List (Op C)) (q : Option (List (Message C)))
      → IsBounded q
      → IsBounded (queue_run node ops q)
  queue_run-IsBounded node [] q h = h
  queue_run-IsBounded node (op ∷ ops) q h =
      queue_run-IsBounded node ops (queue_step node op q) (queue_step-IsBounded node op q h)

  -- In every run, a node's inbox that held no more than its buffer, or was not there, holds no more
  -- than its buffer.
  pub run-IsBounded :
      (ops : List (Op C)) (r : Router C) (node : String)
      → IsBounded (lookup node r)
      → IsBounded (lookup node (run ops r))
  run-IsBounded ops r node h =
      subst IsBounded (sym (run-refines ops r node))
        (queue_run-IsBounded node ops (lookup node r) h)
