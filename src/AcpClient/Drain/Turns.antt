-- ===== src/AcpClient/Drain/Turns.antt =====
-- The files move by store operations alone, also between the calls of the drain.
use ratchet_cli.Base.{
  ◌≡◌, refl, ap, ◌∙◌, ◌⊎◌, inl, inr, String, true, false, List, [], ◌∷◌, ◌++◌, Option-cases,
}
use ratchet_cli.AcpClient.Mutate.{StoreError}
use ratchet_cli.AcpClient.EventLog.{EventLine}
use ratchet_cli.AcpClient.Store.{Runtime, World, Env, Outcome, done, fault}
use ratchet_cli.AcpClient.Store.Runs.{Op, perform, run_ops}
use ratchet_cli.AcpClient.Drain.Calls.{
  Turn, DrainError, Check, Reply, prompt_failed, prompted, Read, answer, failure, before, act,
  checked,
}

pub Read-cases {ℓ} :
    {A : Type ℓ} (x : Read A) → ((e : DrainError) × (x ≡ failure e)) ⊎ ((a : A) × (x ≡ answer a))
Read-cases (failure e) = inl (e, refl)
Read-cases (answer a) = inr (a, refl)

pub Outcome-cases : (x : Outcome) → ((e : StoreError) × (x ≡ fault e)) ⊎ (x ≡ done)
Outcome-cases (fault e) = inl (e, refl)
Outcome-cases done = inr refl

pub Reply-cases :
    (x : Reply)
    → ((m : String) × (x ≡ prompt_failed m))
      ⊎ ((session text stop : String) × (events : List EventLine) × (x
            ≡ prompted session text stop events))
Reply-cases (prompt_failed m) = inl (m, refl)
Reply-cases (prompted session text stop events) = inr (session, text, stop, events, refl)

module _ (rt : Runtime) where
  -- Some store operations lead from the one state of the files to the other.
  abbrev pub RunsTo : World → World → Type 0
  RunsTo w w' = (ops : List (Env × Op)) × (run_ops rt ops w ≡ w')

  run_ops-append :
      (xs ys : List (Env × Op)) (w : World)
      → run_ops rt (xs ++ ys) w ≡ run_ops rt ys (run_ops rt xs w)
  run_ops-append [] ys w = refl
  run_ops-append ((env, op) ∷ xs) ys w = run_ops-append xs ys (perform rt env op w).1

  pub RunsTo-refl : (w : World) → RunsTo w w
  RunsTo-refl w = ([], refl)

  pub RunsTo-trans : (a b c : World) → RunsTo a b → RunsTo b c → RunsTo a c
  RunsTo-trans a b c (xs, p) (ys, q) = (xs ++ ys, run_ops-append xs ys a ∙ ap (run_ops rt ys) p ∙ q)

  pub before-RunsTo : (t : Turn) (w : World) → RunsTo w (before rt t w)
  unfolding before
  before-RunsTo t w = (t.others, refl)

  pub act-RunsTo : (t : Turn) (op : Op) (w : World) → RunsTo w ((act rt t op w).0)
  unfolding act
  act-RunsTo t op w = RunsTo-trans w (before rt t w) _ (before-RunsTo t w) ((t.env, op) ∷ [], refl)

  pub checked-RunsTo : (c : Check) (w : World) → RunsTo w (checked rt c w)
  checked-RunsTo c w = elim (Option-cases c.callback) [
    | inl e ↦ rw e (RunsTo-refl w)
    | inr (true, e) ↦ rw e (RunsTo-refl w)
    | inr (false, e) ↦ rw e (before-RunsTo c.turn w)
  ]
