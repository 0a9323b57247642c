-- ===== src/Daemon/Plans/Decisions.antt =====
-- A decision on a plan is final.
use ratchet_cli.Base.{
  ℕ, ◌≡◌, ◌≢◌, refl, sym, ap, ◌∙◌, ◌⊎◌, inl, inr, String, true, false, ◌&&◌, Option, none, some,
  List, [], arith, ◌==◌, eq_iff, Option-cases, Bool-cases,
}
use ratchet_cli.Base.Dict.{Dict, lookup, insert, lookup-insert}
use ratchet_cli.Daemon.Plans.{
  Plan, PlanManager, not_proposed, cannot_be_rejected, purge_terminal, create, approve, reject,
  set_step, all_done, update_step, is_terminal,
}
use ratchet_cli.Daemon.Plans.Lifecycle.{
  Step, creates, approves, rejects, updates, purges, IsSound, IsSettled, not_executing,
  purge-lookup,
}

-- The plan of this id is gone or has this status.
abbrev pub Stands : String → String → PlanManager → Type 0
Stands id status pm =
    (lookup id pm.plans ≡ none) ⊎ ((p : Plan) × (lookup id pm.plans ≡ some p) × (p.status ≡ status))

store-Stands :
    (id k : String) (q p : Plan) (ended : Dict ℕ) (pm : PlanManager)
    → lookup id pm.plans ≡ some p
    → ((k ≡ id) → q.status ≡ p.status)
    → Stands id p.status (record pm { plans = insert k q pm.plans; completed_at = ended })
store-Stands id k q p ended pm found same = elim (Bool-cases (k == id)) [
  | inl e ↦ inr (q, ground (arith, e, lookup-insert k id q pm.plans), same ((eq_iff k id).0 e))
  | inr e ↦ inr (p, ground (arith, e, found, lookup-insert k id q pm.plans), refl)
]

same_plan :
    (id k : String) (p q : Plan) (pm : PlanManager)
    → lookup id pm.plans ≡ some p
    → lookup k pm.plans ≡ some q
    → k ≡ id
    → q ≡ p
same_plan id k p q pm f g same =
    let e : some q ≡ some p = sym g ∙ ap (λ j. lookup j pm.plans) same ∙ f in ground (arith, e)

approve-Stands :
    (id k : String) (skips : List String) (now : ℕ) (pm : PlanManager) (p : Plan)
    → lookup id pm.plans ≡ some p
    → p.status ≢ "proposed"
    → Stands id p.status ((approve k skips now pm).0)
unfolding approve
approve-Stands id k skips now pm p found decided = elim (Option-cases (lookup k pm.plans)) [
  | inl e ↦ rw (e, approve) (inr (p, found, refl))
  | inr (plan, e) ↦ elim (Bool-cases (plan.status == "proposed")) [
    | inl s ↦
        let no : k ≢ id = λ same. decided (
          ap (λ r. r.status) (sym (same_plan id k p plan pm found e same))
          ∙ (eq_iff plan.status "proposed").0 s) in
        rw (e, s, approve)
          (store-Stands id k _ p (insert k now pm.completed_at) pm found (λ same. absurd (no same)))
    | inr s ↦ rw (e, s, approve) (inr (p, found, refl))
  ]
]

decided_terminal :
    (p : Plan) (ended : Option ℕ)
    → IsSettled p ended
    → p.status ≢ "proposed"
    → is_terminal p.status ≡ true
decided_terminal p ended (inl (s, e)) decided = absurd (decided s)
decided_terminal p ended (inr (inl s, e)) decided = ap is_terminal s
decided_terminal p ended (inr (inr s, e)) decided = ap is_terminal s

reject-Stands :
    (id k feedback : String) (now : ℕ) (pm : PlanManager) (p : Plan)
    → lookup id pm.plans ≡ some p
    → is_terminal p.status ≡ true
    → Stands id p.status ((reject k feedback now pm).0)
unfolding reject
reject-Stands id k feedback now pm p found terminal = elim (Option-cases (lookup k pm.plans)) [
  | inl e ↦ rw (e, reject) (inr (p, found, refl))
  | inr (plan, e) ↦ elim (Bool-cases (is_terminal plan.status)) [
    | inl s ↦ rw (e, s, reject) (inr (p, found, refl))
    | inr s ↦
        let no : k ≢ id = λ same.
          let differs : false ≡ true =
            sym s
            ∙ ap (λ r. is_terminal r.status) (same_plan id k p plan pm found e same)
            ∙ terminal in
          ground (arith, differs) in
        rw (e, s, reject)
          (store-Stands id k _ p (insert k now pm.completed_at) pm found (λ same. absurd (no same)))
  ]
]

update-Stands :
    (id k step status error : String) (pm : PlanManager) (p : Plan)
    → IsSound pm
    → lookup id pm.plans ≡ some p
    → Stands id p.status ((update_step k step status error pm).0)
unfolding update_step
update-Stands id k step status error pm p h found = elim (Option-cases (lookup k pm.plans)) [
  | inl e ↦ rw (e, update_step) (inr (p, found, refl))
  | inr (plan, e) ↦ elim (Option-cases (set_step step status error plan.steps)) [
    | inl s ↦ rw (e, s, update_step) (inr (p, found, refl))
    | inr (steps, s) ↦
        let x : all_done steps && (plan.status == "executing") ≡ false =
          ground (arith, not_executing plan _ (h.settled k plan e)) in
        rw (e, s, x, update_step)
          (store-Stands id k _ p pm.completed_at pm found
            (λ same. ap (λ r. r.status) (same_plan id k p plan pm found e same)))
  ]
]

purge-Stands :
    (id : String) (now ttl : ℕ) (pm : PlanManager) (p : Plan)
    → lookup id pm.plans ≡ some p
    → Stands id p.status (purge_terminal now ttl pm)
unfolding purge_terminal
purge-Stands id now ttl pm p found = elim (purge-lookup now ttl pm.completed_at pm id) [
  | inl (gone, ended) ↦ inl gone
  | inr (same, ended) ↦ inr (p, same ∙ found, refl)
]

Step-Stands :
    (pm pm' : PlanManager) (id : String) (p : Plan)
    → IsSound pm
    → lookup id pm.plans ≡ some p
    → p.status ≢ "proposed"
    → is_terminal p.status ≡ true
    → Step pm pm'
    → Stands id p.status pm'
unfolding create
Step-Stands pm pm' id p h found decided terminal (creates k now session goal steps new unended) =
    store-Stands id k _ p pm.completed_at pm found
      (λ same. absurd (ground (arith, new, found, ap (λ j. lookup j pm.plans) same)))
Step-Stands pm pm' id p h found decided terminal (approves k skips now) =
    approve-Stands id k skips now _ p found decided
Step-Stands pm pm' id p h found decided terminal (rejects k feedback now) =
    reject-Stands id k feedback now _ p found terminal
Step-Stands pm pm' id p h found decided terminal (updates k step status error) =
    update-Stands id k step status error _ p h found
Step-Stands pm pm' id p h found decided terminal (purges now ttl) =
    purge-Stands id now ttl _ p found

-- In a sound manager, a plan that is not proposed any more has the same status after every step, or
-- was purged; and while it is there, a further approval and a further rejection are refused.
pub decision-Stands :
    (pm pm' : PlanManager) (id : String) (p : Plan)
    → IsSound pm
    → lookup id pm.plans ≡ some p
    → p.status ≢ "proposed"
    → Step pm pm'
    → Stands id p.status pm'
      × ((skips : List String) (now : ℕ) → approve id skips now pm ≡ (pm, some not_proposed, []))
      × ((feedback : String) (now : ℕ)
          → reject id feedback now pm ≡ (pm, some cannot_be_rejected, []))
unfolding approve reject
decision-Stands pm pm' id p h found decided s =
    let terminal = decided_terminal p _ (h.settled id p found) decided in
    let no : p.status == "proposed" ≡ false = ground (arith, decided, eq_iff p.status "proposed") in
    (
      Step-Stands pm pm' id p h found decided terminal s,
      λ skips now. rw (found, no, approve) refl,
      λ feedback now. rw (found, terminal, reject) refl,
    )
