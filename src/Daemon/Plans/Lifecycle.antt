-- ===== src/Daemon/Plans/Lifecycle.antt =====
-- The states that a plan can reach.
use mathlib.Core.Path.{subst}
use ratchet_cli.Base.{
  ℕ, ◌≡◌, ◌≢◌, refl, sym, ap, ◌⊎◌, inl, inr, String, Bool, false, ◌&&◌, Option, none, some, List,
  [], ◌∷◌, arith, ◌==◌, eq_iff, Option-cases, Bool-cases,
}
use ratchet_cli.Base.Dict.{Dict, lookup, insert, lookup-insert, lookup-remove}
use ratchet_cli.Daemon.Plans.{
  Plan, PlanStep, PlanManager, new_plan_manager, purge_from, purge_terminal, create, approve,
  reject, set_step, all_done, update_step, is_terminal,
}

-- A step of the manager. `create` draws an id that was not drawn before.
pub data Step (pm : PlanManager) : PlanManager → Type 0 where
  creates :
      (id : String) (now : ℕ) (session goal : String) (steps : List PlanStep)
      → lookup id pm.plans ≡ none
      → lookup id pm.completed_at ≡ none
      → Step pm (create id now session goal steps pm)
  approves : (id : String) (skips : List String) (now : ℕ) → Step pm ((approve id skips now pm).0)
  rejects : (id feedback : String) (now : ℕ) → Step pm ((reject id feedback now pm).0)
  updates : (id step status error : String) → Step pm ((update_step id step status error pm).0)
  purges : (now ttl : ℕ) → Step pm (purge_terminal now ttl pm)

pub data Reachable (hooked : Bool) : PlanManager → Type 0 where
  starts : Reachable hooked (new_plan_manager hooked)
  follows : {pm pm' : PlanManager} → Reachable hooked pm → Step pm pm' → Reachable hooked pm'

-- A plan is proposed and has no time of its end, or it is decided and has one.
abbrev pub IsSettled : Plan → Option ℕ → Type 0
IsSettled p ended =
    ((p.status ≡ "proposed") × (ended ≡ none))
    ⊎ (((p.status ≡ "approved") ⊎ (p.status ≡ "rejected")) × ((ts : ℕ) × (ended ≡ some ts)))

pub record IsSound (pm : PlanManager) : Type 0 where
  pub settled :
      (id : String) (p : Plan)
      → lookup id pm.plans ≡ some p
      → IsSettled p (lookup id pm.completed_at)

-- the insertion of a plan that is settled
store-IsSound :
    (id : String) (q : Plan) (ended : Dict ℕ) (pm : PlanManager)
    → IsSettled q (lookup id ended)
    → ((k : String) → id ≢ k → lookup k ended ≡ lookup k pm.completed_at)
    → IsSound pm
    → IsSound (record pm { plans = insert id q pm.plans; completed_at = ended })
store-IsSound id q ended pm new others h = record {
  settled = λ k p found. elim (Bool-cases (id == k)) [
    | inl e ↦
        let same : id ≡ k = (eq_iff id k).0 e in
        let found' : some q ≡ some p = ground (arith, e, found, lookup-insert id k q pm.plans) in
        let eq : q ≡ p = ground (arith, found') in
        subst (λ r. IsSettled r (lookup k ended)) eq
          (subst (λ j. IsSettled q (lookup j ended)) same new)
    | inr e ↦
        let other : id ≢ k = λ same. ground (arith, e, same, eq_iff id k) in
        let old = h.settled k p (ground (arith, e, found, lookup-insert id k q pm.plans)) in
        subst (IsSettled p) (sym (others k other)) old
  ];
}

decide-IsSound :
    (id : String) (q : Plan) (now : ℕ) (pm : PlanManager)
    → (q.status ≡ "approved") ⊎ (q.status ≡ "rejected")
    → IsSound pm
    → IsSound
        (record pm { plans = insert id q pm.plans; completed_at = insert id now pm.completed_at })
decide-IsSound id q now pm decided h =
    store-IsSound id q (insert id now pm.completed_at) pm
      (inr (decided, (now, ground (arith, lookup-insert id id now pm.completed_at, eq_iff id id))))
      (λ k other. ground (arith, lookup-insert id k now pm.completed_at, eq_iff id k, other)) h

approve-IsSound :
    (id : String) (skips : List String) (now : ℕ) (pm : PlanManager)
    → IsSound pm
    → IsSound ((approve id skips now pm).0)
unfolding approve
approve-IsSound id skips now pm h = elim (Option-cases (lookup id pm.plans)) [
  | inl e ↦ rw (e, approve) h
  | inr (plan, e) ↦ elim (Bool-cases (plan.status == "proposed")) [
    | inl s ↦ rw (e, s, approve) (decide-IsSound id _ now pm (inl refl) h)
    | inr s ↦ rw (e, s, approve) h
  ]
]

reject-IsSound :
    (id feedback : String) (now : ℕ) (pm : PlanManager)
    → IsSound pm
    → IsSound ((reject id feedback now pm).0)
unfolding reject
reject-IsSound id feedback now pm h = elim (Option-cases (lookup id pm.plans)) [
  | inl e ↦ rw (e, reject) h
  | inr (plan, e) ↦ elim (Bool-cases (is_terminal plan.status)) [
    | inl s ↦ rw (e, s, reject) h
    | inr s ↦ rw (e, s, reject) (decide-IsSound id _ now pm (inr refl) h)
  ]
]

pub not_executing :
    (p : Plan) (ended : Option ℕ) → IsSettled p ended → p.status == "executing" ≡ false
not_executing p ended (inl (s, e)) = ap (λ x. x == "executing") s
not_executing p ended (inr (inl s, e)) = ap (λ x. x == "executing") s
not_executing p ended (inr (inr s, e)) = ap (λ x. x == "executing") s

update-IsSound :
    (id step status error : String) (pm : PlanManager)
    → IsSound pm
    → IsSound ((update_step id step status error pm).0)
unfolding update_step
update-IsSound id step status error pm h = elim (Option-cases (lookup id pm.plans)) [
  | inl e ↦ rw (e, update_step) h
  | inr (plan, e) ↦ elim (Option-cases (set_step step status error plan.steps)) [
    | inl s ↦ rw (e, s, update_step) h
    | inr (steps, s) ↦
        let old = h.settled id plan e in
        let x : all_done steps && (plan.status == "executing") ≡ false =
          ground (arith, not_executing plan _ old) in
        rw (e, s, x, update_step) (store-IsSound id _ pm.completed_at pm old (λ k o. refl) h)
  ]
]

-- A purge removes a plan with its time or leaves both.
pub purge-lookup :
    (now ttl : ℕ) (entries : Dict ℕ) (pm : PlanManager) (k : String)
    → let pm' = purge_from now ttl entries pm in
      ((lookup k pm'.plans ≡ none) × (lookup k pm'.completed_at ≡ none))
      ⊎ ((lookup k pm'.plans ≡ lookup k pm.plans)
          × (lookup k pm'.completed_at ≡ lookup k pm.completed_at))
unfolding purge_from
purge-lookup now ttl [] pm k = inr (refl, refl)
purge-lookup now ttl ((id, ts) ∷ rest) pm k =
    let kept = purge_from now ttl rest pm in
    ground (
      arith,
      purge-lookup now ttl rest pm k,
      lookup-remove id k kept.plans,
      lookup-remove id k kept.completed_at,
    )

purge-IsSound : (now ttl : ℕ) (pm : PlanManager) → IsSound pm → IsSound (purge_terminal now ttl pm)
unfolding purge_terminal
purge-IsSound now ttl pm h = record {
  settled = λ k p found. elim (purge-lookup now ttl pm.completed_at pm k) [
    | inl (gone, ended) ↦ absurd (ground (arith, gone, found))
    | inr (same, ended) ↦
        subst (IsSettled p) (sym ended) (h.settled k p (ground (arith, same, found)))
  ];
}

pub Step-IsSound : {pm pm' : PlanManager} → Step pm pm' → IsSound pm → IsSound pm'
unfolding create
Step-IsSound (creates id now session goal steps new unended) h =
    store-IsSound id _ _ _ (inl (refl, unended)) (λ k other. refl) h
Step-IsSound (approves id skips now) h = approve-IsSound id skips now _ h
Step-IsSound (rejects id feedback now) h = reject-IsSound id feedback now _ h
Step-IsSound (updates id step status error) h = update-IsSound id step status error _ h
Step-IsSound (purges now ttl) h = purge-IsSound now ttl _ h

-- Every plan of every reachable manager is proposed and has no time of its end, or is approved or
-- rejected and has one; none is ever executing or completed.
pub Reachable-IsSound : (hooked : Bool) {pm : PlanManager} → Reachable hooked pm → IsSound pm
Reachable-IsSound hooked starts = record {
  settled = λ k p found. absurd (unfold lookup in ground (arith, found));
}
Reachable-IsSound hooked (follows r s) = Step-IsSound s (Reachable-IsSound hooked r)
