-- ===== src/Mesh/Tracker/Claims.antt =====
-- A claim is exclusive.
use ratchet_cli.Base.{
  ℕ, ◌≡◌, ◌≢◌, ◌≤◌, count_if, refl, inl, inr, String, true, false, none, some, List, [], ◌∷◌, any,
  arith, ◌==◌, eq_iff, Bool-cases,
}
use ratchet_cli.Mesh.Tracker.{
  Task, Tracker, already_claimed, is_claimable, has_id, find_row, claim_rows, claim_task, get_task,
}
use ratchet_cli.Mesh.Tracker.Holding.{IsClaimed, Holds, Op, run, claimed-refuses, run-Holds}

absent-IsClaimed :
    (id agent other : String) (now : ℕ) (ts : List Task)
    → count_if (has_id id) ts ≡ 0
    → IsClaimed id agent (claim_rows id other now ts)
unfolding claim_rows
absent-IsClaimed id agent other now [] h = tt
absent-IsClaimed id agent other now (t ∷ ts) h = (
  (λ e. absurd (ground (arith, h, e, eq_iff t.id id))),
  absent-IsClaimed id agent other now ts (ground (arith, h)),
)

absent-any :
    (id : String) (ts : List Task) → count_if (has_id id) ts ≡ 0 → any (is_claimable id) ts ≡ false
absent-any id [] h = refl
absent-any id (t ∷ ts) h = ground (arith, h, absent-any id ts)

claim-first :
    (id agent : String) (now : ℕ) (ts : List Task)
    → count_if (has_id id) ts ≤ 1
    → any (is_claimable id) ts ≡ true
    → Holds id agent (claim_rows id agent now ts)
unfolding claim_rows
claim-first id agent now [] one h = absurd (ground arith)
claim-first id agent now (t ∷ ts) one h = elim (Bool-cases (t.id == id)) [
  | inl e ↦
      let none_left : count_if (has_id id) ts ≡ 0 = ground (arith, one, e) in
      let free : is_claimable id t ≡ true = ground (arith, h, e, absent-any id ts none_left) in
      record {
        exists = ground (arith, e, free);
        claimed =
            ((λ same. ground (arith, free)), absent-IsClaimed id agent agent now ts none_left);
      }
  | inr e ↦
      let rest = claim-first id agent now ts (ground (arith, one, e)) (ground (arith, h, e)) in
      record {
        exists = ground (arith, e, rest.exists);
        claimed = ((λ same. absurd (ground (arith, e, same, eq_iff t.id id))), rest.claimed);
      }
]

find-IsClaimed :
    (id agent : String) (ts : List Task)
    → Holds id agent ts
    → (t : Task) × (find_row id ts ≡ some t) × (t.claimed_by ≡ some agent)
unfolding find_row
find-IsClaimed id agent [] h = absurd (ground (arith, h.exists))
find-IsClaimed id agent (t ∷ ts) h = elim (Bool-cases (t.id == id)) [
  | inl e ↦ (t, ground (arith, e), h.claimed.0 (ground (arith, e, eq_iff t.id id)))
  | inr e ↦
      let (t', found, mine) =
        find-IsClaimed id agent ts
          (record { exists = ground (arith, e, h.exists); claimed = h.claimed.1 }) in
      (t', ground (arith, e, found), mine)
]

-- A claim of an unclaimed task, of which there is at most one row, by an agent with a name succeeds,
-- if the database answers. After it and any other operations, the task is that agent's, and every
-- further claim is refused.
pub claimed_once :
    (id agent : String) (now : ℕ) (tk : Tracker) (ops : List Op)
    → agent ≢ ""
    → count_if (has_id id) tk.tasks ≤ 1
    → any (is_claimable id) tk.tasks ≡ true
    → let (tk1, error) = claim_task true id agent now tk in
      let tk2 = run ops tk1 in
      (error ≡ none)
      × ((t : Task) × (get_task true id tk2 ≡ some t) × (t.claimed_by ≡ some agent))
      × ((other : String) (later : ℕ)
          → (claim_task true id other later tk2).1 ≡ some already_claimed)
unfolding claim_task get_task
claimed_once id agent now tk ops a one free =
    let h =
      run-Holds ops (record tk { tasks = claim_rows id agent now tk.tasks }) id agent a
        (claim-first id agent now tk.tasks one free) in
    (
      ground (arith, free),
      find-IsClaimed id agent _ h,
      λ other later. ground (arith, claimed-refuses id agent _ a h.claimed),
    )
