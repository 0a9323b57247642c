-- ===== src/Mesh/TrackerTests.antt =====
-- The theorems on the tracker at concrete inputs.
use ratchet_cli.Base.{
  ℕ, ◌≡◌, refl, String, true, none, some, List, [], ◌∷◌, arith, eq_iff, ◌==◌, if◌then◌else◌,
}
use ratchet_cli.Mesh.Tracker.{Task, Tracker, already_claimed, claim_task, get_task, update_task}
use ratchet_cli.Mesh.Tracker.Holding.{Op, claims, updates, run}
use ratchet_cli.Mesh.Tracker.Claims.{claimed_once}
use ratchet_cli.Mesh.Tracker.Updates.{rewritten, updated_twice}

abbrev build : Task
build = record {
  id = "t1";
  project_id = "p";
  title = "build";
  description = "";
  assigned_team = "red";
  claimed_by = none;
  status = "pending";
  notes = none;
  priority = 1;
  created_at = 10;
  updated_at = 10;
}

abbrev table : Tracker
table = record {
  projects = ("p", "ship") ∷ [];
  tasks = build ∷ record build { id = "t2"; status = "completed" } ∷ [];
}

abbrev later_ops : List Op
later_ops = claims true "t1" "bob" 21 ∷ updates true "t1" "in_progress" "half" 22 ∷ []

claimed_once_example :
    let (tk1, error) = claim_task true "t1" "ann" 20 table in
    let tk2 = run later_ops tk1 in
    (error ≡ none)
    × ((t : Task) × (get_task true "t1" tk2 ≡ some t) × (t.claimed_by ≡ some "ann"))
    × ((other : String) (later : ℕ)
        → (claim_task true "t1" other later tk2).1 ≡ some already_claimed)
claimed_once_example =
    claimed_once "t1" "ann" 20 table later_ops (λ e. ground (arith, (eq_iff "ann" "").1 e))
      (omega arith) refl

updated_twice_example :
    let (tk1, error1) = update_task true "t1" "in_progress" "half" 30 table in
    let (tk2, error2) = update_task true "t1" "completed" "done" 31 tk1 in
    (error1 ≡ none)
    × (error2 ≡ none)
    × (tk2.projects ≡ table.projects)
    × ((asked : String)
        → get_task true asked tk2 ≡ (
            if "t1" == asked
            then rewritten "completed" "done" 31 (get_task true asked table)
            else get_task true asked table))
updated_twice_example = updated_twice "t1" "in_progress" "half" "completed" "done" 30 31 table
