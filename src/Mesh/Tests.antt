-- ===== src/Mesh/Tests.antt =====
-- The theorems on boards at concrete inputs.
use ratchet_cli.Base.{
  ℕ, ◌^◌, ◌+◌, ◌≡◌, ◌≢◌, refl, String, true, false, some, List, [], ◌∷◌, arith, ◌==◌, eq_iff, ◌&&◌,
  if◌then◌else◌, All,
}
use ratchet_cli.Mesh.Blackboard.{Blackboard, new_blackboard, read, write, write_from_remote}
use ratchet_cli.Mesh.Blackboard.Reads.{read-write}
use ratchet_cli.Mesh.Blackboard.Revisions.{IsBounded, IsNewest, new-IsBounded, write-IsBounded}
use ratchet_cli.Mesh.Blackboard.Watchers.{live_at, calls_of, write-calls_of}
use ratchet_cli.Mesh.ProjectBoards.{root, team_bb, new_project_blackboard}
use ratchet_cli.Mesh.ProjectBoards.Runs.{run, private_board}

-- a board with three watchers, the second of which was removed
abbrev watched : Blackboard ℕ
watched = record { sections = []; watchers = true ∷ false ∷ true ∷ []; revision = 2 ^ 63 }

abbrev written : Blackboard ℕ
written = (write watched "plan" "goal" 5 "ann" 100).0

read_back : read written "plan" "goal" ≡ some ((write watched "plan" "goal" 5 "ann" 100).1)
unfolding write read
read_back = refl

read-write_example :
    let (b1, e1, calls) = write written "plan" "step" 6 "bob" 101 in
    let (b2, e2) = write_from_remote written "plan" "step" 6 "bob" (2 ^ 63 + 9) 101 in
    (read b1 "plan" "goal"
      ≡ (if ("plan" == "plan") && ("step" == "goal") then some e1 else read written "plan" "goal"))
    × (read b2 "plan" "goal" ≡ (
        if ("plan" == "plan") && ("step" == "goal") then some e2 else read written "plan" "goal"))
read-write_example = read-write written "plan" "step" 6 "bob" 101 (2 ^ 63 + 9) "plan" "goal"

write-IsBounded_example :
    let (b', e, calls) = write (new_blackboard {V = ℕ}) "plan" "goal" 5 "ann" 100 in
    IsBounded b' × IsNewest (new_blackboard {V = ℕ}) e
write-IsBounded_example =
    write-IsBounded new_blackboard "plan" "goal" 5 "ann" 100 new-IsBounded (omega arith)

write-calls_of_example :
    let (b', e, calls) = write watched "plan" "goal" 5 "ann" 100 in
    calls_of 2 calls ≡ (if live_at watched.watchers 2 then 1 else 0)
write-calls_of_example = write-calls_of watched "plan" "goal" 5 "ann" 100 2

abbrev before : List (String × String)
before = ("red", "shared") ∷ ("blue", "bridge:blue,green") ∷ []

abbrev after : List (String × String)
after = ("green", "bridge:blue,green") ∷ ("black", "isolated") ∷ ("grey", "") ∷ []

boards_of_teams : (run new_project_blackboard before).1 ≡ 0 ∷ 1 ∷ []
unfolding team_bb
boards_of_teams = refl

differs : (a b : String) → a == b ≡ false → a ≢ b
differs a b h e = ground (arith, h, (eq_iff a b).1 e)

private_board_example :
    let (p1, earlier) = run new_project_blackboard before in
    let (p2, board) = team_bb p1 "white" "isolated" in
    let (p3, later) = run p2 after in
    All (λ bb. bb ≢ board) earlier
    × All (λ bb. bb ≢ board) later
    × (board ≢ root)
    × ((team_bb p3 "white" "isolated").1 ≡ board)
private_board_example =
    private_board before after "white"
      ((differs _ _ refl, differs _ _ refl), ((differs _ _ refl, differs _ _ refl), tt))
      (
        (differs _ _ refl, differs _ _ refl),
        ((differs _ _ refl, differs _ _ refl), ((differs _ _ refl, differs _ _ refl), tt)),
      )
