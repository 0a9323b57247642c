-- ===== src/Mesh/ProjectBoards.antt =====
-- internal/mesh/project_bb.go. Boards are references: 0 is the project's own, and the n-th one made
-- is n.
use ratchet_cli.Base.{
  ℕ, zero, suc, ◌+◌, String, Bool, true, false, Option, none, some, List, [], ◌∷◌, if◌then◌else◌,
  ◌==◌,
}
use text.Mathlib.Text.{starts_with}
use ratchet_cli.Base.Dict.{Dict, lookup, insert}
pub mod Privacy
pub mod Runs

pub record ProjectBlackboard : Type 0 where
  pub made : ℕ  -- how many boards were made beside the project's
  pub teams : Dict ℕ
  pub modes : Dict String

abbrev pub root : ℕ
root = 0

abbrev pub new_project_blackboard : ProjectBlackboard
new_project_blackboard = record { made = 0; teams = []; modes = [] }

-- the board of a key of `teams`, made if it is missing
unfoldable pub board_of : ProjectBlackboard → String → ProjectBlackboard × ℕ
unfolding lookup insert
board_of p key = elim (lookup key p.teams) [
  | some bb ↦ (p, bb)
  | none ↦ let bb = suc p.made in (record p { made = bb; teams = insert key bb p.teams }, bb)
]

-- the switch of TeamBB
unfoldable pub in_mode : ProjectBlackboard → String → String → ProjectBlackboard × ℕ
unfolding board_of insert
in_mode p team mode =
    if mode == "shared"
    then (record p { teams = insert team root p.teams }, root)
    else if mode == "isolated"
    then board_of p team
    else if mode == "orchestrator"
    then board_of p team
    else if starts_with mode "bridge:"
    then (let (p', bb) = board_of p mode in (record p' { teams = insert team bb p'.teams }, bb))
    else (p, root)

-- TeamBB
unfoldable pub team_bb : ProjectBlackboard → String → String → ProjectBlackboard × ℕ
unfolding in_mode insert
team_bb p team given =
    let mode = if given == "" then "shared" else given in
    in_mode (record p { modes = insert team mode p.modes }) team mode

-- Mode
unfoldable pub mode_of : ProjectBlackboard → String → String
unfolding lookup
mode_of p team = elim (lookup team p.modes) [ some m ↦ m | none ↦ "shared" ]
