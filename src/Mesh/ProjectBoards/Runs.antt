-- ===== src/Mesh/ProjectBoards/Runs.antt =====
-- Sequences of calls of TeamBB.
use ratchet_cli.Base.{
  ℕ, suc, ◌≤◌, ◌<◌, ◌≡◌, ◌≢◌, refl, String, Bool, true, false, none, some, List, [], ◌∷◌, arith,
  if◌then◌else◌, ◌==◌, eq_iff, All,
}
use ratchet_cli.Base.Dict.{Dict, lookup, insert, lookup-insert}
use ratchet_cli.Mesh.ProjectBoards.{
  ProjectBlackboard, root, board_of, in_mode, team_bb, new_project_blackboard,
}
use ratchet_cli.Mesh.ProjectBoards.Privacy.{IsMade, OwnedBy, Call, shared-Call, in_mode_lem}

-- the modes do not matter
remode :
    (p : ProjectBlackboard) (modes : Dict String) (team mode : String) (r : ProjectBlackboard × ℕ)
    → Call (record p { modes = modes }) team mode r
    → Call p team mode r
remode p modes team mode r c = record {
  made = c.made;
  grown = c.grown;
  below = c.below;
  kept = λ owner board o t m.
      c.kept owner board
        (record { owner = o.owner; only = o.only; private = o.private; is_made = o.is_made }) t m;
  absent = c.absent;
}

given-Call :
    (p : ProjectBlackboard) (modes : Dict String) (team mode : String) (empty : Bool)
    → IsMade p
    → Call p team mode
        (in_mode (record p { modes = modes }) team (if empty then "shared" else mode))
unfolding in_mode
given-Call p modes team mode true h =
    remode p modes team mode _
      (shared-Call (record p { modes = modes }) team mode (record { made = h.made }))
given-Call p modes team mode false h =
    remode p modes team mode _
      (in_mode_lem (record p { modes = modes }) team mode (record { made = h.made }))

team_bb_lem :
    (p : ProjectBlackboard) (team mode : String) → IsMade p → Call p team mode (team_bb p team mode)
unfolding team_bb
team_bb_lem p team mode h = given-Call p _ team mode (mode == "") h

-- the state after some calls, and what they returned
abbrev pub run : ProjectBlackboard → List (String × String) → ProjectBlackboard × List ℕ
run p [] = (p, [])
run p ((team, mode) ∷ calls) =
    let (p1, bb) = team_bb p team mode in let (p2, bbs) = run p1 calls in (p2, bb ∷ bbs)

-- the calls name another team, and no bridge of that name
abbrev pub AreOthers : String → List (String × String) → Type 0
AreOthers team = All (λ c. (c.0 ≢ team) × (c.1 ≢ team))

-- Everything that calls return was made before the call after them.
run-below :
    (p : ProjectBlackboard) (calls : List (String × String))
    → IsMade p
    → IsMade ((run p calls).0)
      × (p.made ≤ (run p calls).0.made)
      × All (λ bb. bb ≤ (run p calls).0.made) ((run p calls).1)
run-below p [] h = (h, omega arith, tt)
run-below p ((team, mode) ∷ calls) h =
    let c = team_bb_lem p team mode h in
    let (h', grown, below) = run-below ((team_bb p team mode).0) calls c.made in
    (h', omega (arith, grown, c.grown), (omega (arith, c.below, grown), below))

run-OwnedBy :
    (p : ProjectBlackboard) (calls : List (String × String)) (team : String) (board : ℕ)
    → IsMade p
    → OwnedBy p team board
    → AreOthers team calls
    → OwnedBy ((run p calls).0) team board × All (λ bb. bb ≢ board) ((run p calls).1)
run-OwnedBy p [] team board h o others = (o, tt)
run-OwnedBy p ((t, mode) ∷ calls) team board h o others =
    let c = team_bb_lem p t mode h in
    let (o', away) = c.kept team board o (others.0.0) (others.0.1) in
    let (o'', aways) = run-OwnedBy ((team_bb p t mode).0) calls team board c.made o' (others.1) in
    (o'', (away, aways))

isolated_again :
    (p : ProjectBlackboard) (team : String) (board : ℕ)
    → OwnedBy p team board
    → (team_bb p team "isolated").1 ≡ board
unfolding team_bb in_mode board_of
isolated_again p team board o = rw (o.owner, board_of) refl

isolated_first :
    (p : ProjectBlackboard) (team : String)
    → IsMade p
    → lookup team p.teams ≡ none
    → OwnedBy ((team_bb p team "isolated").0) team ((team_bb p team "isolated").1)
      × (p.made < (team_bb p team "isolated").1)
unfolding team_bb in_mode board_of
isolated_first p team h new =
    rw (new, board_of)
      (
        record {
          owner = ground (arith, lookup-insert team team (suc p.made) p.teams, eq_iff team team);
          only = λ k f. ground (
            arith,
            lookup-insert team k (suc p.made) p.teams,
            eq_iff team k,
            h.made k (suc p.made),
            f,
          );
          private = ground arith;
          is_made = omega arith;
        },
        omega arith,
      )

run-lookup :
    (p : ProjectBlackboard) (calls : List (String × String)) (team : String)
    → IsMade p
    → lookup team p.teams ≡ none
    → AreOthers team calls
    → lookup team ((run p calls).0.teams) ≡ none
run-lookup p [] team h new others = new
run-lookup p ((t, mode) ∷ calls) team h new others =
    let c = team_bb_lem p t mode h in
    run-lookup ((team_bb p t mode).0) calls team c.made
      (c.absent team new (others.0.0) (others.0.1)) (others.1)

new-IsMade : IsMade new_project_blackboard
unfolding lookup
new-IsMade = record { made = λ k bb f. ground arith }

not_below :
    (board : ℕ) (n : ℕ) (bbs : List ℕ)
    → n < board
    → All (λ bb. bb ≤ n) bbs
    → All (λ bb. bb ≢ board) bbs
not_below board n [] h below = tt
not_below board n (bb ∷ bbs) h (b, below) =
    ((λ e. omega (arith, e, b, h)), not_below board n bbs h below)

-- A team that asks for an isolated board before any other call names it gets a board that no other
-- call, before or after, returns, which is not the project's, and which it gets again. The other
-- calls neither name the team nor a mode of that name.
pub private_board :
    (before after : List (String × String)) (team : String)
    → AreOthers team before
    → AreOthers team after
    → let (p1, earlier) = run new_project_blackboard before in
      let (p2, board) = team_bb p1 team "isolated" in
      let (p3, later) = run p2 after in
      All (λ bb. bb ≢ board) earlier
      × All (λ bb. bb ≢ board) later
      × (board ≢ root)
      × ((team_bb p3 team "isolated").1 ≡ board)
private_board before after team ob oa =
    let (h1, grown, below) = run-below new_project_blackboard before new-IsMade in
    let p1 = (run new_project_blackboard before).0 in
    let new = run-lookup new_project_blackboard before team new-IsMade (unfold lookup in refl) ob in
    let (o, above) = isolated_first p1 team h1 new in
    let c = team_bb_lem p1 team "isolated" h1 in
    let (o', aways) = run-OwnedBy _ after team _ c.made o oa in
    (not_below _ _ _ above below, aways, o.private, isolated_again _ team _ o')

-- A team that was shared and asks for an isolated board gets the project's board.
pub shared_then_isolated :
    (p : ProjectBlackboard) (team : String)
    → (team_bb ((team_bb p team "shared").0) team "isolated").1 ≡ root
unfolding team_bb in_mode board_of
shared_then_isolated p team =
    let e : lookup team (insert team root p.teams) ≡ some root =
      ground (arith, lookup-insert team team root p.teams, eq_iff team team) in
    rw (e, board_of) refl
