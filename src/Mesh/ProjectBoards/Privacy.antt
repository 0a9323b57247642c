-- ===== src/Mesh/ProjectBoards/Privacy.antt =====
-- Who gets which board.
use ratchet_cli.Base.{
  ℕ, suc, ◌≤◌, ◌≡◌, ◌≢◌, sym, ap, ◌∙◌, inl, inr, String, Bool, true, false, none, some, arith,
  if◌then◌else◌, ◌==◌, eq_iff, Option-cases,
}
use text.Mathlib.Text.{starts_with}
use ratchet_cli.Base.Dict.{lookup, insert, lookup-insert}
use ratchet_cli.Mesh.ProjectBoards.{ProjectBlackboard, root, board_of, in_mode}

-- The boards in `teams` are the project's or were made.
pub record IsMade (p : ProjectBlackboard) : Type 0 where
  pub made : (k : String) (bb : ℕ) → lookup k p.teams ≡ some bb → bb ≤ p.made

-- Only this key leads to this board, which is not the project's.
pub record OwnedBy (p : ProjectBlackboard) (team : String) (board : ℕ) : Type 0 where
  pub owner : lookup team p.teams ≡ some board
  pub only : (k : String) → lookup k p.teams ≡ some board → k ≡ team
  pub private : board ≢ root
  pub is_made : board ≤ p.made

pub record BoardOf (key : String) (r : ProjectBlackboard × ℕ) : Type 0 where
  pub made : IsMade (r.0)
  pub below : r.1 ≤ r.0.made
  pub found : lookup key (r.0.teams) ≡ some (r.1)

pub board_of_lem : (p : ProjectBlackboard) (key : String) → IsMade p → BoardOf key (board_of p key)
unfolding board_of
board_of_lem p key h = elim (Option-cases (lookup key p.teams)) [
  | inl e ↦
      rw (e, board_of)
        record {
          made = record {
            made = λ k bb f.
                ground
                  (arith, lookup-insert key k (suc p.made) p.teams, h.made k bb, f, eq_iff key k);
          };
          below = omega arith;
          found = ground (arith, lookup-insert key key (suc p.made) p.teams, eq_iff key key);
        }
  | inr (bb, e) ↦ rw (e, board_of) record { made = h; below = h.made key bb e; found = e }
]

board_of-OwnedBy :
    (p : ProjectBlackboard) (key owner : String) (board : ℕ)
    → IsMade p
    → OwnedBy p owner board
    → key ≢ owner
    → OwnedBy ((board_of p key).0) owner board × ((board_of p key).1 ≢ board)
unfolding board_of
board_of-OwnedBy p key owner board h o other = elim (Option-cases (lookup key p.teams)) [
  | inl e ↦
      rw (e, board_of)
        (
          record {
            owner =
                ground
                  (arith, lookup-insert key owner (suc p.made) p.teams, eq_iff key owner, o.owner);
            only = λ k f. ground (
              arith,
              lookup-insert key k (suc p.made) p.teams,
              eq_iff key k,
              o.only k,
              f,
              o.is_made,
            );
            private = o.private;
            is_made = omega (arith, o.is_made);
          },
          λ same. omega (arith, same, o.is_made),
        )
  | inr (bb, e) ↦ rw (e, board_of) (o, λ same. other (o.only key (e ∙ ap some same)))
]

assign : String → ℕ → ProjectBlackboard → ProjectBlackboard
assign team bb p = record p { teams = insert team bb p.teams }

assign-IsMade :
    (p : ProjectBlackboard) (team : String) (bb : ℕ)
    → IsMade p
    → bb ≤ p.made
    → IsMade (assign team bb p)
unfolding assign
assign-IsMade p team bb h small = record {
  made = λ k b f. ground (arith, lookup-insert team k bb p.teams, h.made k b, f);
}

assign-OwnedBy :
    (p : ProjectBlackboard) (team owner : String) (bb board : ℕ)
    → OwnedBy p owner board
    → team ≢ owner
    → bb ≢ board
    → OwnedBy (assign team bb p) owner board
unfolding assign
assign-OwnedBy p team owner bb board o other away = record {
  owner = ground (arith, lookup-insert team owner bb p.teams, eq_iff team owner, o.owner);
  only = λ k f. ground (arith, lookup-insert team k bb p.teams, o.only k, f);
  private = o.private;
  is_made = o.is_made;
}

-- What a call leaves for the others' boards.
pub record Call (p : ProjectBlackboard) (team mode : String) (r : ProjectBlackboard × ℕ)
    : Type 0 where
  pub made : IsMade (r.0)
  pub grown : p.made ≤ r.0.made
  pub below : r.1 ≤ r.0.made
  pub kept :
      (owner : String) (board : ℕ)
      → OwnedBy p owner board
      → team ≢ owner
      → mode ≢ owner
      → OwnedBy (r.0) owner board × (r.1 ≢ board)
  pub absent :
      (k : String) → lookup k p.teams ≡ none → team ≢ k → mode ≢ k → lookup k (r.0.teams) ≡ none

Call-if :
    (p : ProjectBlackboard) (team mode : String) (c : Bool) (x y : ProjectBlackboard × ℕ)
    → Call p team mode x
    → Call p team mode y
    → Call p team mode (if c then x else y)
Call-if p team mode true x y h k = h
Call-if p team mode false x y h k = k

pub shared-Call :
    (p : ProjectBlackboard) (team mode : String)
    → IsMade p
    → Call p team mode (record p { teams = insert team root p.teams }, root)
unfolding assign
shared-Call p team mode h = record {
  made = assign-IsMade p team root h (omega arith);
  grown = omega arith;
  below = omega arith;
  kept = λ owner board o t m.
      let away : root ≢ board = λ e. o.private (sym e) in
      (assign-OwnedBy p team owner root board o t away, away);
  absent = λ k new t m. ground (arith, lookup-insert team k root p.teams, eq_iff team k, new);
}

board_of-grown : (p : ProjectBlackboard) (key : String) → p.made ≤ (board_of p key).0.made
unfolding board_of
board_of-grown p key = elim (Option-cases (lookup key p.teams)) [
  | inl e ↦ rw (e, board_of) (omega arith)
  | inr (bb, e) ↦ rw (e, board_of) (omega arith)
]

board_of-absent :
    (p : ProjectBlackboard) (key k : String)
    → lookup k p.teams ≡ none
    → key ≢ k
    → lookup k ((board_of p key).0.teams) ≡ none
unfolding board_of
board_of-absent p key k new other = elim (Option-cases (lookup key p.teams)) [
  | inl e ↦
      rw (e, board_of) (ground (arith, lookup-insert key k (suc p.made) p.teams, eq_iff key k, new))
  | inr (bb, e) ↦ rw (e, board_of) new
]

own-Call :
    (p : ProjectBlackboard) (team mode : String) → IsMade p → Call p team mode (board_of p team)
own-Call p team mode h =
    let b = board_of_lem p team h in
    record {
      made = b.made;
      grown = board_of-grown p team;
      below = b.below;
      kept = λ owner board o t m. board_of-OwnedBy p team owner board h o t;
      absent = λ k new t m. board_of-absent p team k new t;
    }

bridge-Call :
    (p : ProjectBlackboard) (team mode : String)
    → IsMade p
    → Call p team mode
        (let (p', bb) = board_of p mode in (record p' { teams = insert team bb p'.teams }, bb))
unfolding assign
bridge-Call p team mode h =
    let b = board_of_lem p mode h in
    record {
      made = assign-IsMade ((board_of p mode).0) team _ b.made b.below;
      grown = board_of-grown p mode;
      below = b.below;
      kept = λ owner board o t m.
          let (o', away) = board_of-OwnedBy p mode owner board h o m in
          (assign-OwnedBy ((board_of p mode).0) team owner _ board o' t away, away);
      absent = λ k new t m. ground (
        arith,
        lookup-insert team k ((board_of p mode).1) ((board_of p mode).0.teams),
        eq_iff team k,
        board_of-absent p mode k new m,
      );
    }

pub in_mode_lem :
    (p : ProjectBlackboard) (team mode : String) → IsMade p → Call p team mode (in_mode p team mode)
unfolding in_mode
in_mode_lem p team mode h = Call-if p team mode (mode == "shared") _ _ (shared-Call p team mode h) (
    Call-if p team mode (mode == "isolated") _ _ (own-Call p team mode h) (
      Call-if p team mode (mode == "orchestrator") _ _ (own-Call p team mode h) (
        Call-if p team mode (starts_with mode "bridge:") _ _ (bridge-Call p team mode h) (record {
          made = h;
          grown = omega arith;
          below = omega arith;
          kept = λ owner board o t m. (o, λ e. o.private (sym e));
          absent = λ k new t m. new;
        }))))
