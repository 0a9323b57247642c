-- ===== src/Daemon/HumanGate.antt =====
-- internal/daemon/human_gate.go. An entry carries the buffer of its channel, of capacity one. A wait
-- is modelled at its end: with a response in the channel, or with a context that is done.
use ratchet_cli.Base.{
  ℕ, String, Bool, true, false, ◌||◌, Option, none, some, List, [], ◌∷◌, if◌then◌else◌, ◌==◌,
}
use ratchet_cli.Base.Dict.{Dict, lookup, insert, remove}
pub mod Answers

pub record HumanRequestEntry : Type 0 where
  pub team_id : String
  pub from_agent : String
  pub question : String
  pub timestamp : ℕ
  pub response : Option String

abbrev pub HumanGate : Type 0
HumanGate = Dict HumanRequestEntry

-- Request
unfoldable pub request : String → String → String → String → ℕ → HumanGate → HumanGate
unfolding insert
request id team agent question now hg =
    insert id
      (record {
        team_id = team;
        from_agent = agent;
        question = question;
        timestamp = now;
        response = none;
      })
      hg

-- What a call of the gate comes to: it returns, it fails, or it blocks.
pub data Outcome : Type 0 where
  returns : String → Outcome
  request_not_found context_done blocks : Outcome

-- Wait; the argument says whether the context is done. With both ends ready, Go picks one: the
-- argument `picks` says whether it takes the response.
unfoldable pub wait : Bool → Bool → String → HumanGate → HumanGate × Outcome
unfolding lookup remove
wait done picks id hg = elim (lookup id hg) [
  | none ↦ (hg, request_not_found)
  | some entry ↦ elim (entry.response) [
    | none ↦ if done then (remove id hg, context_done) else (hg, blocks)
    | some resp ↦
        if done
        then if picks then (remove id hg, returns resp) else (remove id hg, context_done)
        else (remove id hg, returns resp)
  ]
]

-- Respond
unfoldable pub respond : String → String → HumanGate → HumanGate × Outcome
unfolding lookup insert
respond id content hg = elim (lookup id hg) [
  | none ↦ (hg, request_not_found)
  | some entry ↦
      let answered : HumanRequestEntry = record entry { response = some content } in
      elim (entry.response) [ none ↦ (insert id answered hg, returns "") | some _ ↦ (hg, blocks) ]
]

-- Pending
unfoldable pub pending : String → HumanGate → HumanGate
pending team [] = []
pending team ((id, e) ∷ hg) =
    let rest = pending team hg in
    if (team == "") || (e.team_id == team) then (id, e) ∷ rest else rest
