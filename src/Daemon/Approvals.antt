-- ===== src/Daemon/Approvals.antt =====
-- internal/daemon/approval_gate.go. A channel is known by its index; each holds at most one response.
-- A wait is a request and one of its three ends, with other calls of the gate between them.
use ratchet_cli.Base.{
  ℕ, ◌+◌, String, Bool, true, false, Option, none, some, List, [], ◌∷◌, length, eqb, if◌then◌else◌,
  ◌==◌,
}
use ratchet_cli.Base.Dict.{Dict, lookup, insert, remove}
pub mod Resolution

pub record ApprovalResponse : Type 0 where
  pub approved : Bool
  pub reason : String

pub record ApprovalGate : Type 0 where
  pub pending : Dict ℕ
  pub channels : ℕ → List ApprovalResponse
  pub made : ℕ

abbrev pub new_approval_gate : ApprovalGate
new_approval_gate = record { pending = []; channels = λ c. []; made = 0 }

-- Request
unfoldable pub request : String → ApprovalGate → ApprovalGate × ℕ
unfolding insert
request id g = (record g { pending = insert id g.made g.pending; made = g.made + 1 }, g.made)

-- Resolve; `none` is a send that blocks
unfoldable pub resolve : String → ApprovalResponse → ApprovalGate → Option (ApprovalGate × Bool)
unfolding lookup remove
resolve id response g = elim (lookup id g.pending) [
  | none ↦ some (g, false)
  | some ch ↦
      let sent : ApprovalGate = record g {
        pending = remove id g.pending;
        channels = λ c. if eqb ch c then response ∷ [] else g.channels c;
      } in
      elim (g.channels ch) [ [] ↦ some (sent, true) | _ ∷ _ ↦ none ]
]

pub data ApprovalStatus : Type 0 where
  approved rejected timeout : ApprovalStatus

-- The ends of the select of WaitForResolution: the timer, or the context.
unfoldable pub abandon : String → ApprovalGate → ApprovalGate
unfolding remove
abandon id g = record g { pending = remove id g.pending }

-- A receive at the channel, with the status and the comment of the record; `none` blocks.
unfoldable pub receive_resolution :
    ℕ → ApprovalGate → Option (ApprovalGate × ApprovalStatus × String)
receive_resolution ch g = elim (g.channels ch) [
  | [] ↦ none
  | r ∷ rest ↦
      let received : ApprovalGate = record g {
        channels = λ c. if eqb ch c then rest else g.channels c;
      } in
      some (received, if r.approved then approved else rejected, r.reason)
]

-- PendingCount
unfoldable pub pending_count : ApprovalGate → ℕ
pending_count g = length g.pending
