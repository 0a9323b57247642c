-- ===== src/Daemon/GateTests.antt =====
-- The theorems on the daemon's gates at concrete inputs.
use ratchet_cli.Base.{◌≡◌, refl, true, false, none, some, [], ◌∷◌, arith, eq_iff, if◌then◌else◌}
use ratchet_cli.Base.Dict.{lookup}
use ratchet_cli.Daemon.Approvals.{
  ApprovalGate, ApprovalResponse, approved, rejected, new_approval_gate, request, resolve,
  receive_resolution,
}
use ratchet_cli.Daemon.Approvals.Resolution.{starts, follows, requests, taken, resolve_once}
use ratchet_cli.Daemon.HumanGate.{
  HumanGate, HumanRequestEntry, Outcome, returns, request_not_found, blocks, wait, respond,
}
use ratchet_cli.Daemon.HumanGate as Humans
use ratchet_cli.Daemon.HumanGate.Answers.{request_answered, respond_twice}

abbrev asked : ApprovalGate
asked = (request "a2" ((request "a1" new_approval_gate).0)).0

abbrev grant : ApprovalResponse
grant = record { approved = true; reason = "fine" }

abbrev deny : ApprovalResponse
deny = record { approved = false; reason = "no" }

resolve_once_example :
    (g' : ApprovalGate) × (resolve "a1" grant asked ≡ some (g', true))
    × (resolve "a1" deny g' ≡ some (g', false))
    × (receive_resolution 0 g'
        ≡ some (taken 0 [] g', if grant.approved then approved else rejected, grant.reason))
resolve_once_example =
    resolve_once asked "a1" 0 grant deny
      (follows (follows starts (requests "a1" new_approval_gate))
        (requests "a2" ((request "a1" new_approval_gate).0)))
      (unfold lookup request in refl)

abbrev entry : HumanRequestEntry
entry = record {
  team_id = "red";
  from_agent = "ann";
  question = "why";
  timestamp = 5;
  response = none;
}

respond_twice_example : (respond "h1" "no" ((respond "h1" "ok" (("h1", entry) ∷ [])).0)).1 ≡ blocks
respond_twice_example =
    respond_twice "h1" (("h1", entry) ∷ []) entry "ok" "no" (unfold lookup in refl)

request_answered_example :
    let hg1 = Humans.request "h2" "blue" "bob" "how" 6 (("h1", entry) ∷ []) in
    let (hg2, sent) = respond "h2" "so" hg1 in
    let (hg3, got) = wait false false "h2" hg2 in
    ((wait false false "h2" hg1).1 ≡ blocks)
    × (sent ≡ returns "")
    × (got ≡ returns "so")
    × (respond "h2" "late" hg3 ≡ (hg3, request_not_found))
    × (lookup "h1" hg3 ≡ lookup "h1" (("h1", entry) ∷ []))
request_answered_example =
    request_answered "h2" "blue" "bob" "how" 6 (("h1", entry) ∷ []) "so" "late" "h1"
      (λ e. ground (arith, (eq_iff "h2" "h1").1 e))
