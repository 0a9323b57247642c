-- ===== src/Daemon/HumanGate/Answers.antt =====
-- A request and its answer.
use ratchet_cli.Base.{
  ℕ, ◌≡◌, ◌≢◌, refl, inl, inr, String, false, none, some, arith, eq_iff, Option-cases,
}
use ratchet_cli.Base.Dict.{lookup, insert, remove, lookup-insert, lookup-remove}
use ratchet_cli.Daemon.HumanGate.{
  HumanGate, HumanRequestEntry, returns, request_not_found, blocks, request, wait, respond,
}

waits :
    (id : String) (hg : HumanGate) (e : HumanRequestEntry)
    → lookup id hg ≡ some e
    → e.response ≡ none
    → (wait false false id hg).1 ≡ blocks
unfolding wait
waits id hg e found empty = rw (found, empty, wait) refl

waits_answered :
    (id answer : String) (hg : HumanGate) (e : HumanRequestEntry)
    → lookup id hg ≡ some e
    → e.response ≡ some answer
    → wait false false id hg ≡ (remove id hg, returns answer)
unfolding wait
waits_answered id answer hg e found full = rw (found, full, wait) refl

answers :
    (id answer : String) (hg : HumanGate) (e : HumanRequestEntry)
    → lookup id hg ≡ some e
    → e.response ≡ none
    → respond id answer hg ≡ (insert id (record e { response = some answer }) hg, returns "")
unfolding respond
answers id answer hg e found empty = rw (found, empty, respond) refl

unknown :
    (id answer : String) (hg : HumanGate)
    → lookup id hg ≡ none
    → respond id answer hg ≡ (hg, request_not_found)
unfolding respond
unknown id answer hg gone = rw (gone, respond) refl

lookup-inserted :
    (id : String) (e : HumanRequestEntry) (hg : HumanGate) → lookup id (insert id e hg) ≡ some e
lookup-inserted id e hg = ground (arith, lookup-insert id id e hg, eq_iff id id)

-- A wait blocks on a new request until the first response, which it returns; then the request is gone
-- for waits and responses, and another request is as it was.
pub request_answered :
    (id team agent question : String) (now : ℕ) (hg : HumanGate) (answer other k : String)
    → id ≢ k
    → let hg1 = request id team agent question now hg in
      let (hg2, sent) = respond id answer hg1 in
      let (hg3, got) = wait false false id hg2 in
      ((wait false false id hg1).1 ≡ blocks)
      × (sent ≡ returns "")
      × (got ≡ returns answer)
      × (respond id other hg3 ≡ (hg3, request_not_found))
      × (lookup k hg3 ≡ lookup k hg)
unfolding request
request_answered id team agent question now hg answer other k away =
    let e1 : HumanRequestEntry = record {
      team_id = team;
      from_agent = agent;
      question = question;
      timestamp = now;
      response = none;
    } in
    let e2 : HumanRequestEntry = record e1 { response = some answer } in
    let hg1 : HumanGate = insert id e1 hg in
    let hg2 : HumanGate = insert id e2 hg1 in
    let r = answers id answer hg1 e1 (lookup-inserted id e1 hg) refl in
    let w = waits_answered id answer hg2 e2 (lookup-inserted id e2 hg1) refl in
    let gone : lookup id (remove id hg2) ≡ none =
      ground (arith, lookup-remove id id hg2, eq_iff id id) in
    rw (r, w)
      (
        waits id hg1 e1 (lookup-inserted id e1 hg) refl,
        refl,
        refl,
        unknown id other (remove id hg2) gone,
        ground (
          arith,
          away,
          eq_iff id k,
          lookup-remove id k hg2,
          lookup-insert id k e2 hg1,
          lookup-insert id k e1 hg,
        ),
      )

-- A second response to a pending request, before a wait has taken the first, blocks.
pub respond_twice :
    (id : String) (hg : HumanGate) (entry : HumanRequestEntry) (first second : String)
    → lookup id hg ≡ some entry
    → (respond id second ((respond id first hg).0)).1 ≡ blocks
unfolding respond
respond_twice id hg entry first second found = elim (Option-cases (entry.response)) [
  | inl e ↦
      rw (found, e, respond)
        (rw (lookup-inserted id (record entry { response = some first }) hg) refl)
  | inr (r, e) ↦ rw (found, e, respond) (rw (found, e, respond) refl)
]
