-- ===== src/Mesh/RouterTests.antt =====
-- The theorems on routing and tracking at concrete inputs.
use ratchet_cli.Base.{ℕ, ◌≡◌, refl, none, some, List, [], ◌∷◌, ◌==◌, if◌then◌else◌}
use ratchet_cli.Base.Dict.{lookup, apply_at}
use ratchet_cli.Mesh.Router.{
  Message, Router, not_registered, offer, send, register, unregister, receive,
}
use ratchet_cli.Mesh.Router.Delivery.{is_for, send_lem}
use ratchet_cli.Mesh.Router.Runs.{
  Op, registers, unregisters, receives, sends, run, queue_run, run-refines,
}

abbrev hello : Message ℕ
hello = record { from = "a"; to = "*"; content = 7 }

abbrev nodes : Router ℕ
nodes = ("a", []) ∷ ("b", hello ∷ []) ∷ []

abbrev traffic : List (Op ℕ)
traffic = registers "c" ∷ sends hello ∷ receives "b" ∷ unregisters "a" ∷ []

inbox_of_c : lookup "c" (run traffic nodes) ≡ some (hello ∷ [])
unfolding lookup send offer register unregister receive
inbox_of_c = refl

send_lem_example :
    let (r', error) = send hello nodes in
    (lookup "b" r'
      ≡ (if is_for hello "b" then apply_at (offer hello) (lookup "b" nodes) else lookup "b" nodes))
    × (error ≡ (
        if hello.to == "*"
        then none
        else elim (lookup hello.to nodes) [ none ↦ some not_registered | some _ ↦ none ]))
send_lem_example = send_lem hello nodes "b"

run-refines_example : lookup "b" (run traffic nodes) ≡ queue_run "b" traffic (lookup "b" nodes)
run-refines_example = run-refines traffic nodes "b"
