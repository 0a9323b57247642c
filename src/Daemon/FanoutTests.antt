-- ===== src/Daemon/FanoutTests.antt =====
-- The theorems on the broadcaster and the autoresponder at concrete inputs.
use ratchet_cli.Base.{
  ℕ, ◌≡◌, refl, String, Bool, ◌&&◌, Option, none, some, List, [], ◌∷◌, ◌==◌, if◌then◌else◌,
}
use ratchet_cli.Base.Dict.{apply_at}
use ratchet_cli.Daemon.Broadcaster.{SessionBroadcaster, subscribe, push, publish}
use ratchet_cli.Daemon.Broadcaster.Fanout.{channel, fanout}
use ratchet_cli.Daemon.Autoresponder.{AutorespondRule, new_autoresponder, match_question}
use ratchet_cli.Daemon.Autoresponder.Priority.{first_applying, decision_of, first_rule_decides}

abbrev two_sessions : SessionBroadcaster ℕ
two_sessions = ("s1", ("a", 7 ∷ []) ∷ ("b", []) ∷ []) ∷ ("s2", ("c", []) ∷ []) ∷ []

fanout_example :
    (channel "s1" "a" (publish "s1" 8 two_sessions) ≡ (
      if "s1" == "s1"
      then apply_at (push 8) (channel "s1" "a" two_sessions)
      else channel "s1" "a" two_sessions))
    × (channel "s1" "a" (subscribe "s1" "d" two_sessions)
        ≡ (if ("s1" == "s1") && ("d" == "a") then some [] else channel "s1" "a" two_sessions))
fanout_example = fanout "s1" "d" 8 two_sessions "s1" "a"

-- a library of expressions that knows the literal ones
abbrev literal : String → Option (String → Bool)
literal e = if e == "(?i)[" then none else some (λ s. e == "(?i)go on")

abbrev rules : List AutorespondRule
rules =
    record { match_ = "["; action = "reply"; message = "bad" }
    ∷ record { match_ = "go on"; action = "approve"; message = "" }
    ∷ record { match_ = "*"; action = "reply"; message = "later" }
    ∷ []

decided :
    match_question (λ s. s) (new_autoresponder literal rules) "go on" ≡ ("approve", "approved")
unfolding match_question new_autoresponder
decided = refl

first_rule_decides_example :
    match_question (λ s. s) (new_autoresponder literal rules) "go on"
    ≡ decision_of literal (first_applying literal "go on" rules)
first_rule_decides_example = first_rule_decides literal (λ s. s) rules "go on"
