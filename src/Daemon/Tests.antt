-- ===== src/Daemon/Tests.antt =====
-- The daemon's theorems at concrete inputs.
use ratchet_cli.Base.{
  ℕ, ◌≡◌, refl, String, true, false, none, some, List, [], ◌∷◌, arith, ◌==◌, eq_iff, if◌then◌else◌,
}
use ratchet_cli.Base.Dict.{lookup}
use ratchet_cli.Daemon.Plans.{
  Plan, PlanStep, PlanManager, not_proposed, cannot_be_rejected, new_plan_manager, create, approve,
  reject, update_step,
}
use ratchet_cli.Daemon.Plans.Lifecycle.{
  creates, approves, updates, Reachable, starts, follows, IsSound, Reachable-IsSound,
}
use ratchet_cli.Daemon.Plans.Decisions.{Stands, decision-Stands}
use ratchet_cli.Daemon.Schedule.{
  pos, TextLibrary, interval, is_positive, parse_minute, parse_schedule,
  must_parse_schedule_duration,
}
use ratchet_cli.Daemon.Schedule.Bounds.{IsPositive, schedule-IsPositive, step_overflow}

abbrev first_step : PlanStep
first_step = record { id = "1"; status = "pending"; error = "" }

abbrev proposed : PlanManager
proposed = create "p1" 10 "s1" "ship it" (first_step ∷ []) (new_plan_manager true)

abbrev chosen : PlanManager
chosen = (approve "p1" ("1" ∷ []) 20 proposed).0

chosen-Reachable : Reachable true chosen
chosen-Reachable =
    follows
      (follows starts (
        creates "p1" 10 "s1" "ship it" (first_step ∷ []) (unfold lookup in refl)
          (unfold lookup in refl)))
      (approves "p1" ("1" ∷ []) 20)

Reachable-IsSound_example : IsSound chosen
Reachable-IsSound_example = Reachable-IsSound true chosen-Reachable

abbrev chosen_plan : Plan
chosen_plan = record {
  session_id = "s1";
  goal = "ship it";
  steps = record { id = "1"; status = "skipped"; error = "" } ∷ [];
  status = "approved";
  feedback = "";
  created_at = 10;
}

chosen_found : lookup "p1" chosen.plans ≡ some chosen_plan
unfolding approve create lookup
chosen_found = refl

decision-Stands_example :
    Stands "p1" "approved" ((update_step "p1" "1" "completed" "" chosen).0)
    × ((skips : List String) (now : ℕ)
        → approve "p1" skips now chosen ≡ (chosen, some not_proposed, []))
    × ((feedback : String) (now : ℕ)
        → reject "p1" feedback now chosen ≡ (chosen, some cannot_be_rejected, []))
decision-Stands_example =
    decision-Stands chosen _ "p1" chosen_plan (Reachable-IsSound true chosen-Reachable) chosen_found
      (λ e. ground (arith, (eq_iff "approved" "proposed").1 e)) (updates "p1" "1" "completed" "")

-- a text library that knows one schedule of each number
abbrev one_step : ℕ → TextLibrary
one_step n = record {
  trim_space = λ s. s;
  parse_duration = λ s. none;
  fields = λ s. "*/n" ∷ "*" ∷ "*" ∷ "*" ∷ "*" ∷ [];
  cut_step = λ s. if s == "*/n" then some "n" else none;
  atoi = λ s. if s == "n" then some (pos n) else none;
}

schedule-IsPositive_example :
    IsPositive (parse_schedule (one_step 10) "*/n * * * *")
    × (is_positive (must_parse_schedule_duration (one_step 10) "*/n * * * *") ≡ true)
schedule-IsPositive_example =
    schedule-IsPositive (one_step 10) "*/n * * * *" (λ step n e a. ground (arith, e, a))

step_overflow_example :
    (d : ℕ) × (parse_minute (one_step 153722868) "*/n" ≡ interval d) × (is_positive d ≡ false)
step_overflow_example =
    step_overflow (one_step 153722868) "*/n" "n" 153722868 refl refl (omega arith) (omega arith)
