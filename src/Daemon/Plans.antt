-- ===== src/Daemon/Plans.antt =====
-- internal/daemon/plans.go. Each method runs under the manager's lock. Ids and times are arguments;
-- `hooked` says whether an engine or hooks are configured, and a hook that runs is an event.
use ratchet_cli.Base.{
  ℕ, ◌+◌, String, Bool, true, false, not, ◌&&◌, ◌||◌, Option, none, some, List, [], ◌∷◌, ◌++◌, map,
  any, ltb, if◌then◌else◌, ◌==◌,
}
use ratchet_cli.Base.Dict.{Dict, lookup, insert, remove}
pub mod Lifecycle
pub mod Decisions

pub record PlanStep : Type 0 where
  pub id : String
  pub status : String
  pub error : String

pub record Plan : Type 0 where
  pub session_id : String
  pub goal : String
  pub steps : List PlanStep
  pub status : String
  pub feedback : String
  pub created_at : ℕ

pub record PlanManager : Type 0 where
  pub plans : Dict Plan
  pub completed_at : Dict ℕ
  pub hooked : Bool

pub data PlanError : Type 0 where
  plan_not_found step_not_found not_proposed cannot_be_rejected : PlanError

pub data HookEvent : Type 0 where
  pre_plan post_plan : String → HookEvent

abbrev pub Result : Type 0
Result = PlanManager × Option PlanError × List HookEvent

abbrev pub new_plan_manager : Bool → PlanManager
new_plan_manager hooked = record { plans = []; completed_at = []; hooked = hooked }

-- the loop of purgeTerminal
unfoldable pub purge_from : ℕ → ℕ → Dict ℕ → PlanManager → PlanManager
unfolding remove
purge_from now ttl [] pm = pm
purge_from now ttl ((id, ts) ∷ rest) pm =
    let kept = purge_from now ttl rest pm in
    if ltb (ts + ttl) now
    then record kept { plans = remove id kept.plans; completed_at = remove id kept.completed_at }
    else kept

-- purgeTerminal
unfoldable pub purge_terminal : ℕ → ℕ → PlanManager → PlanManager
unfolding purge_from
purge_terminal now ttl pm = purge_from now ttl pm.completed_at pm

-- Create
unfoldable pub create : String → ℕ → String → String → List PlanStep → PlanManager → PlanManager
unfolding insert
create id now session goal steps pm =
    let plan : Plan = record {
      session_id = session;
      goal = goal;
      steps = steps;
      status = "proposed";
      feedback = "";
      created_at = now;
    } in
    record pm { plans = insert id plan pm.plans }

-- ForSession
unfoldable pub for_session : String → Dict Plan → List Plan
for_session session [] = []
for_session session ((id, p) ∷ ps) =
    let rest = for_session session ps in if p.session_id == session then p ∷ rest else rest

-- one step in the loop of Approve
abbrev pub skip_step : List String → PlanStep → PlanStep
skip_step skips s = if any (λ k. k == s.id) skips then record s { status = "skipped" } else s

abbrev pub fired : PlanManager → HookEvent → List HookEvent
fired pm e = if pm.hooked then e ∷ [] else []

-- Approve
unfoldable pub approve : String → List String → ℕ → PlanManager → Result
unfolding lookup insert
approve id skips now pm = elim (lookup id pm.plans) [
  | none ↦ (pm, some plan_not_found, [])
  | some plan ↦
      let approved : Plan = record plan {
        steps = map (skip_step skips) plan.steps;
        status = "approved";
      } in
      if not (plan.status == "proposed") then (pm, some not_proposed, []) else (
        record pm {
          plans = insert id approved pm.plans;
          completed_at = insert id now pm.completed_at;
        },
        none,
        fired pm (pre_plan id),
      )
]

-- the switch of Reject
abbrev pub is_terminal : String → Bool
is_terminal s = (s == "approved") || (s == "executing") || (s == "completed") || (s == "rejected")

-- Reject
unfoldable pub reject : String → String → ℕ → PlanManager → Result
unfolding lookup insert
reject id feedback now pm = elim (lookup id pm.plans) [
  | none ↦ (pm, some plan_not_found, [])
  | some plan ↦
      let rejected : Plan = record plan { status = "rejected"; feedback = feedback } in
      if is_terminal plan.status then (pm, some cannot_be_rejected, []) else (
        record pm {
          plans = insert id rejected pm.plans;
          completed_at = insert id now pm.completed_at;
        },
        none,
        [],
      )
]

-- the first loop of UpdateStep; `none` is a step that is not found
unfoldable pub set_step : String → String → String → List PlanStep → Option (List PlanStep)
set_step id status error [] = none
set_step id status error (s ∷ ss) =
    let rest = set_step id status error ss in
    let s' : PlanStep = record s { status = status; error = error } in
    if s.id == id then some (s' ∷ ss) else elim rest [ none ↦ none | some ss' ↦ some (s ∷ ss') ]

-- the second loop of UpdateStep
unfoldable pub all_done : List PlanStep → Bool
all_done [] = true
all_done (s ∷ ss) =
    if s.status == "skipped"
    then all_done ss
    else if not (s.status == "completed") && not (s.status == "failed")
    then false
    else all_done ss

-- UpdateStep
unfoldable pub update_step : String → String → String → String → PlanManager → Result
unfolding lookup insert set_step all_done
update_step id step status error pm = elim (lookup id pm.plans) [
  | none ↦ (pm, some plan_not_found, [])
  | some plan ↦ elim (set_step step status error plan.steps) [
    | none ↦ (pm, some step_not_found, [])
    | some steps ↦
        let completes = all_done steps && (plan.status == "executing") in
        let updated : Plan = record plan {
          steps = steps;
          status = if completes then "completed" else plan.status;
        } in
        (
          record pm { plans = insert id updated pm.plans },
          none,
          if completes then fired pm (post_plan id) else [],
        )
  ]
]
