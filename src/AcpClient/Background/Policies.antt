-- ===== src/AcpClient/Background/Policies.antt =====
-- BackgroundPolicy and BackgroundStore of internal/acpclient/background.go: the policies, and the
-- journal of the transitions that are not recorded yet. A time is a number, and 0 is Go's zero time.
use ratchet_cli.Base.{
  ℕ, String, Bool, true, false, Option, none, some, List, [], ◌∷◌, ◌++◌, ◌==◌, map, ◌⊎◌, inl, inr,
  trim_space, if◌then◌else◌,
}
use ratchet_cli.AcpClient.Background.Keyed.{find_by, replace_by, sort_by, without}

-- Go's string constants. `other` is any string that is none of them.
pub data BackgroundState : Type 0 where
  running blocked error disabled : BackgroundState
  other : String → BackgroundState

pub data Outcome : Type 0 where
  started resumed stopped profile_untrusted profile_drift profile_missing : Outcome
  session_missing policy_invalid worker_error worker_panic completed : Outcome
  state_write_failed audit_append_failed : Outcome
  other : String → Outcome

pub data Action : Type 0 where
  start resume block error stop : Action
  other : String → Action

pub record BackgroundPolicy : Type 0 where
  pub session_id : String
  pub profile : String
  pub descriptor_hash : String
  pub policy_version : ℕ
  pub acknowledged_at : ℕ
  pub enabled : Bool
  pub state : BackgroundState
  pub outcome : Outcome
  pub persistence_degraded : Bool
  pub started_at : ℕ
  pub updated_at : ℕ

pub record Transition : Type 0 where
  pub policy : BackgroundPolicy
  pub action : Action
  pub event_id : String

abbrev pub policy_key : BackgroundPolicy → String
policy_key p = p.session_id

abbrev pub transition_key : Transition → String
transition_key t = t.policy.session_id

-- The two files of a BackgroundStore. An absent file has no element.
pub record Files : Type 0 where
  pub policies : List BackgroundPolicy
  pub transitions : List Transition

-- How a call that writes a file ends: it has written; it failed before the new file took the place of
-- the old one; or it failed after that.
pub data SaveReply : Type 0 where
  landed refused unconfirmed : SaveReply

abbrev pub is_refused : SaveReply → Bool
is_refused refused = true
is_refused _ = false

pub data PolicyError : Type 0 where
  session_required profile_required event_required not_found storage : PolicyError

abbrev pub is_not_found : PolicyError → Bool
is_not_found not_found = true
is_not_found _ = false

abbrev pub reply_error : SaveReply → Option PolicyError
reply_error landed = none
reply_error _ = some storage

-- the policies that `Upsert` saves
unfoldable pub upserted_policies : BackgroundPolicy → List BackgroundPolicy → List BackgroundPolicy
unfolding replace_by sort_by
upserted_policies p ps =
    sort_by policy_key (elim (replace_by policy_key p ps) [ none ↦ ps ++ p ∷ [] | some ps' ↦ ps' ])

-- the two trims of Upsert
unfoldable pub trimmed : BackgroundPolicy → BackgroundPolicy
unfolding trim_space
trimmed p = record p { session_id = trim_space p.session_id; profile = trim_space p.profile }

-- Upsert, after the two trims
unfoldable pub upsert_trimmed : SaveReply → BackgroundPolicy → Files → Files × Option PolicyError
unfolding upserted_policies
upsert_trimmed reply p d =
    if p.session_id == ""
    then (d, some session_required)
    else if p.profile == ""
    then (d, some profile_required)
    else if is_refused reply
    then (d, some storage)
    else (record d { policies = upserted_policies p d.policies }, reply_error reply)

-- Upsert
unfoldable pub upsert : SaveReply → BackgroundPolicy → Files → Files × Option PolicyError
unfolding trimmed upsert_trimmed
upsert reply p d = upsert_trimmed reply (trimmed p) d

-- List; `readable` says whether the lock and the load succeed
unfoldable pub list_policies : Bool → Files → Option (List BackgroundPolicy)
unfolding sort_by
list_policies readable d = if readable then some (sort_by policy_key d.policies) else none

-- Get of the store
unfoldable pub get_policy : Bool → String → Files → BackgroundPolicy ⊎ PolicyError
unfolding list_policies find_by
get_policy readable id d = elim (list_policies readable d) [
  | none ↦ inr storage
  | some ps ↦ elim (find_by policy_key id ps) [ none ↦ inr not_found | some p ↦ inl p ]
]

-- the transitions that `putTransition` writes; only a new one has them sorted
unfoldable pub journaled : Transition → List Transition → List Transition
unfolding replace_by sort_by
journaled t ts = elim (replace_by transition_key t ts) [
  | none ↦ sort_by transition_key (ts ++ t ∷ [])
  | some ts' ↦ ts'
]

-- putTransition
unfoldable pub put_transition : SaveReply → Transition → Files → Files × Option PolicyError
unfolding trim_space journaled
put_transition reply t d =
    if trim_space t.event_id == ""
    then (d, some event_required)
    else if is_refused reply
    then (d, some storage)
    else (record d { transitions = journaled t d.transitions }, reply_error reply)

-- listTransitionIDs
unfoldable pub list_transition_ids : Bool → Files → Option (List String)
list_transition_ids readable d = if readable then some (map transition_key d.transitions) else none

-- getTransition; `none` is an error, and `some none` that there is none
unfoldable pub get_transition : Bool → String → Files → Option (Option Transition)
unfolding find_by
get_transition readable id d =
    if readable then some (find_by transition_key id d.transitions) else none

-- removeTransition. Where no transition goes, the file is left as it is; where all go, it is removed.
unfoldable pub remove_transition : SaveReply → String → Files → Files × Option PolicyError
unfolding without
remove_transition reply id d =
    if is_refused reply
    then (d, some storage)
    else (record d { transitions = without transition_key id d.transitions }, reply_error reply)
