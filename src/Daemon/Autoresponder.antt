-- ===== src/Daemon/Autoresponder.antt =====
-- internal/daemon/autoresponder.go. Regular expressions are a parameter: `compile` gives the matcher
-- of a text, or `none` for one that is not valid; `to_lower` is strings.ToLower.
use ratchet_cli.Base.{
  String, Bool, true, false, Option, none, some, List, [], ◌∷◌, if◌then◌else◌, ◌==◌,
}
use Prim.Native.String.{◌++◌ as join}
pub mod Priority

pub record AutorespondRule : Type 0 where
  pub match_ : String
  pub action : String
  pub message : String

-- `pattern` is nil for a catch-all.
pub record CompiledRule : Type 0 where
  pub pattern : Option (String → Bool)
  pub action : String
  pub message : String
  pub catch_all : Bool

module _ (compile : String → Option (String → Bool)) where
  -- one rule in the loop of NewAutoresponder
  unfoldable pub compile_rule : AutorespondRule → Option CompiledRule
  compile_rule r =
      let all : CompiledRule = record {
        pattern = none;
        action = r.action;
        message = r.message;
        catch_all = true;
      } in
      if r.match_ == "*" then some all else elim (compile (join "(?i)" r.match_)) [
        | none ↦ none
        | some re ↦
            let one : CompiledRule = record {
              pattern = some re;
              action = r.action;
              message = r.message;
              catch_all = false;
            } in
            some one
      ]

  -- NewAutoresponder
  unfoldable pub new_autoresponder : List AutorespondRule → List CompiledRule
  unfolding compile_rule
  new_autoresponder [] = []
  new_autoresponder (r ∷ rs) = elim (compile_rule r) [
    | none ↦ new_autoresponder rs
    | some c ↦ c ∷ new_autoresponder rs
  ]

-- the switch of Match on a rule whose pattern matches
unfoldable pub answer : CompiledRule → String × String
answer r =
    if r.action == "approve"
    then ("approve", "approved")
    else if r.action == "reply"
    then ("reply", r.message)
    else (r.action, r.message)

abbrev pub pattern_matches : Option (String → Bool) → String → Bool
pattern_matches none text = false
pattern_matches (some re) text = re text

-- Match, on the question in lower case
unfoldable pub match_lower : List CompiledRule → String → String × String
unfolding answer
match_lower [] lower = ("queue", "")
match_lower (r ∷ rs) lower =
    let rest = match_lower rs lower in
    if r.catch_all
    then (r.action, r.message)
    else if pattern_matches r.pattern lower
    then answer r
    else rest

-- Match
unfoldable pub match_question : (String → String) → List CompiledRule → String → String × String
unfolding match_lower
match_question to_lower rules question = match_lower rules (to_lower question)
