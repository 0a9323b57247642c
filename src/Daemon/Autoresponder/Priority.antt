-- ===== src/Daemon/Autoresponder/Priority.antt =====
-- The first rule that applies decides.
use ratchet_cli.Base.{
  ◌≡◌, refl, ◌∙◌, inl, inr, String, Bool, true, false, not, ◌&&◌, Option, none, some, List, [], ◌∷◌,
  arith, if◌then◌else◌, ◌==◌, eq_iff, Option-cases, Bool-cases,
}
use Prim.Native.String.{◌++◌ as join}
use ratchet_cli.Daemon.Autoresponder.{
  AutorespondRule, compile_rule, new_autoresponder, answer, match_lower, match_question,
}

module _ (compile : String → Option (String → Bool)) where
  -- The rule is a catch-all, or its expression is valid and matches.
  unfoldable pub applies : String → AutorespondRule → Bool
  applies lower r =
      if r.match_ == "*"
      then true
      else elim (compile (join "(?i)" r.match_)) [ none ↦ false | some re ↦ re lower ]

  -- what a rule that applies decides
  unfoldable pub decision : AutorespondRule → String × String
  decision r =
      if (r.action == "approve") && not (r.match_ == "*")
      then ("approve", "approved")
      else (r.action, r.message)

  match-passed :
      (lower : String) (r : AutorespondRule) (rs : List AutorespondRule)
      → applies lower r ≡ false
      → match_lower (new_autoresponder compile (r ∷ rs)) lower
        ≡ match_lower (new_autoresponder compile rs) lower
  unfolding applies new_autoresponder compile_rule match_lower
  match-passed lower r rs h = elim (Bool-cases (r.match_ == "*")) [
    | inl s ↦ absurd (ground (arith, s, h))
    | inr s ↦ elim (Option-cases (compile (join "(?i)" r.match_))) [
      | inl c ↦ ground (arith, s, c)
      | inr (re, c) ↦ ground (arith, s, c, h)
    ]
  ]

  match-first :
      (lower : String) (r : AutorespondRule) (rs : List AutorespondRule)
      → applies lower r ≡ true
      → match_lower (new_autoresponder compile (r ∷ rs)) lower ≡ decision r
  unfolding applies decision new_autoresponder compile_rule match_lower answer
  match-first lower r rs h = elim (Bool-cases (r.match_ == "*")) [
    | inl s ↦ ground (arith, s)
    | inr s ↦ elim (Option-cases (compile (join "(?i)" r.match_))) [
      | inl c ↦ absurd (ground (arith, s, c, h))
      | inr (re, c) ↦ ground (arith, s, c, h, eq_iff r.action "reply")
    ]
  ]

  -- the first rule of the configuration that applies
  abbrev pub first_applying : String → List AutorespondRule → Option AutorespondRule
  first_applying lower [] = none
  first_applying lower (r ∷ rs) =
      let rest = first_applying lower rs in if applies lower r then some r else rest

  abbrev pub decision_of : Option AutorespondRule → String × String
  decision_of none = ("queue", "")
  decision_of (some r) = decision r

  match_lower-first_applying :
      (lower : String) (rules : List AutorespondRule)
      → match_lower (new_autoresponder compile rules) lower
        ≡ decision_of (first_applying lower rules)
  match_lower-first_applying lower [] = unfold match_lower new_autoresponder in refl
  match_lower-first_applying lower (r ∷ rs) = elim (Bool-cases (applies lower r)) [
    | inl e ↦ rw e (match-first lower r rs e)
    | inr e ↦ rw e (match-passed lower r rs e ∙ match_lower-first_applying lower rs)
  ]

  -- A question in lower case is decided by the first rule of the configuration that applies to it,
  -- rules that do not compile left out, and is queued if there is none. An expression that approves
  -- answers "approved"; every other rule answers its own message.
  pub first_rule_decides :
      (to_lower : String → String) (rules : List AutorespondRule) (question : String)
      → match_question to_lower (new_autoresponder compile rules) question
        ≡ decision_of (first_applying (to_lower question) rules)
  unfolding match_question
  first_rule_decides to_lower rules question = match_lower-first_applying (to_lower question) rules
