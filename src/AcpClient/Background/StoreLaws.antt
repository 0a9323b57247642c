-- ===== src/AcpClient/Background/StoreLaws.antt =====
-- What the writes of BackgroundStore in internal/acpclient/background.go leave for its searches.
use mathlib.Core.Path.{subst}
use ratchet_cli.Base.{
  ◌≡◌, refl, sym, ap, ◌∙◌, String, false, Option, none, some, List, [], ◌∷◌, ◌++◌, ◌==◌, eq_refl,
  ◌⊎◌, inl, inr, trim_space, if◌then◌else◌, Bool-cases, Option-cases,
}
use ratchet_cli.AcpClient.Background.Keyed.{
  find_by, replace_by, without, find_by-replace_by, find_by-append, find_by-sort_by,
  find_by-without,
}
use ratchet_cli.AcpClient.Background.Policies.{
  BackgroundPolicy, Transition, policy_key, transition_key, Files, SaveReply, landed, refused,
  unconfirmed, PolicyError, trimmed, upserted_policies, upsert_trimmed, upsert, journaled,
  put_transition, remove_transition,
}

abbrev pub stored : String → Files → Option BackgroundPolicy
stored id d = find_by policy_key id d.policies

abbrev pub journal_at : String → Files → Option Transition
journal_at id d = find_by transition_key id d.transitions

-- A policy that the trims of Upsert leave as it is.
pub record IsTrimmed (p : BackgroundPolicy) : Type 0 where
  pub session_id : trim_space p.session_id ≡ p.session_id
  pub profile : trim_space p.profile ≡ p.profile
  pub has_session : p.session_id == "" ≡ false
  pub has_profile : p.profile == "" ≡ false

trimmed_same : (p : BackgroundPolicy) → IsTrimmed p → trimmed p ≡ p
unfolding trimmed
trimmed_same p h = rw (h.session_id, h.profile) refl

pub find_by-upserted_policies :
    (p : BackgroundPolicy) (ps : List BackgroundPolicy) (id : String)
    → find_by policy_key id (upserted_policies p ps)
      ≡ (if p.session_id == id then some p else find_by policy_key id ps)
unfolding upserted_policies
find_by-upserted_policies p ps id = elim (Option-cases (replace_by policy_key p ps)) [
  | inl n ↦
      rw (n, upserted_policies)
        (find_by-sort_by policy_key (ps ++ p ∷ []) id ∙ find_by-append policy_key p ps id n)
  | inr (qs, n) ↦
      rw (n, upserted_policies)
        (find_by-sort_by policy_key qs id ∙ find_by-replace_by policy_key p ps qs id n)
]

stored-upserted_policies :
    (p : BackgroundPolicy) (ps : List BackgroundPolicy)
    → find_by policy_key p.session_id (upserted_policies p ps) ≡ some p
stored-upserted_policies p ps =
    find_by-upserted_policies p ps p.session_id ∙ rw (eq_refl p.session_id) refl

journal_at-journaled :
    (t : Transition) (ts : List Transition)
    → find_by transition_key t.policy.session_id (journaled t ts) ≡ some t
unfolding journaled
journal_at-journaled t ts =
    let id = t.policy.session_id in
    elim (Option-cases (replace_by transition_key t ts)) [
      | inl n ↦
          rw (n, journaled)
            (find_by-sort_by transition_key (ts ++ t ∷ []) id
              ∙ find_by-append transition_key t ts id n
              ∙ rw (eq_refl id) refl)
      | inr (us, n) ↦
          rw (n, journaled) (find_by-replace_by transition_key t ts us id n ∙ rw (eq_refl id) refl)
    ]

same_upsert :
    (reply : SaveReply) (p : BackgroundPolicy) (d : Files)
    → IsTrimmed p
    → upsert reply p d ≡ upsert_trimmed reply p d
unfolding upsert
same_upsert reply p d h = ap (λ (q : BackgroundPolicy). upsert_trimmed reply q d) (trimmed_same p h)

-- What Upsert of a policy makes of the files, and its error.
pub record Upserted (p : BackgroundPolicy) (d : Files) (r : Files × Option PolicyError)
    : Type 0 where
  pub transitions : r.0.transitions ≡ d.transitions
  pub done : r.1 ≡ none → stored p.session_id r.0 ≡ some p
  pub either :
      (stored p.session_id r.0 ≡ some p) ⊎ (stored p.session_id r.0 ≡ stored p.session_id d)

-- What putTransition makes of them.
pub record Journaled (t : Transition) (d : Files) (r : Files × Option PolicyError) : Type 0 where
  pub policies : r.0.policies ≡ d.policies
  pub done : r.1 ≡ none → journal_at t.policy.session_id r.0 ≡ some t
  pub either : (journal_at t.policy.session_id r.0 ≡ some t) ⊎ (r.0 ≡ d)

-- What removeTransition makes of them.
pub record Cleared (id : String) (d : Files) (r : Files × Option PolicyError) : Type 0 where
  pub policies : r.0.policies ≡ d.policies
  pub done : r.1 ≡ none → journal_at id r.0 ≡ none
  pub either : (journal_at id r.0 ≡ none) ⊎ (journal_at id r.0 ≡ journal_at id d)

upsert_trimmed-Upserted :
    (reply : SaveReply) (p : BackgroundPolicy) (d : Files)
    → IsTrimmed p
    → Upserted p d (upsert_trimmed reply p d)
unfolding upsert_trimmed
upsert_trimmed-Upserted refused p d h =
    rw (h.has_session, h.has_profile, upsert_trimmed)
      (record { transitions = refl; done = λ e. absurd (cc e); either = inr refl })
upsert_trimmed-Upserted landed p d h =
    let now = stored-upserted_policies p d.policies in
    rw (h.has_session, h.has_profile, upsert_trimmed)
      (record { transitions = refl; done = λ e. now; either = inl now })
upsert_trimmed-Upserted unconfirmed p d h =
    let now = stored-upserted_policies p d.policies in
    rw (h.has_session, h.has_profile, upsert_trimmed)
      (record { transitions = refl; done = λ e. now; either = inl now })

pub upsert-Upserted :
    (reply : SaveReply) (p : BackgroundPolicy) (d : Files)
    → IsTrimmed p
    → Upserted p d (upsert reply p d)
upsert-Upserted reply p d h =
    subst (Upserted p d) (sym (same_upsert reply p d h)) (upsert_trimmed-Upserted reply p d h)

event_put-Journaled :
    (reply : SaveReply) (t : Transition) (d : Files)
    → trim_space t.event_id == "" ≡ false
    → Journaled t d (put_transition reply t d)
unfolding put_transition
event_put-Journaled refused t d h =
    rw (h, put_transition)
      (record { policies = refl; done = λ e. absurd (cc e); either = inr refl })
event_put-Journaled landed t d h =
    let now = journal_at-journaled t d.transitions in
    rw (h, put_transition) (record { policies = refl; done = λ e. now; either = inl now })
event_put-Journaled unconfirmed t d h =
    let now = journal_at-journaled t d.transitions in
    rw (h, put_transition) (record { policies = refl; done = λ e. now; either = inl now })

pub put_transition-Journaled :
    (reply : SaveReply) (t : Transition) (d : Files) → Journaled t d (put_transition reply t d)
unfolding put_transition
put_transition-Journaled reply t d = elim (Bool-cases (trim_space t.event_id == "")) [
  | inl q ↦
      rw (q, put_transition)
        (record { policies = refl; done = λ e. absurd (cc e); either = inr refl })
  | inr q ↦ event_put-Journaled reply t d q
]

gone :
    (id : String) (ts : List Transition)
    → find_by transition_key id (without transition_key id ts) ≡ none
gone id ts = find_by-without transition_key id id ts ∙ rw (eq_refl id) refl

pub remove_transition-Cleared :
    (reply : SaveReply) (id : String) (d : Files) → Cleared id d (remove_transition reply id d)
unfolding remove_transition
remove_transition-Cleared refused id d = record {
  policies = refl;
  done = λ e. absurd (cc e);
  either = inr refl;
}
remove_transition-Cleared landed id d =
    let now = gone id d.transitions in record { policies = refl; done = λ e. now; either = inl now }
remove_transition-Cleared unconfirmed id d =
    let now = gone id d.transitions in record { policies = refl; done = λ e. now; either = inl now }

-- An Upsert that nothing hinders has no error.
pub upsert-landed : (p : BackgroundPolicy) (d : Files) → IsTrimmed p → (upsert landed p d).1 ≡ none
unfolding upsert_trimmed
upsert-landed p d h =
    ap (λ (r : Files × Option PolicyError). r.1) (same_upsert landed p d h)
    ∙ rw (h.has_session, h.has_profile, upsert_trimmed) refl

-- A removal that fails has removed the transition or has left the files as they are.
pub remove_transition-failed :
    (reply : SaveReply) (id : String) (d : Files) (e : PolicyError)
    → (remove_transition reply id d).1 ≡ some e
    → (reply ≡ unconfirmed) ⊎ ((remove_transition reply id d).0 ≡ d)
unfolding remove_transition
remove_transition-failed refused id d e h = inr refl
remove_transition-failed landed id d e h = absurd (cc h)
remove_transition-failed unconfirmed id d e h = inl refl
