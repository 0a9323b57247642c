-- ===== src/Mesh/Tracker/Holding.antt =====
-- Every operation leaves a claimed task with its agent.
use ratchet_cli.Base.{
  ℕ, ◌≡◌, ◌≢◌, refl, ap, ◌∙◌, inl, inr, String, Bool, true, false, Option, some, List, [], ◌∷◌,
  ◌++◌, any, arith, eq_iff, Option-cases, Bool-cases, All,
}
use ratchet_cli.Base.Dict.{lookup}
use ratchet_cli.Mesh.Tracker.{
  Task, Tracker, TrackerError, coalesce, is_claimable, has_id, claim_rows, update_rows,
  create_project, create_task, claim_task, update_task,
}

-- Every row of this id is claimed by this agent.
abbrev pub IsClaimed : String → String → List Task → Type 0
IsClaimed id agent = All (λ t. t.id ≡ id → t.claimed_by ≡ some agent)

-- Some row has this id.
abbrev pub Exists : String → List Task → Type 0
Exists id ts = any (has_id id) ts ≡ true

claim-keeps :
    (id agent other other_agent : String) (now : ℕ) (ts : List Task)
    → agent ≢ ""
    → IsClaimed id agent ts
    → IsClaimed id agent (claim_rows other other_agent now ts)
unfolding claim_rows
claim-keeps id agent other other_agent now [] a h = tt
claim-keeps id agent other other_agent now (t ∷ ts) a (h, hs) = (
  (λ e.
      ground
        (arith, e, h, a, eq_iff t.id other, eq_iff agent "", eq_iff (coalesce t.claimed_by) "")),
  claim-keeps id agent other other_agent now ts a hs,
)

update-keeps :
    (id agent other status notes : String) (now : ℕ) (ts : List Task)
    → IsClaimed id agent ts
    → IsClaimed id agent (update_rows other status notes now ts)
unfolding update_rows
update-keeps id agent other status notes now [] h = tt
update-keeps id agent other status notes now (t ∷ ts) (h, hs) =
    ((λ e. ground (arith, e, h)), update-keeps id agent other status notes now ts hs)

pub claimed-refuses :
    (id agent : String) (ts : List Task)
    → agent ≢ ""
    → IsClaimed id agent ts
    → any (is_claimable id) ts ≡ false
claimed-refuses id agent [] a h = refl
claimed-refuses id agent (t ∷ ts) a (h, hs) =
    ground (arith, claimed-refuses id agent ts a hs, h, a, eq_iff t.id id, eq_iff agent "")

pub data Op : Type 0 where
  creates_project : Bool → String → String → Op
  creates_task : Bool → String → ℕ → String → String → String → String → ℕ → Op
  claims : Bool → String → String → ℕ → Op
  updates : Bool → String → String → String → ℕ → Op

abbrev pub step : Op → Tracker → Tracker × Option TrackerError
step (creates_project ok id name) = create_project ok id name
step (creates_task ok id now project title description team priority) =
    create_task ok id now project title description team priority
step (claims ok id agent now) = claim_task ok id agent now
step (updates ok id status notes now) = update_task ok id status notes now

-- A task exists and is the agent's.
pub record Holds (id agent : String) (ts : List Task) : Type 0 where
  pub exists : Exists id ts
  pub claimed : IsClaimed id agent ts

append-Holds :
    (id agent : String) (ts : List Task) (t : Task)
    → t.id ≢ id
    → IsClaimed id agent ts
    → IsClaimed id agent (ts ++ t ∷ [])
append-Holds id agent [] t other h = ((λ e. absurd (other e)), tt)
append-Holds id agent (t' ∷ ts) t other (h, hs) = (h, append-Holds id agent ts t other hs)

any-append : (id : String) (ts : List Task) (t : Task) → Exists id ts → Exists id (ts ++ t ∷ [])
any-append id [] t h = absurd (ground arith)
any-append id (t' ∷ ts) t h = ground (arith, any-append id ts t)

claim-exists :
    (id other agent : String) (now : ℕ) (ts : List Task)
    → any (has_id id) (claim_rows other agent now ts) ≡ any (has_id id) ts
unfolding claim_rows
claim-exists id other agent now [] = refl
claim-exists id other agent now (t ∷ ts) = ground (arith, claim-exists id other agent now ts)

update-exists :
    (id other status notes : String) (now : ℕ) (ts : List Task)
    → any (has_id id) (update_rows other status notes now ts) ≡ any (has_id id) ts
unfolding update_rows
update-exists id other status notes now [] = refl
update-exists id other status notes now (t ∷ ts) =
    ground (arith, update-exists id other status notes now ts)

claim-Holds :
    (ok : Bool) (other other_agent : String) (now : ℕ) (tk : Tracker) (id agent : String)
    → agent ≢ ""
    → Holds id agent tk.tasks
    → Holds id agent ((claim_task ok other other_agent now tk).0.tasks)
unfolding claim_task
claim-Holds false other other_agent now tk id agent a h = h
claim-Holds true other other_agent now tk id agent a h = record {
  exists = claim-exists id other other_agent now tk.tasks ∙ h.exists;
  claimed = claim-keeps id agent other other_agent now tk.tasks a h.claimed;
}

update-Holds :
    (ok : Bool) (other status notes : String) (now : ℕ) (tk : Tracker) (id agent : String)
    → Holds id agent tk.tasks
    → Holds id agent ((update_task ok other status notes now tk).0.tasks)
unfolding update_task
update-Holds false other status notes now tk id agent h = h
update-Holds true other status notes now tk id agent h = record {
  exists = update-exists id other status notes now tk.tasks ∙ h.exists;
  claimed = update-keeps id agent other status notes now tk.tasks h.claimed;
}

project-Holds :
    (ok : Bool) (other name : String) (tk : Tracker) (id agent : String)
    → Holds id agent tk.tasks
    → Holds id agent ((create_project ok other name tk).0.tasks)
unfolding create_project
project-Holds false other name tk id agent h = h
project-Holds true other name tk id agent h = elim (Option-cases (lookup other tk.projects)) [
  | inl e ↦ rw (e, create_project) h
  | inr (old, e) ↦ rw (e, create_project) h
]

add-Holds :
    (id agent : String) (ts : List Task) (t : Task)
    → any (has_id t.id) ts ≡ false
    → Holds id agent ts
    → Holds id agent (ts ++ t ∷ [])
add-Holds id agent ts t new h =
    let other : t.id ≢ id =
      λ e. absurd (ground (arith, ap (λ k. any (has_id k) ts) e, new, h.exists)) in
    record {
      exists = any-append id ts t h.exists;
      claimed = append-Holds id agent ts t other h.claimed;
    }

task-Holds :
    (ok : Bool) (other : String) (now : ℕ) (project title description team : String) (priority : ℕ)
    (tk : Tracker) (id agent : String)
    → Holds id agent tk.tasks
    → Holds id agent ((create_task ok other now project title description team priority tk).0.tasks)
unfolding create_task
task-Holds false other now project title description team priority tk id agent h = h
task-Holds true other now project title description team priority tk id agent h =
    elim (Bool-cases (any (has_id other) tk.tasks)) [
      | inl e ↦ rw (e, create_task) h
      | inr e ↦ rw (e, create_task) (add-Holds id agent tk.tasks _ e h)
    ]

step-Holds :
    (op : Op) (tk : Tracker) (id agent : String)
    → agent ≢ ""
    → Holds id agent tk.tasks
    → Holds id agent ((step op tk).0.tasks)
step-Holds (creates_project ok other name) tk id agent a h =
    project-Holds ok other name tk id agent h
step-Holds (creates_task ok other now project title description team priority) tk id agent a h =
    task-Holds ok other now project title description team priority tk id agent h
step-Holds (claims ok other other_agent now) tk id agent a h =
    claim-Holds ok other other_agent now tk id agent a h
step-Holds (updates ok other status notes now) tk id agent a h =
    update-Holds ok other status notes now tk id agent h

abbrev pub run : List Op → Tracker → Tracker
run [] tk = tk
run (op ∷ ops) tk = run ops ((step op tk).0)

pub run-Holds :
    (ops : List Op) (tk : Tracker) (id agent : String)
    → agent ≢ ""
    → Holds id agent tk.tasks
    → Holds id agent ((run ops tk).tasks)
run-Holds [] tk id agent a h = h
run-Holds (op ∷ ops) tk id agent a h =
    run-Holds ops ((step op tk).0) id agent a (step-Holds op tk id agent a h)
