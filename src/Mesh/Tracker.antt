-- ===== src/Mesh/Tracker.antt =====
-- internal/mesh/tracker.go. A table is a list of its rows; each SQL statement is written out as what
-- it says of them. `db_ok` says whether the database answers, ids and times are arguments, and
-- `order_rows` is the statement's ORDER BY.
use ratchet_cli.Base.{
  ℕ, ◌+◌, String, Bool, true, false, not, ◌&&◌, ◌||◌, Option, none, some, List, [], ◌∷◌, ◌++◌, any,
  count_if, ltb, if◌then◌else◌, ◌==◌,
}
use ratchet_cli.Base.Dict.{Dict, lookup, insert}
pub mod Holding
pub mod Claims
pub mod Counts
pub mod Updates

-- A nullable column that was not set is `none`.
pub record Task : Type 0 where
  pub id : String
  pub project_id : String
  pub title : String
  pub description : String
  pub assigned_team : String
  pub claimed_by : Option String
  pub status : String
  pub notes : Option String
  pub priority : ℕ
  pub created_at : ℕ
  pub updated_at : ℕ

pub record Tracker : Type 0 where
  pub projects : Dict String  -- the names by id
  pub tasks : List Task

pub data TrackerError : Type 0 where
  database_error already_claimed not_found : TrackerError

-- CreateProject; ids are a primary key
unfoldable pub create_project : Bool → String → String → Tracker → Tracker × Option TrackerError
unfolding lookup insert
create_project db_ok id name tk =
    let stored : Tracker × Option TrackerError =
      (record tk { projects = insert id name tk.projects }, none) in
    if not db_ok
    then (tk, some database_error)
    else elim (lookup id tk.projects) [ some _ ↦ (tk, some database_error) | none ↦ stored ]

abbrev pub has_id : String → Task → Bool
has_id id t = t.id == id

-- CreateTask
unfoldable pub create_task :
    Bool
    → String
    → ℕ
    → String
    → String
    → String
    → String
    → ℕ
    → Tracker
    → Tracker × Option TrackerError
create_task db_ok id now project title description team priority tk =
    if not db_ok || any (has_id id) tk.tasks
    then (tk, some database_error)
    else let row : Task = record {
      id = id;
      project_id = project;
      title = title;
      description = description;
      assigned_team = team;
      claimed_by = none;
      status = "pending";
      notes = none;
      priority = priority;
      created_at = now;
      updated_at = now;
    } in
      (record tk { tasks = tk.tasks ++ row ∷ [] }, none)

-- `WHERE id = ?`
unfoldable pub find_row : String → List Task → Option Task
find_row id [] = none
find_row id (t ∷ ts) = if t.id == id then some t else find_row id ts

-- GetTask
unfoldable pub get_task : Bool → String → Tracker → Option Task
unfolding find_row
get_task db_ok id tk = if db_ok then find_row id tk.tasks else none

-- `COALESCE(column, '')`
abbrev pub coalesce : Option String → String
coalesce none = ""
coalesce (some s) = s

-- `id=? AND (claimed_by IS NULL OR claimed_by='')`
abbrev pub is_claimable : String → Task → Bool
is_claimable id t = (t.id == id) && (coalesce t.claimed_by == "")

-- the statement of ClaimTask
unfoldable pub claim_rows : String → String → ℕ → List Task → List Task
claim_rows id agent now [] = []
claim_rows id agent now (t ∷ ts) =
    let t' : Task = record t { claimed_by = some agent; updated_at = now } in
    (if is_claimable id t then t' else t) ∷ claim_rows id agent now ts

-- ClaimTask
unfoldable pub claim_task : Bool → String → String → ℕ → Tracker → Tracker × Option TrackerError
unfolding claim_rows
claim_task db_ok id agent now tk = if not db_ok then (tk, some database_error) else (
  record tk { tasks = claim_rows id agent now tk.tasks },
  if any (is_claimable id) tk.tasks then none else some already_claimed,
)

-- the statement of UpdateTask
unfoldable pub update_rows : String → String → String → ℕ → List Task → List Task
update_rows id status notes now [] = []
update_rows id status notes now (t ∷ ts) =
    let t' : Task = record t { status = status; notes = some notes; updated_at = now } in
    (if t.id == id then t' else t) ∷ update_rows id status notes now ts

-- UpdateTask
unfoldable pub update_task :
    Bool → String → String → String → ℕ → Tracker → Tracker × Option TrackerError
unfolding update_rows
update_task db_ok id status notes now tk =
    if not db_ok
    then (tk, some database_error)
    else (record tk { tasks = update_rows id status notes now tk.tasks }, none)

pub record StatusSummary : Type 0 where
  pub total : ℕ
  pub completed : ℕ
  pub in_progress : ℕ
  pub pending : ℕ

-- `SELECT status, COUNT(*) ... WHERE project_id=? GROUP BY status`
unfoldable pub group : String → Dict ℕ → Dict ℕ
group s [] = (s, 1) ∷ []
group s ((s', n) ∷ gs) = if s' == s then (s', n + 1) ∷ gs else (s', n) ∷ group s gs

unfoldable pub group_by_status : String → List Task → Dict ℕ
unfolding group
group_by_status project [] = []
group_by_status project (t ∷ ts) =
    let gs = group_by_status project ts in if t.project_id == project then group t.status gs else gs

-- the loop of ProjectStatus over the groups
unfoldable pub add_group : String × ℕ → StatusSummary → StatusSummary
add_group (s, n) ps =
    let counted : StatusSummary = record ps { total = ps.total + n } in
    if s == "completed"
    then record counted { completed = ps.completed + n }
    else if s == "in_progress"
    then record counted { in_progress = ps.in_progress + n }
    else record counted { pending = ps.pending + n }

unfoldable pub summarize : Dict ℕ → StatusSummary → StatusSummary
unfolding add_group
summarize [] ps = ps
summarize (g ∷ gs) ps = summarize gs (add_group g ps)

-- ProjectStatus; `none` is an error
unfoldable pub project_status : Bool → String → Tracker → Option StatusSummary
unfolding lookup group_by_status summarize
project_status db_ok project tk =
    let zero : StatusSummary = record { total = 0; completed = 0; in_progress = 0; pending = 0 } in
    if not db_ok then none else elim (lookup project tk.projects) [
      | none ↦ none
      | some _ ↦ some (summarize (group_by_status project tk.tasks) zero)
    ]
