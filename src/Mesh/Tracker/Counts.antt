-- ===== src/Mesh/Tracker/Counts.antt =====
-- What ProjectStatus counts.
use ratchet_cli.Base.{
  ℕ, ◌+◌, ◌≡◌, refl, ap, String, Bool, true, false, ◌&&◌, some, List, [], ◌∷◌, count_if, arith,
  if◌then◌else◌, ◌==◌, eq_iff,
}
use ratchet_cli.Base.Dict.{Dict, lookup}
use ratchet_cli.Mesh.Tracker.{
  Task, Tracker, StatusSummary, group, group_by_status, add_group, summarize, project_status,
}

-- the sum of the counts of the groups whose status passes a test
sum_if : (String → Bool) → Dict ℕ → ℕ
sum_if p [] = 0
sum_if p ((s, n) ∷ gs) = (if p s then n else 0) + sum_if p gs

sum_if-group :
    (p : String → Bool) (s : String) (gs : Dict ℕ)
    → sum_if p (group s gs) ≡ (if p s then 1 else 0) + sum_if p gs
unfolding sum_if group
sum_if-group p s [] = refl
sum_if-group p s ((s', n) ∷ gs) = ground (arith, sum_if-group p s gs, eq_iff s' s)

abbrev pub in_project : String → (String → Bool) → Task → Bool
in_project project p t = (t.project_id == project) && p t.status

sum_if-group_by_status :
    (p : String → Bool) (project : String) (ts : List Task)
    → sum_if p (group_by_status project ts) ≡ count_if (in_project project p) ts
unfolding sum_if group_by_status
sum_if-group_by_status p project [] = refl
sum_if-group_by_status p project (t ∷ ts) = ground (
  arith,
  sum_if-group_by_status p project ts,
  sum_if-group p t.status (group_by_status project ts),
)

abbrev pub is_pending : String → Bool
is_pending s = if s == "completed" then false else if s == "in_progress" then false else true

disjoint : (s : String) → s == "completed" ≡ true → s == "in_progress" ≡ false
disjoint s e = ap (λ x. x == "in_progress") ((eq_iff s "completed").0 e)

sum_split :
    (gs : Dict ℕ)
    → sum_if (λ s. true) gs
      ≡ sum_if (λ s. s == "completed") gs
        + sum_if (λ s. s == "in_progress") gs
        + sum_if is_pending gs
unfolding sum_if
sum_split [] = omega arith
sum_split ((s, n) ∷ gs) = ground (arith, sum_split gs, disjoint s)

summarize_lem :
    (gs : Dict ℕ) (ps : StatusSummary)
    → ((summarize gs ps).total ≡ ps.total + sum_if (λ s. true) gs)
      × ((summarize gs ps).completed ≡ ps.completed + sum_if (λ s. s == "completed") gs)
      × ((summarize gs ps).in_progress ≡ ps.in_progress + sum_if (λ s. s == "in_progress") gs)
      × ((summarize gs ps).pending ≡ ps.pending + sum_if is_pending gs)
unfolding sum_if summarize add_group
summarize_lem [] ps = (omega arith, omega arith, omega arith, omega arith)
summarize_lem ((s, n) ∷ gs) ps =
    let (a, b, c, d) = summarize_lem gs (add_group (s, n) ps) in
    (
      ground (arith, a),
      ground (arith, b, eq_iff s "completed"),
      ground (arith, c, disjoint s),
      ground (arith, d),
    )

-- If the database answers, the summary of a project that exists counts the project's tasks, those
-- that are completed and those in progress; with the pending count they add up to the total.
pub project_status_lem :
    (project name : String) (tk : Tracker)
    → lookup project tk.projects ≡ some name
    → (ps : StatusSummary) × (project_status true project tk ≡ some ps)
      × (ps.total ≡ count_if (in_project project (λ s. true)) tk.tasks)
      × (ps.completed ≡ count_if (in_project project (λ s. s == "completed")) tk.tasks)
      × (ps.in_progress ≡ count_if (in_project project (λ s. s == "in_progress")) tk.tasks)
      × (ps.total ≡ ps.completed + ps.in_progress + ps.pending)
unfolding project_status
project_status_lem project name tk found =
    let gs = group_by_status project tk.tasks in
    let zero : StatusSummary = record { total = 0; completed = 0; in_progress = 0; pending = 0 } in
    let (a, b, c, d) = summarize_lem gs zero in
    (
      summarize gs zero,
      rw found refl,
      omega (arith, a, sum_if-group_by_status (λ s. true) project tk.tasks),
      omega (arith, b, sum_if-group_by_status (λ s. s == "completed") project tk.tasks),
      omega (arith, c, sum_if-group_by_status (λ s. s == "in_progress") project tk.tasks),
      omega (arith, a, b, c, d, sum_split gs),
    )
