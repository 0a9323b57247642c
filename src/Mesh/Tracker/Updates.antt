-- ===== src/Mesh/Tracker/Updates.antt =====
-- What UpdateTask changes and what it keeps.
use ratchet_cli.Base.{
  ℕ, ◌≡◌, refl, String, true, Option, none, some, List, [], ◌∷◌, arith, eq_iff, ◌==◌, if◌then◌else◌,
  Bool-cases, inl, inr,
}
use ratchet_cli.Mesh.Tracker.{Task, Tracker, find_row, get_task, update_rows, update_task}

-- a row with a new status, new notes and a new time of its update
abbrev pub rewritten : String → String → ℕ → Option Task → Option Task
rewritten status notes now none = none
rewritten status notes now (some t) =
    some (record t { status = status; notes = some notes; updated_at = now })

find-update_rows :
    (id status notes asked : String) (now : ℕ) (ts : List Task)
    → find_row asked (update_rows id status notes now ts)
      ≡ (if id == asked then rewritten status notes now (find_row asked ts) else find_row asked ts)
unfolding find_row update_rows
find-update_rows id status notes asked now [] = ground arith
find-update_rows id status notes asked now (t ∷ ts) = ground (
  arith,
  find-update_rows id status notes asked now ts,
  eq_iff t.id id,
  eq_iff t.id asked,
  eq_iff id asked,
)

rewritten_twice :
    (s1 n1 s2 n2 : String) (t1 t2 : ℕ) (x : Option Task)
    → rewritten s2 n2 t2 (rewritten s1 n1 t1 x) ≡ rewritten s2 n2 t2 x
rewritten_twice s1 n1 s2 n2 t1 t2 none = refl
rewritten_twice s1 n1 s2 n2 t1 t2 (some t) = refl

-- If the database answers, two updates of a task report no error, and then the task of the id, if there
-- is one, has the status, the notes and the time of the second update and all else of what it was: the
-- notes of the first are gone. The task of every other id is as it was, and so are the projects.
pub updated_twice :
    (id s1 n1 s2 n2 : String) (t1 t2 : ℕ) (tk : Tracker)
    → let (tk1, error1) = update_task true id s1 n1 t1 tk in
      let (tk2, error2) = update_task true id s2 n2 t2 tk1 in
      (error1 ≡ none)
      × (error2 ≡ none)
      × (tk2.projects ≡ tk.projects)
      × ((asked : String)
          → get_task true asked tk2 ≡ (
              if id == asked
              then rewritten s2 n2 t2 (get_task true asked tk)
              else get_task true asked tk))
unfolding update_task get_task
updated_twice id s1 n1 s2 n2 t1 t2 tk = (
  refl,
  refl,
  refl,
  λ asked. elim (Bool-cases (id == asked)) [
    | inl e ↦
        simp
          (
            e,
            first asked,
            second asked,
            rewritten_twice s1 n1 s2 n2 t1 t2 (find_row asked tk.tasks),
          )
          refl
    | inr e ↦ simp (e, first asked, second asked) refl
  ],
)
  where
    first :
        (asked : String)
        → find_row asked (update_rows id s1 n1 t1 tk.tasks) ≡ (
            if id == asked
            then rewritten s1 n1 t1 (find_row asked tk.tasks)
            else find_row asked tk.tasks)
    first asked = find-update_rows id s1 n1 asked t1 tk.tasks

    second :
        (asked : String)
        → find_row asked (update_rows id s2 n2 t2 (update_rows id s1 n1 t1 tk.tasks)) ≡ (
            if id == asked
            then rewritten s2 n2 t2 (find_row asked (update_rows id s1 n1 t1 tk.tasks))
            else find_row asked (update_rows id s1 n1 t1 tk.tasks))
    second asked = find-update_rows id s2 n2 asked t2 (update_rows id s1 n1 t1 tk.tasks)
