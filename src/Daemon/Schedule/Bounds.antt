-- ===== src/Daemon/Schedule/Bounds.antt =====
-- The intervals that schedules give.
use ratchet_cli.Base.{
  ℕ, ◌*◌, ◌≤◌, ◌<◌, ◌≡◌, refl, inl, inr, String, Bool, true, false, some, List, [], ◌∷◌, arith,
  length, eqb, if◌then◌else◌, Option-cases, Bool-cases,
}
use ratchet_cli.Daemon.Schedule.{
  pos, negsuc, TextLibrary, Parsed, interval, invalid, minute, is_positive, minutes, parse_minute,
  parse_cron_expr, parse_schedule, must_parse_schedule_duration,
}

-- The largest number of minutes that is an int64 of nanoseconds.
abbrev pub max_minutes : ℕ
max_minutes = 153722867

minutes-positive : (n : ℕ) → eqb n 0 ≡ false → n ≤ max_minutes → is_positive (minutes n) ≡ true
unfolding minutes
minutes-positive n h small = ground arith

abbrev pub IsPositive : Parsed → Type 0
IsPositive (interval d) = is_positive d ≡ true
IsPositive (invalid e) = Unit

Positive-if :
    (c : Bool) (x y : Parsed) → IsPositive x → IsPositive y → IsPositive (if c then x else y)
Positive-if true x y h k = h
Positive-if false x y h k = k

step-IsPositive :
    (lib : TextLibrary) (field step : String)
    → lib.cut_step field ≡ some step
    → ((n : ℕ) → lib.atoi step ≡ some (pos n) → n ≤ max_minutes)
    → IsPositive (parse_minute lib field)
unfolding parse_minute
step-IsPositive lib field step e small = elim (Option-cases (lib.atoi step)) [
  | inl a ↦ rw (e, a, parse_minute) tt
  | inr (negsuc n, a) ↦ rw (e, a, parse_minute) tt
  | inr (pos n, a) ↦ elim (Bool-cases (eqb n 0)) [
    | inl z ↦ rw (e, a, z, parse_minute) tt
    | inr z ↦ rw (e, a, z, parse_minute) (minutes-positive n z (small n a))
  ]
]

minute-IsPositive :
    (lib : TextLibrary) (field : String)
    → ((step : String) (n : ℕ)
        → lib.cut_step field ≡ some step
        → lib.atoi step ≡ some (pos n)
        → n ≤ max_minutes)
    → IsPositive (parse_minute lib field)
unfolding parse_minute
minute-IsPositive lib field small = elim (Option-cases (lib.cut_step field)) [
  | inr (step, e) ↦ step-IsPositive lib field step e (λ n a. small step n e a)
  | inl e ↦ elim (Option-cases (lib.atoi field)) [
    | inl a ↦ rw (e, a, parse_minute) tt
    | inr (n, a) ↦ rw (e, a, parse_minute) refl
  ]
]

-- the field of a cron expression that gives the interval
abbrev pub first_field : List String → String
first_field [] = ""
first_field (field ∷ rest) = field

expr-IsPositive :
    (lib : TextLibrary) (expr : String) (fields : List String)
    → lib.fields expr ≡ fields
    → ((step : String) (n : ℕ)
        → lib.cut_step (first_field fields) ≡ some step
        → lib.atoi step ≡ some (pos n)
        → n ≤ max_minutes)
    → IsPositive (parse_cron_expr lib expr)
unfolding parse_cron_expr
expr-IsPositive lib expr [] e small = rw (e, parse_cron_expr) tt
expr-IsPositive lib expr (field ∷ rest) e small =
    rw (e, parse_cron_expr)
      (Positive-if (eqb (length rest) 4) _ _ (minute-IsPositive lib field small) tt)

parsed-IsPositive :
    (lib : TextLibrary) (s : String)
    → ((step : String) (n : ℕ)
        → lib.cut_step (first_field (lib.fields (lib.trim_space s))) ≡ some step
        → lib.atoi step ≡ some (pos n)
        → n ≤ max_minutes)
    → IsPositive (parse_schedule lib s)
unfolding parse_schedule
parsed-IsPositive lib s small = elim (Option-cases (lib.parse_duration (lib.trim_space s))) [
  | inl e ↦ rw (e, parse_schedule) (expr-IsPositive lib (lib.trim_space s) _ refl small)
  | inr (d, e) ↦ elim (Bool-cases (is_positive d)) [
    | inl p ↦ rw (e, p, parse_schedule) p
    | inr p ↦ rw (e, p, parse_schedule) tt
  ]
]

or_minute-positive :
    (x : Parsed)
    → IsPositive x
    → is_positive (elim x [ interval d ↦ d | invalid e ↦ minute ]) ≡ true
or_minute-positive (interval d) h = h
or_minute-positive (invalid e) h = refl

-- A schedule that is accepted gives a positive interval, if the number of its step is at most the
-- largest number of minutes that is an int64 of nanoseconds; so does the fallback for a refused one.
pub schedule-IsPositive :
    (lib : TextLibrary) (s : String)
    → ((step : String) (n : ℕ)
        → lib.cut_step (first_field (lib.fields (lib.trim_space s))) ≡ some step
        → lib.atoi step ≡ some (pos n)
        → n ≤ max_minutes)
    → IsPositive (parse_schedule lib s) × (is_positive (must_parse_schedule_duration lib s) ≡ true)
unfolding must_parse_schedule_duration
schedule-IsPositive lib s small =
    let h = parsed-IsPositive lib s small in (h, or_minute-positive (parse_schedule lib s) h)

-- A step of more minutes than the largest number that is an int64 of nanoseconds, up to twice as
-- many, is accepted with an interval that is not positive.
pub step_overflow :
    (lib : TextLibrary) (field step : String) (n : ℕ)
    → lib.cut_step field ≡ some step
    → lib.atoi step ≡ some (pos n)
    → max_minutes < n
    → n ≤ 2 * max_minutes
    → (d : ℕ) × (parse_minute lib field ≡ interval d) × (is_positive d ≡ false)
unfolding parse_minute minutes
step_overflow lib field step n e a large small =
    let nonzero : eqb n 0 ≡ false = ground (arith, large) in
    (minutes n, rw (e, a, nonzero, parse_minute) refl, ground (arith, large, small))
