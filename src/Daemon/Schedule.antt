-- ===== src/Daemon/Schedule.antt =====
-- The schedules of internal/daemon/cron.go. A duration is an int64 of nanoseconds, given by its two's
-- complement pattern below 2 ^ 64. Text functions of Go's library are parameters.
use ratchet_cli.Base.{
  ℕ, ◌*◌, ◌%◌, ◌^◌, ◌+◌, String, Bool, true, false, not, ◌&&◌, Option, none, some, List, [], ◌∷◌,
  length, ltb, eqb, if◌then◌else◌,
}
pub mod Bounds

pub data ℤ : Type 0 where
  pos negsuc : ℕ → ℤ

-- strings.TrimSpace, time.ParseDuration, strings.Fields, strings.CutPrefix with "*/", strconv.Atoi
pub record TextLibrary : Type 0 where
  pub trim_space : String → String
  pub parse_duration : String → Option ℕ
  pub fields : String → List String
  pub cut_step : String → Option String
  pub atoi : String → Option ℤ

pub data ScheduleError : Type 0 where
  not_positive field_count invalid_step unsupported : ScheduleError

pub data Parsed : Type 0 where
  interval : ℕ → Parsed
  invalid : ScheduleError → Parsed

abbrev pub minute : ℕ
minute = 60 * 10 ^ 9

abbrev pub hour : ℕ
hour = 60 * minute

-- `d > 0` of a pattern
abbrev pub is_positive : ℕ → Bool
is_positive d = ltb 0 d && ltb d (2 ^ 63)

-- `time.Duration(n) * time.Minute`
unfoldable pub minutes : ℕ → ℕ
minutes n = (n * minute) % 2 ^ 64

-- the minute field of parseCronExpr
unfoldable pub parse_minute : TextLibrary → String → Parsed
unfolding minutes
parse_minute lib field = elim (lib.cut_step field) [
  | some step ↦ elim (lib.atoi step) [
    | some (pos n) ↦ if eqb n 0 then invalid invalid_step else interval (minutes n)
    | _ ↦ invalid invalid_step
  ]
  | none ↦ elim (lib.atoi field) [ some _ ↦ interval hour | none ↦ invalid unsupported ]
]

-- parseCronExpr
unfoldable pub parse_cron_expr : TextLibrary → String → Parsed
unfolding parse_minute
parse_cron_expr lib expr = elim (lib.fields expr) [
  | [] ↦ invalid field_count
  | field ∷ rest ↦ if eqb (length rest) 4 then parse_minute lib field else invalid field_count
]

-- parseSchedule
unfoldable pub parse_schedule : TextLibrary → String → Parsed
unfolding parse_cron_expr
parse_schedule lib given =
    let s = lib.trim_space given in
    elim (lib.parse_duration s) [
      | some d ↦ if is_positive d then interval d else invalid not_positive
      | none ↦ parse_cron_expr lib s
    ]

-- mustParseScheduleDuration
unfoldable pub must_parse_schedule_duration : TextLibrary → String → ℕ
unfolding parse_schedule
must_parse_schedule_duration lib s = elim (parse_schedule lib s) [
  | interval d ↦ d
  | invalid e ↦ minute
]
