-- ===== src/Tests/Schedule.antt =====
-- Runs of the cadence parser.
use auwsx.Common.{
  Option, Text, [], arith, codes, err, false, none, ok, refl, some, true, ℕ, ◌%◌, ◌++◌, ◌+◌, ◌/◌,
  ◌↔◌, ◌≡◌,
}
use auwsx.Common.Decimal.{print_decimal}
use auwsx.Cron.{
  CronSpec, Field, LocalTime, field_matches, max_scan_minutes, next_from, parse_field,
  step_exceeds_range,
}
use auwsx.Schedule.{days_to_cron, effective_cadence, is_due, next_due_ms, normalize_cadence_input}
use auwsx.Cron.Fields.{step_text}
use auwsx.Cron.Scan.{IsFirstHit, next_from-IsFirstHit}
use auwsx.Cron.Steps.{IsReached, step_field-IsReached}
use auwsx.Schedule.Days.{long_days-never_due}
use auwsx.Schedule.Due.{Agrees, is_due-next_due_ms, is_first_every}
use auwsx.Common.Outcome.{err, ok}

-- the tests of schedule.rs
thirty_minutes : normalize_cadence_input (codes "30m") ≡ ok (some (codes "*/30 * * * *"))
unfolding normalize_cadence_input
thirty_minutes = refl

ninety_minutes : normalize_cadence_input (codes " 90M ") ≡ ok (some (codes "@every 90m"))
unfolding normalize_cadence_input
ninety_minutes = refl

seven_days : normalize_cadence_input (codes "7d") ≡ ok (some (codes "0 0 * * 0"))
unfolding normalize_cadence_input
seven_days = refl

-- every minute has a local time: of the clock that starts at midnight of a Thursday
abbrev utc : ℕ → Option LocalTime
utc ms = some (record {
  minute = ms / 60000 % 60;
  hour = ms / 3600000 % 24;
  day = 1 + ms / 86400000 % 28;
  month = 1;
  weekday = (4 + ms / 86400000) % 7;
})

abbrev noon : Text
noon = codes "*/5 12 * * *"

noon_next : next_due_ms utc (some noon) (some 30000) 0 50000 10 ≡ ok (some 43200000)
unfolding next_due_ms
noon_next = refl

is_due-next_due_ms_example :
    Agrees 5460000
      (is_first_every (some 60000) (effective_cadence (some (codes "90m"))))
      (is_due utc (some (codes "90m")) (some 60000) 0 5460000)
      (next_due_ms utc (some (codes "90m")) (some 60000) 0 5460000 10)
is_due-next_due_ms_example =
    is_due-next_due_ms utc 0 5460000 10 (omega arith) (some (codes "90m")) (some 60000)
      (unfold effective_cadence in refl)

long_days-never_due_example :
    (normalize_cadence_input (print_decimal 40 ++ codes "d") ≡ ok (some (days_to_cron 40)))
    × (is_due utc (some (days_to_cron 40)) none 0 5 ≡ err step_exceeds_range)
long_days-never_due_example = long_days-never_due utc 40 none 0 5 (omega arith) (omega arith)

abbrev star : Field
star = record { any_value = true; values = [] }

abbrev every_minute : CronSpec
every_minute = record { minutes = star; hours = star; dom = star; months = star; dow = star }

next_from-IsFirstHit_example :
    IsFirstHit utc every_minute max_scan_minutes 60000 (next_from utc every_minute 60000)
next_from-IsFirstHit_example = next_from-IsFirstHit utc every_minute 60000 (omega arith)

step_field-IsReached_example :
    (field : Field) × ((parse_field (step_text 20) 0 59 false ≡ ok field)
      × ((v : ℕ) → (field_matches field v ≡ true) ↔ IsReached 20 59 0 v))
step_field-IsReached_example =
    step_field-IsReached 0 59 20 false (omega arith) (omega arith) (omega arith)
