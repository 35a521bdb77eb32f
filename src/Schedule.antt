-- ===== src/Schedule.antt =====
-- crates/auwsx-core/src/schedule.rs: the cadence of a project, from the text that a user types to whether
-- it is due.
pub mod Days
pub mod Due
use auwsx.Common.Decimal.{
  is_ascii_digit, parse_unsigned, print_decimal, split_last, strip_prefix, to_ascii_lowercase,
}
use auwsx.Common.{
  Bool, Option, Result, Text, [], all, codes, err, false, if◌then◌else◌, is_empty, is_some, leb,
  none, not, ok, or_fail, some, text_eq, trim, true, ℕ, ◌%◌, ◌&&◌, ◌*◌, ◌++◌, ◌+◌, ◌-◌, ◌/◌, ◌==◌,
  ◌||◌, ◌∷◌,
}
use auwsx.Cron.{
  CadenceError, LocalTime, bad_duration, bad_unit, every_not_positive, expected_every,
  first_candidate, max_i64, minute_ms, next_from, not_a_number, parse_cron, saturate,
  shorthand_not_positive, slice_panic,
}
use auwsx.Common.Outcome.{Result, err, ok, or_fail, ◌>>=◌, ◌>>◌}

pub data Cadence : Type 0 where
  manual_cadence tick : Cadence
  cron : Text → Cadence

unfoldable pub as_cron : Cadence → Option Text
as_cron manual_cadence = none
as_cron tick = some (codes "@tick")
as_cron (cron expr) = some expr

-- `days_to_cron`, for a positive number of days
unfoldable pub days_to_cron : ℕ → Text
unfolding print_decimal
days_to_cron days =
    if days == 1
    then codes "0 0 * * *"
    else (if days == 7
        then codes "0 0 * * 0"
        else codes "0 0 */" ++ print_decimal days ++ codes " * *")

unfoldable pub shorthand_cron : ℕ → ℕ → Text
unfolding print_decimal days_to_cron
shorthand_cron unit value =
    if unit == 109
    then (if leb value 59
        then codes "*/" ++ print_decimal value ++ codes " * * * *"
        else (if value % 60 == 0
            then codes "0 */" ++ print_decimal (value / 60) ++ codes " * * *"
            else codes "@every " ++ print_decimal value ++ codes "m"))
    else (if unit == 104
        then (if leb value 23
            then codes "0 */" ++ print_decimal value ++ codes " * * *"
            else (if value % 24 == 0
                then codes "0 0 */" ++ print_decimal (value / 24) ++ codes " * *"
                else codes "@every " ++ print_decimal value ++ codes "h"))
        else days_to_cron value)

-- not empty, and ASCII digits only
unfoldable pub is_amount : Text → Bool
unfolding all
is_amount amount = not (is_empty amount) && all is_ascii_digit amount

abbrev pub shorthand_value : ℕ → Option ℕ → Result CadenceError (Option Text)
unfolding shorthand_cron
shorthand_value unit none = err not_a_number
shorthand_value unit (some value) =
    if value == 0 then err shorthand_not_positive else ok (some (shorthand_cron unit value))

abbrev pub shorthand_parts : Option (Text × ℕ) → Result CadenceError (Option Text)
unfolding shorthand_value is_amount parse_unsigned
shorthand_parts none = ok none
shorthand_parts (some (amount, unit)) =
    if (unit == 109 || unit == 104 || unit == 100) && is_amount amount
    then shorthand_value unit (parse_unsigned max_i64 amount)
    else ok none

unfoldable pub duration_shorthand_to_cadence : Text → Result CadenceError (Option Text)
unfolding shorthand_parts split_last
duration_shorthand_to_cadence input = shorthand_parts (split_last input)

unfoldable pub unit_ms : ℕ → Result CadenceError ℕ
unit_ms unit =
    if unit == 109
    then ok minute_ms
    else (if unit == 104
        then ok (60 * minute_ms)
        else (if unit == 100 then ok (24 * 60 * minute_ms) else err bad_unit))

abbrev pub every_value : ℕ → Option ℕ → Result CadenceError ℕ
unfolding unit_ms
every_value unit none = err not_a_number
every_value unit (some value) =
    if value == 0
    then err every_not_positive
    else unit_ms unit >>= λ ms. ok (saturate max_i64 (value * ms))

-- the slice that leaves out the last byte panics where the last character has more than one
abbrev pub every_parts : Option (Text × ℕ) → Result CadenceError ℕ
unfolding every_value is_amount parse_unsigned
every_parts none = err bad_duration
every_parts (some (amount, unit)) =
    if leb 128 unit
    then err slice_panic
    else (if is_amount amount
        then every_value unit (parse_unsigned max_i64 amount)
        else err bad_duration)

unfoldable pub parse_every_ms : Text → Result CadenceError ℕ
unfolding every_parts split_last strip_prefix trim
parse_every_ms expr = do
  raw ← or_fail (strip_prefix (codes "@every ") (trim expr)) expected_every
  every_parts (split_last raw)

-- the words that have a meaning of their own: `some none` is a manual cadence
unfoldable pub cadence_word : Text → Option (Option Text)
unfolding text_eq
cadence_word s =
    if text_eq s (codes "manual")
      || text_eq s (codes "@manual")
      || text_eq s (codes "none")
      || text_eq s (codes "off")
      || text_eq s (codes "disabled")
    then some none
    else (if text_eq s (codes "@tick")
        then some (some (codes "@tick"))
        else (if text_eq s (codes "@hourly")
            then some (some (codes "0 * * * *"))
            else (if text_eq s (codes "@daily")
                then some (some (codes "0 0 * * *"))
                else (if text_eq s (codes "@weekly")
                    then some (some (codes "0 0 * * 0"))
                    else none))))

abbrev pub is_every : Text → Bool
unfolding strip_prefix
is_every s = is_some (strip_prefix (codes "@every ") s)

-- below the shorthand
abbrev pub normalize_expr : Text → Text → Result CadenceError (Option Text)
unfolding is_every parse_every_ms parse_cron
normalize_expr trimmed lowered =
    if is_every lowered
    then (parse_every_ms trimmed >>= λ _. ok (some lowered))
    else (parse_cron trimmed >>= λ _. ok (some trimmed))

abbrev pub or_expr : Text → Text → Option Text → Result CadenceError (Option Text)
unfolding normalize_expr
or_expr trimmed lowered (some cadence) = ok (some cadence)
or_expr trimmed lowered none = normalize_expr trimmed lowered

abbrev pub or_shorthand : Text → Text → Option (Option Text) → Result CadenceError (Option Text)
unfolding or_expr duration_shorthand_to_cadence
or_shorthand trimmed lowered (some cadence) = ok cadence
or_shorthand trimmed lowered none =
    duration_shorthand_to_cadence lowered >>= or_expr trimmed lowered

abbrev pub normalize_trimmed : Text → Result CadenceError (Option Text)
unfolding or_shorthand cadence_word to_ascii_lowercase
normalize_trimmed [] = ok none
normalize_trimmed (c ∷ s) =
    or_shorthand (c ∷ s) (to_ascii_lowercase (c ∷ s)) (cadence_word (to_ascii_lowercase (c ∷ s)))

unfoldable pub normalize_cadence_input : Text → Result CadenceError (Option Text)
unfolding normalize_trimmed trim
normalize_cadence_input input = normalize_trimmed (trim input)

-- the opening of `is_due` and `next_due_ms`: an absent or blank schedule is manual
abbrev pub effective_trimmed : Text → Result CadenceError (Option Text)
unfolding normalize_cadence_input
effective_trimmed [] = ok none
effective_trimmed (c ∷ s) = normalize_cadence_input (c ∷ s)

unfoldable pub effective_cadence : Option Text → Result CadenceError (Option Text)
unfolding effective_trimmed trim
effective_cadence none = ok none
effective_cadence (some expr) = effective_trimmed (trim expr)

unfoldable pub cadence_label : Option Text → Text
unfolding trim text_eq
cadence_label none = codes "manual"
cadence_label (some expr) =
    if is_empty (trim expr)
    then codes "manual"
    else (if text_eq (trim expr) (codes "@tick") then codes "tick" else trim expr)

abbrev pub every_due : Option ℕ → ℕ → Result CadenceError ℕ → Result CadenceError Bool
every_due none now gap = ok true
every_due (some since) now gap = gap >>= λ ms. ok (leb ms (now - since))

abbrev pub due_by : ℕ → Option ℕ → Bool
due_by now none = false
due_by now (some next) = leb next now

abbrev pub tick_next : Option ℕ → ℕ → ℕ → ℕ
tick_next none now tick_secs = now
tick_next (some since) now tick_secs = since + (if leb 1 tick_secs then tick_secs else 1) * 1000

abbrev pub every_next : Option ℕ → ℕ → ℕ → ℕ
every_next none now gap = now
every_next (some since) now gap = saturate max_i64 (since + gap)

abbrev pub is_tick : Text → Bool
unfolding text_eq
is_tick expr = text_eq expr (codes "@tick")

module _ (local : ℕ → Option LocalTime) where
  unfoldable pub is_due_at : Option Text → Option ℕ → ℕ → ℕ → Result CadenceError Bool
  unfolding parse_every_ms parse_cron next_from first_candidate is_tick is_every
  is_due_at none since created_at now = ok false
  is_due_at (some expr) since created_at now =
      if is_tick expr
      then ok true
      else (if is_every expr
          then every_due since now (parse_every_ms expr)
          else (parse_cron expr >>= λ spec.
              next_from local spec (first_candidate since created_at) >>= λ next.
              ok (due_by now next)))

  unfoldable pub is_due : Option Text → Option ℕ → ℕ → ℕ → Result CadenceError Bool
  unfolding effective_cadence is_due_at
  is_due schedule_cron since created_at now =
      effective_cadence schedule_cron >>= λ expr. is_due_at expr since created_at now

  unfoldable pub next_due_at : Option Text → Option ℕ → ℕ → ℕ → ℕ → Result CadenceError (Option ℕ)
  unfolding parse_every_ms parse_cron next_from first_candidate is_tick is_every
  next_due_at none since created_at now tick_secs = ok none
  next_due_at (some expr) since created_at now tick_secs =
      if is_tick expr
      then ok (some (tick_next since now tick_secs))
      else (if is_every expr
          then (parse_every_ms expr >>= λ gap. ok (some (every_next since now gap)))
          else (parse_cron expr >>= λ spec.
              next_from local spec (first_candidate since created_at)))

  unfoldable pub next_due_ms : Option Text → Option ℕ → ℕ → ℕ → ℕ → Result CadenceError (Option ℕ)
  unfolding effective_cadence next_due_at
  next_due_ms schedule_cron since created_at now tick_secs =
      effective_cadence schedule_cron >>= λ expr. next_due_at expr since created_at now tick_secs
