-- ===== src/Cron.antt =====
-- crates/auwsx-core/src/schedule.rs: `Field` and `CronSpec`, from the text of a cron schedule to the next
-- minute that it matches. The local time zone is a parameter: the fields of the local time at a
-- timestamp, where there is exactly one. Timestamps are milliseconds after 1970.
pub mod Fields
pub mod Scan
pub mod Steps
use auwsx.Common.Decimal.{parse_unsigned, split_on, split_once, split_whitespace, strip_prefix}
use auwsx.Common.{
  Bool, List, Option, Result, Text, [], codes, contains, err, false, if◌then◌else◌, leb, ltb, none,
  ok, or_fail, some, suc, text_eq, true, zero, ℕ, ◌%◌, ◌&&◌, ◌++◌, ◌+◌, ◌-◌, ◌==◌, ◌||◌, ◌∷◌,
}
use auwsx.Common.Outcome.{Result, err, ok, or_fail, ◌>>=◌, ◌>>◌}

pub data CadenceError : Type 0 where
  -- what `parse` refuses
  not_a_number : CadenceError
  shorthand_not_positive : CadenceError
  expected_every : CadenceError
  bad_duration : CadenceError
  every_not_positive : CadenceError
  bad_unit : CadenceError
  -- the index of a slice stands inside a character: the thread panics
  slice_panic : CadenceError
  not_five_fields : CadenceError
  empty_component : CadenceError
  step_not_positive : CadenceError
  step_exceeds_range : CadenceError
  range_reversed : CadenceError
  outside_range : ℕ → CadenceError
  no_occurrence : CadenceError

abbrev pub minute_ms : ℕ
minute_ms = 60000

abbrev pub max_scan_minutes : ℕ
max_scan_minutes = 2635200

abbrev pub max_i64 : ℕ
max_i64 = 9223372036854775807

abbrev pub max_u32 : ℕ
max_u32 = 4294967295

-- `saturating_add`, `saturating_mul`
abbrev pub saturate : ℕ → ℕ → ℕ
saturate bound n = if leb n bound then n else bound

unfoldable pub floor_minute : ℕ → ℕ
floor_minute ms = ms - ms % minute_ms

-- the fields of a local time; Sunday is weekday 0
pub record LocalTime : Type 0 where
  pub minute : ℕ
  pub hour : ℕ
  pub day : ℕ
  pub month : ℕ
  pub weekday : ℕ

pub record Field : Type 0 where
  pub any_value : Bool
  pub values : List ℕ

unfoldable pub field_matches : Field → ℕ → Bool
unfolding contains
field_matches field value = field.any_value || contains field.values value

-- `sort_unstable` and `dedup`
unfoldable pub insert_value : ℕ → List ℕ → List ℕ
insert_value v [] = v ∷ []
insert_value v (x ∷ xs) =
    let rest = insert_value v xs in
    if v == x then x ∷ xs else (if ltb v x then v ∷ x ∷ xs else x ∷ rest)

unfoldable pub sort_dedup : List ℕ → List ℕ
unfolding insert_value
sort_dedup [] = []
sort_dedup (v ∷ vs) = insert_value v (sort_dedup vs)

-- the `while` loop of a step
unfoldable pub step_values : ℕ → ℕ → ℕ → ℕ → List ℕ
step_values zero step top value = []
step_values (suc fuel) step top value =
    let rest = step_values fuel step top (saturate max_u32 (value + step)) in
    if leb value top
    then value ∷ (if saturate max_u32 (value + step) == max_u32 then [] else rest)
    else []

-- `start..=end`
unfoldable pub range_values : ℕ → ℕ → List ℕ
range_values zero start = []
range_values (suc count) start = start ∷ range_values count (suc start)

abbrev pub checked_value : Bool → ℕ → ℕ → ℕ → Result CadenceError ℕ
checked_value sunday_alias value low high =
    if sunday_alias && value == 7
    then ok 7
    else (if ltb value low || ltb high value then err (outside_range value) else ok value)

unfoldable pub parse_field_value : Text → ℕ → ℕ → Bool → Result CadenceError ℕ
unfolding parse_unsigned
parse_field_value raw low high sunday_alias = do
  value ← or_fail (parse_unsigned max_u32 raw) not_a_number
  checked_value sunday_alias value low high

-- the arm of `*/n`, for the step n
unfoldable pub step_component : ℕ → ℕ → ℕ → Result CadenceError (List ℕ)
unfolding step_values
step_component low high step =
    if step == 0
    then err step_not_positive
    else (if ltb (saturate max_u32 (high - low + 1)) step
        then err step_exceeds_range
        else ok (step_values (suc high) step high low))

unfoldable pub range_component : ℕ → ℕ → Result CadenceError (List ℕ)
unfolding range_values
range_component start last =
    if ltb last start then err range_reversed else ok (range_values (suc last - start) start)

abbrev pub plain_component :
    Text → ℕ → ℕ → Bool → Option (Text × Text) → Result CadenceError (List ℕ)
unfolding parse_field_value range_component
plain_component part low high sunday_alias none =
    parse_field_value part low high sunday_alias >>= λ value. ok (value ∷ [])
plain_component part low high sunday_alias (some (start_raw, end_raw)) = do
  start ← parse_field_value start_raw low high sunday_alias
  last ← parse_field_value end_raw low high sunday_alias
  range_component start last

abbrev pub component_of : Option Text → Text → ℕ → ℕ → Bool → Result CadenceError (List ℕ)
component_of none part low high sunday_alias =
    plain_component part low high sunday_alias (split_once 45 part)
component_of (some step_raw) part low high sunday_alias = do
  step ← or_fail (parse_unsigned max_u32 step_raw) not_a_number
  step_component low high step

-- the body of the loop of `Field::parse`: the values that one component adds
unfoldable pub component_values : Text → ℕ → ℕ → Bool → Result CadenceError (List ℕ)
unfolding plain_component split_once strip_prefix step_component parse_unsigned
component_values [] low high sunday_alias = err empty_component
component_values (c ∷ part) low high sunday_alias =
    component_of (strip_prefix (codes "*/") (c ∷ part)) (c ∷ part) low high sunday_alias

unfoldable pub components_values : List Text → ℕ → ℕ → Bool → Result CadenceError (List ℕ)
unfolding component_values
components_values [] low high sunday_alias = ok []
components_values (part ∷ parts) low high sunday_alias = do
  here ← component_values part low high sunday_alias
  rest ← components_values parts low high sunday_alias
  ok (here ++ rest)

unfoldable pub parse_field : Text → ℕ → ℕ → Bool → Result CadenceError Field
unfolding text_eq split_on components_values sort_dedup
parse_field raw low high sunday_alias =
    if text_eq raw (codes "*") then ok (record { any_value = true; values = [] }) else (do
      values ← components_values (split_on (λ c. c == 44) raw) low high sunday_alias
      ok (record { any_value = false; values = sort_dedup values }))

pub record CronSpec : Type 0 where
  pub minutes : Field
  pub hours : Field
  pub dom : Field
  pub months : Field
  pub dow : Field

unfoldable pub parse_parts : List Text → Result CadenceError CronSpec
unfolding parse_field
parse_parts (m ∷ h ∷ d ∷ mo ∷ w ∷ []) = do
  minutes ← parse_field m 0 59 false
  hours ← parse_field h 0 23 false
  dom ← parse_field d 1 31 false
  months ← parse_field mo 1 12 false
  dow ← parse_field w 0 7 true
  ok (record { minutes = minutes; hours = hours; dom = dom; months = months; dow = dow })
parse_parts _ = err not_five_fields

unfoldable pub parse_cron : Text → Result CadenceError CronSpec
unfolding parse_parts split_whitespace
parse_cron expr = parse_parts (split_whitespace expr)

-- `day_match`: a star leaves the day to the other field, and two lists are joined by `or`
unfoldable pub day_matches : CronSpec → LocalTime → Bool
unfolding field_matches
day_matches spec t =
    let dom_match = field_matches spec.dom t.day in
    let dow_match =
      field_matches spec.dow t.weekday || (t.weekday == 0 && field_matches spec.dow 7) in
    if spec.dom.any_value && spec.dow.any_value
    then true
    else (if spec.dom.any_value
        then dow_match
        else (if spec.dow.any_value then dom_match else dom_match || dow_match))

unfoldable pub cron_matches : CronSpec → LocalTime → Bool
unfolding field_matches day_matches
cron_matches spec t =
    field_matches spec.minutes t.minute
    && field_matches spec.hours t.hour
    && field_matches spec.months t.month
    && day_matches spec t

-- the first candidate: `since`, or else a minute before the project was made, is rounded down to
-- its minute, and the next minute is the first
unfoldable pub first_candidate : Option ℕ → ℕ → ℕ
unfolding floor_minute
first_candidate none created_at = floor_minute created_at
first_candidate (some since) created_at = saturate max_i64 (floor_minute since + minute_ms)

-- `for _ in 0..MAX_SCAN_MINUTES`, on the count of rounds that are left
module _ (local : ℕ → Option LocalTime) where
  abbrev matches_at : CronSpec → Option LocalTime → Bool
  unfolding cron_matches
  matches_at spec none = false
  matches_at spec (some t) = cron_matches spec t

  -- whether the loop stops at the candidate
  unfoldable pub hits : CronSpec → ℕ → Bool
  unfolding matches_at
  hits spec candidate = matches_at spec (local candidate)

  unfoldable pub scan : ℕ → CronSpec → ℕ → Result CadenceError (Option ℕ)
  unfolding hits
  scan zero spec candidate = err no_occurrence
  scan (suc rounds) spec candidate = elim (hits spec candidate) [
    | true ↦ ok (some candidate)
    | false ↦ scan rounds spec (saturate max_i64 (candidate + minute_ms))
  ]

  -- from the first candidate on
  unfoldable pub next_from : CronSpec → ℕ → Result CadenceError (Option ℕ)
  unfolding scan
  next_from spec candidate = scan max_scan_minutes spec candidate
