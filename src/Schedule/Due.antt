-- ===== src/Schedule/Due.antt =====
-- The two questions on a cadence: whether it is due now, and when it is due next.
use auwsx.Common.{
  Bool, Bool-cases, Option, Result, Text, ap, arith, codes, err, false, if◌then◌else◌, inl, inr,
  leb, none, ok, or_fail, refl, some, trim, true, ℕ, ◌*◌, ◌+◌, ◌-◌, ◌<◌, ◌==◌, ◌≡◌, ◌≤◌, ◌⊎◌,
}
use auwsx.Common.Decimal.{parse_unsigned, split_last, strip_prefix}
use auwsx.Cron.{
  CadenceError, CronSpec, LocalTime, expected_every, first_candidate, max_i64, next_from,
  parse_cron, saturate,
}
use auwsx.Schedule.{
  due_by, effective_cadence, every_due, every_next, every_parts, every_value, is_amount, is_due,
  is_due_at, is_every, is_tick, next_due_at, next_due_ms, parse_every_ms, unit_ms,
}
use auwsx.Common.Outcome.{Result, err, ok, or_fail, ◌>>=◌}

abbrev pub is_tick_cadence : Result CadenceError (Option Text) → Bool
is_tick_cadence (ok (some expr)) = is_tick expr
is_tick_cadence _ = false

abbrev IsPositive : Result CadenceError ℕ → Type 0
IsPositive (ok ms) = 1 ≤ ms
IsPositive (err e) = Unit

if-IsPositive :
    (b : Bool) (r s : Result CadenceError ℕ)
    → IsPositive r
    → (b ≡ false → IsPositive s)
    → IsPositive (if b then r else s)
if-IsPositive true r s hr hs = hr
if-IsPositive false r s hr hs = hs refl

saturate-IsPositive :
    (unit value : ℕ) (r : Result CadenceError ℕ)
    → IsPositive r
    → (value == 0) ≡ false
    → IsPositive (r >>= λ ms. ok (saturate max_i64 (value * ms)))
saturate-IsPositive unit value (ok ms) h some_value =
    let q : 1 ≤ value * ms = grind arith in ground arith
saturate-IsPositive unit value (err e) h some_value = tt

unit_ms-IsPositive : (unit : ℕ) → IsPositive (unit_ms unit)
unfolding unit_ms
unit_ms-IsPositive unit = if-IsPositive (unit == 109) _ _ (omega arith) (λ _.
    if-IsPositive (unit == 104) _ _ (omega arith)
      (λ _. if-IsPositive (unit == 100) _ _ (omega arith) (λ _. tt)))

every_value-IsPositive : (unit : ℕ) (o : Option ℕ) → IsPositive (every_value unit o)
unfolding every_value
every_value-IsPositive unit none = tt
every_value-IsPositive unit (some value) =
    if-IsPositive (value == 0) _ _ tt
      (saturate-IsPositive unit value (unit_ms unit) (unit_ms-IsPositive unit))

every_parts-IsPositive : (o : Option (Text × ℕ)) → IsPositive (every_parts o)
unfolding every_parts
every_parts-IsPositive none = tt
every_parts-IsPositive (some (amount, unit)) = if-IsPositive (leb 128 unit) _ _ tt (λ _.
    if-IsPositive (is_amount amount) _ _
      (every_value-IsPositive unit (parse_unsigned max_i64 amount)) (λ _. tt))

or_fail-IsPositive :
    (o : Option Text)
    → IsPositive (or_fail o expected_every >>= λ raw. every_parts (split_last raw))
or_fail-IsPositive none = tt
or_fail-IsPositive (some raw) = every_parts-IsPositive (split_last raw)

-- An interval is never empty.
parse_every_ms-IsPositive : (expr : Text) → IsPositive (parse_every_ms expr)
unfolding parse_every_ms
parse_every_ms-IsPositive expr = or_fail-IsPositive (strip_prefix (codes "@every ") (trim expr))

-- an `@every` cadence of a project that was never scheduled
abbrev pub is_first_every : Option ℕ → Result CadenceError (Option Text) → Bool
is_first_every none (ok (some expr)) = is_every expr
is_first_every _ _ = false

-- the next due time of such a cadence, where it can be read, is now
abbrev pub OpensNow : ℕ → Bool → Result CadenceError (Option ℕ) → Type 0
OpensNow now true (ok next) = next ≡ some now
OpensNow now _ _ = Unit

-- whether it is due, and when it is due next
abbrev pub Agrees : ℕ → Bool → Result CadenceError Bool → Result CadenceError (Option ℕ) → Type 0
Agrees now first due next =
    (due ≡ (if first then ok true else (next >>= λ at. ok (due_by now at))))
    × OpensNow now first next

every-Agrees :
    (since : ℕ) (now : ℕ) (gap : Result CadenceError ℕ)
    → now < max_i64
    → IsPositive gap
    → Agrees now false
        (every_due (some since) now gap)
        (gap >>= λ ms. ok (some (every_next (some since) now ms)))
every-Agrees since now (ok ms) fits h =
    let same : leb ms (now - since) ≡ leb (saturate max_i64 (since + ms)) now = ground arith in
    (ap (λ b. ok b) same, tt)
every-Agrees since now (err e) fits h = (refl, tt)

first-Agrees :
    (now : ℕ) (gap : Result CadenceError ℕ)
    → Agrees now true (every_due none now gap) (gap >>= λ ms. ok (some (every_next none now ms)))
first-Agrees now (ok ms) = (refl, refl)
first-Agrees now (err e) = (refl, tt)

cron-Agrees :
    (now : ℕ) (p : Result CadenceError CronSpec) (f : CronSpec → Result CadenceError (Option ℕ))
    → Agrees now false (p >>= λ spec. f spec >>= λ at. ok (due_by now at)) (p >>= f)
cron-Agrees now (ok spec) f = (refl, tt)
cron-Agrees now (err e) f = (refl, tt)

module _ (local : ℕ → Option LocalTime) (created_at now tick_secs : ℕ) (fits : now < max_i64) where
  due_at-Agrees :
      (since : Option ℕ) (expr : Text)
      → is_tick expr ≡ false
      → Agrees now
          (is_first_every since (ok (some expr)))
          (is_due_at local (some expr) since created_at now)
          (next_due_at local (some expr) since created_at now tick_secs)
  unfolding next_due_at is_due_at
  due_at-Agrees none expr other = elim (Bool-cases (is_every expr)) [
    | inl every ↦ rw (other, every) (first-Agrees now (parse_every_ms expr))
    | inr plain ↦
        rw (other, plain)
          (cron-Agrees now (parse_cron expr)
            (λ spec. next_from local spec (first_candidate none created_at)))
  ]
  due_at-Agrees (some since) expr other = elim (Bool-cases (is_every expr)) [
    | inl every ↦
        rw (other, every)
          (every-Agrees since now (parse_every_ms expr) fits (parse_every_ms-IsPositive expr))
    | inr plain ↦
        rw (other, plain)
          (cron-Agrees now (parse_cron expr)
            (λ spec. next_from local spec (first_candidate (some since) created_at)))
  ]

  no_cadence :
      (since : Option ℕ) (r : Result CadenceError (Option Text))
      → (r ≡ ok none) ⊎ ((e : CadenceError) × (r ≡ err e))
      → is_first_every since r ≡ false
  no_cadence none (ok none) h = refl
  no_cadence none (ok (some expr)) (inl e) = absurd cc
  no_cadence none (ok (some expr)) (inr (e, clash)) = absurd cc
  no_cadence none (err e) h = refl
  no_cadence (some since) r h = refl

  cadence-Agrees :
      (since : Option ℕ) (r : Result CadenceError (Option Text))
      → is_tick_cadence r ≡ false
      → Agrees now
          (is_first_every since r)
          (r >>= λ expr. is_due_at local expr since created_at now)
          (r >>= λ expr. next_due_at local expr since created_at now tick_secs)
  unfolding next_due_at is_due_at
  cadence-Agrees since (ok (some expr)) other = due_at-Agrees since expr other
  cadence-Agrees since (ok none) other = rw (no_cadence since (ok none) (inl refl)) (refl, tt)
  cadence-Agrees since (err e) other = rw (no_cadence since (err e) (inr (e, refl))) (refl, tt)

  -- Before the last millisecond of an `i64`, a cadence other than `@tick` is due exactly if its next
  -- due time is known and not after now, and where that time cannot be told the question whether it is
  -- due gives the same error. The one exception is an `@every` cadence of a project that was never
  -- scheduled: it is due, and its next due time, if it can be told, is now.
  pub is_due-next_due_ms :
      (schedule_cron : Option Text) (since : Option ℕ)
      → is_tick_cadence (effective_cadence schedule_cron) ≡ false
      → Agrees now
          (is_first_every since (effective_cadence schedule_cron))
          (is_due local schedule_cron since created_at now)
          (next_due_ms local schedule_cron since created_at now tick_secs)
  unfolding next_due_ms is_due
  is_due-next_due_ms schedule_cron since other =
      cadence-Agrees since (effective_cadence schedule_cron) other
