-- ===== src/Schedule/Days.antt =====
-- The shorthand for a number of days, and the cron text that it stands for.
use auwsx.Common.{
  &&-true, Option, Text, [], all, ap, arith, codes, err, false, is_empty, is_whitespace, leb, none,
  not, ok, refl, some, subst, sym, text_eq, true, ℕ, ◌&&◌, ◌++◌, ◌<◌, ◌==◌, ◌∙◌, ◌∷◌, ◌≡◌, ◌≤◌,
}
use auwsx.Common.Decimal.{
  is_ascii_digit, lowercase-append, lowercase-digits, parse-print, print_decimal,
  print_decimal-digits, print_decimal-head, split_last-append, split_whitespace, strip_prefix,
  to_ascii_lowercase, trim-solid,
}
use auwsx.Cron.{
  CadenceError, LocalTime, max_i64, max_u32, parse_cron, parse_parts, step_component,
  step_exceeds_range, step_values,
}
use auwsx.Schedule.{
  cadence_word, days_to_cron, duration_shorthand_to_cadence, effective_cadence, effective_trimmed,
  is_amount, is_due, is_every, normalize_cadence_input, normalize_expr, normalize_trimmed, or_expr,
  or_shorthand, shorthand_cron, shorthand_parts, shorthand_value,
}
use auwsx.Cron.Fields.{all-weaken, digit-solid, field-step, split_on-at, step_text}
use auwsx.Common.Outcome.{err, ok, ◌>>=◌}
use mathlib.Core.List.{append_assoc}

step_fails : (n : ℕ) → 31 < n → n ≤ max_u32 → step_component 1 31 n ≡ err step_exceeds_range
unfolding step_component
step_fails n h fits = ground arith

step_succeeds : (n : ℕ) → 1 ≤ n → n ≤ 31 → step_component 1 31 n ≡ ok (step_values 32 n 31 1)
unfolding step_component
step_succeeds n h fits = ground arith

-- the cron text of some days, in its five fields
days_fields :
    (n : ℕ)
    → n ≤ max_u32
    → split_whitespace (codes "0 0 */" ++ print_decimal n ++ codes " * *")
      ≡ codes "0" ∷ codes "0" ∷ step_text n ∷ codes "*" ∷ codes "*" ∷ []
unfolding split_whitespace
days_fields n fits =
    rw
      (split_on-at is_whitespace (print_decimal n) 32 (codes "* *") (
        all-weaken is_ascii_digit (λ c. not (is_whitespace c)) (print_decimal n) digit-solid
          (print_decimal-digits n (omega arith))))
      refl

days_star : (n : ℕ) → Text
days_star n = codes "0 0 */" ++ print_decimal n ++ codes " * *"

days_to_cron-star : (n : ℕ) → (n == 1) ≡ false → (n == 7) ≡ false → days_to_cron n ≡ days_star n
unfolding days_to_cron days_star
days_to_cron-star n one seven = rw (one, seven) refl

parse-days-star :
    (n : ℕ)
    → n ≤ max_u32
    → parse_cron (days_star n)
      ≡ parse_parts (codes "0" ∷ codes "0" ∷ step_text n ∷ codes "*" ∷ codes "*" ∷ [])
unfolding parse_cron days_star
parse-days-star n fits = ap parse_parts (days_fields n fits)

parse-days-fails :
    (n : ℕ) → 31 < n → n ≤ max_u32 → parse_cron (days_star n) ≡ err step_exceeds_range
unfolding parse_parts
parse-days-fails n big fits =
    parse-days-star n fits ∙ rw (field-step 1 31 n false fits, step_fails n big fits) refl

shorthand-parts :
    (n : ℕ)
    → 1 ≤ n
    → n ≤ max_i64
    → shorthand_parts (some (print_decimal n, 100)) ≡ ok (some (days_to_cron n))
unfolding shorthand_parts shorthand_value is_amount shorthand_cron
shorthand-parts n positive fits =
    let (d, rest, (e, digit)) = print_decimal-head n in
    let some_digit : is_empty (print_decimal n) ≡ false = rw e refl in
    let nonzero : (n == 0) ≡ false = ground arith in
    rw
      (
        some_digit,
        print_decimal-digits n (omega arith),
        parse-print max_i64 n fits (omega arith),
        nonzero,
      )
      refl

word-digit : (d : ℕ) (s : Text) → is_ascii_digit d ≡ true → cadence_word (d ∷ s) ≡ none
unfolding cadence_word text_eq
word-digit d s h =
    let m : (d == 109) ≡ false = ground arith in
    let a : (d == 64) ≡ false = ground arith in
    let n : (d == 110) ≡ false = ground arith in
    let o : (d == 111) ≡ false = ground arith in
    let x : (d == 100) ≡ false = ground arith in rw (m, a, n, o, x) refl

-- a text of digits with a last `d` behind them is taken for a shorthand
normalize-amount :
    (d : ℕ) (rest cadence : Text)
    → all is_ascii_digit (d ∷ rest) ≡ true
    → shorthand_parts (some (d ∷ rest, 100)) ≡ ok (some cadence)
    → normalize_cadence_input (d ∷ rest ++ 100 ∷ []) ≡ ok (some cadence)
unfolding normalize_cadence_input normalize_trimmed or_shorthand duration_shorthand_to_cadence all
    to_ascii_lowercase
normalize-amount d rest cadence digits e =
    let (digit, others) = &&-true (is_ascii_digit d) (all is_ascii_digit rest) digits in
    let solid : is_whitespace d ≡ false = let q = digit-solid d digit in ground (arith, q) in
    ap normalize_trimmed (trim-solid d rest 100 solid refl)
    ∙ ap (λ t. or_shorthand (d ∷ rest ++ 100 ∷ []) t (cadence_word t))
        (lowercase-digits (d ∷ rest) (100 ∷ []) digits)
    ∙ ap (λ w. or_shorthand (d ∷ rest ++ 100 ∷ []) (d ∷ rest ++ 100 ∷ []) w)
        (word-digit d (rest ++ 100 ∷ []) digit)
    ∙ ap (λ p. shorthand_parts p >>= or_expr (d ∷ rest ++ 100 ∷ []) (d ∷ rest ++ 100 ∷ []))
        (split_last-append (d ∷ rest) 100)
    ∙ ap (λ r. r >>= or_expr (d ∷ rest ++ 100 ∷ []) (d ∷ rest ++ 100 ∷ [])) e

normalize-printed :
    (amount : Text) (d : ℕ) (rest cadence : Text)
    → amount ≡ d ∷ rest
    → all is_ascii_digit amount ≡ true
    → shorthand_parts (some (amount, 100)) ≡ ok (some cadence)
    → normalize_cadence_input (amount ++ 100 ∷ []) ≡ ok (some cadence)
normalize-printed amount d rest cadence same digits e =
    rw same (normalize-amount d rest cadence (rw same at digits) (rw same at e))

-- a text that starts with a digit and ends with a star is no shorthand, and is read as cron
normalize-cron :
    (d : ℕ) (middle : Text) (e : CadenceError)
    → is_ascii_digit d ≡ true
    → parse_cron (d ∷ middle ++ 42 ∷ []) ≡ err e
    → normalize_cadence_input (d ∷ middle ++ 42 ∷ []) ≡ err e
unfolding normalize_cadence_input normalize_trimmed or_shorthand duration_shorthand_to_cadence
    to_ascii_lowercase normalize_expr is_every strip_prefix
normalize-cron d middle e digit h =
    let solid : is_whitespace d ≡ false = let q = digit-solid d digit in ground (arith, q) in
    let lower_d : (leb 65 d && leb d 90) ≡ false = ground arith in
    let no_at : (64 == d) ≡ false = ground arith in
    let raw = d ∷ middle ++ 42 ∷ [] in
    let lower_middle = to_ascii_lowercase middle in
    let lowered : to_ascii_lowercase raw ≡ d ∷ lower_middle ++ 42 ∷ [] =
      rw (lower_d, lowercase-append middle (42 ∷ [])) refl in
    ap normalize_trimmed (trim-solid d middle 42 solid refl)
    ∙ ap (λ t. or_shorthand raw t (cadence_word t)) lowered
    ∙ ap (λ w. or_shorthand raw (d ∷ lower_middle ++ 42 ∷ []) w)
        (word-digit d (lower_middle ++ 42 ∷ []) digit)
    ∙ ap (λ p. shorthand_parts p >>= or_expr raw (d ∷ lower_middle ++ 42 ∷ []))
        (split_last-append (d ∷ lower_middle) 42)
    ∙ rw (no_at, h) refl

normalize-star-fails :
    (n : ℕ) → 31 < n → n ≤ max_u32 → normalize_cadence_input (days_star n) ≡ err step_exceeds_range
unfolding days_star
normalize-star-fails n big fits =
    let middle = 32 ∷ 48 ∷ 32 ∷ 42 ∷ 47 ∷ (print_decimal n ++ 32 ∷ 42 ∷ 32 ∷ []) in
    let shape : 48 ∷ middle ++ 42 ∷ [] ≡ days_star n =
      ap (λ t. 48 ∷ 32 ∷ 48 ∷ 32 ∷ 42 ∷ 47 ∷ t)
        (append_assoc (print_decimal n) (32 ∷ 42 ∷ 32 ∷ []) (42 ∷ [])) in
    subst (λ t. normalize_cadence_input t ≡ err step_exceeds_range) shape
      (normalize-cron 48 middle step_exceeds_range refl (
        subst (λ t. parse_cron t ≡ err step_exceeds_range) (sym shape)
          (parse-days-fails n big fits)))

effective-star :
    (n : ℕ) (e : CadenceError)
    → normalize_cadence_input (days_star n) ≡ err e
    → effective_cadence (some (days_star n)) ≡ err e
unfolding effective_cadence days_star effective_trimmed
effective-star n e h =
    let middle = 32 ∷ 48 ∷ 32 ∷ 42 ∷ 47 ∷ (print_decimal n ++ 32 ∷ 42 ∷ 32 ∷ []) in
    let shape : 48 ∷ middle ++ 42 ∷ [] ≡ days_star n =
      ap (λ t. 48 ∷ 32 ∷ 48 ∷ 32 ∷ 42 ∷ 47 ∷ t)
        (append_assoc (print_decimal n) (32 ∷ 42 ∷ 32 ∷ []) (42 ∷ [])) in
    subst (λ t. effective_cadence (some t) ≡ normalize_cadence_input t) shape
      (ap effective_trimmed (trim-solid 48 middle 42 refl refl))
    ∙ h

-- The shorthand for a number of days from 32 to 2 ^ 32 - 1 is accepted, and what is stored for it is
-- the cron text for that number, whose evaluation always fails: its step is larger than the range of
-- the field.
pub long_days-never_due :
    (local : ℕ → Option LocalTime) (n : ℕ) (since : Option ℕ) (created_at now : ℕ)
    → 31 < n
    → n ≤ max_u32
    → (normalize_cadence_input (print_decimal n ++ codes "d") ≡ ok (some (days_to_cron n)))
      × (is_due local (some (days_to_cron n)) since created_at now ≡ err step_exceeds_range)
long_days-never_due local n since created_at now big fits =
    let (d, rest, (same, digit)) = print_decimal-head n in
    let star = days_to_cron-star n (ground arith) (ground arith) in
    let failed_read : effective_cadence (some (days_to_cron n)) ≡ err step_exceeds_range =
      rw star (effective-star n step_exceeds_range (normalize-star-fails n big fits)) in
    (
      normalize-printed (print_decimal n) d rest (days_to_cron n) same
          (print_decimal-digits n (omega arith)) (shorthand-parts n (omega arith) (omega arith)),
      unfold is_due in rw failed_read refl,
    )
