-- ===== src/Cron/Fields.antt =====
-- How a cron text falls into its fields, and a step field into its one component.
use mathlib.Core.List.{append-nil}
use auwsx.Common.{
  &&-true, Bool, List, Result, Text, [], all, arith, codes, err, false, is_whitespace, not, ok,
  refl, text_eq, true, ℕ, ◌++◌, ◌==◌, ◌∷◌, ◌≡◌, ◌≤◌,
}
use auwsx.Common.Decimal.{
  is_ascii_digit, parse-print, print_decimal, print_decimal-digits, split_on, strip_prefix,
}
use auwsx.Cron.{
  CadenceError, Field, component_values, components_values, max_u32, parse_field, sort_dedup,
  step_component,
}
use auwsx.Common.Outcome.{Result, err, ok, ◌>>=◌}

split_on-free : (p : ℕ → Bool) (s : Text) → all (λ c. not (p c)) s ≡ true → split_on p s ≡ s ∷ []
unfolding split_on all
split_on-free p [] h = refl
split_on-free p (c ∷ s) h =
    let (free, rest) = &&-true (not (p c)) (all (λ c. not (p c)) s) h in
    let e : p c ≡ false = ground arith in rw (e, split_on-free p s rest) refl

pub split_on-at :
    (p : ℕ → Bool) (s : Text) (c : ℕ) (t : Text)
    → all (λ c. not (p c)) s ≡ true
    → p c ≡ true
    → split_on p (s ++ c ∷ t) ≡ s ∷ split_on p t
unfolding split_on all
split_on-at p [] c t h e = rw e refl
split_on-at p (d ∷ s) c t h e =
    let (free, rest) = &&-true (not (p d)) (all (λ c. not (p c)) s) h in
    let e' : p d ≡ false = ground arith in rw (e', split_on-at p s c t rest e) refl

pub all-weaken :
    (p q : ℕ → Bool) (s : Text)
    → ((c : ℕ) → p c ≡ true → q c ≡ true)
    → all p s ≡ true
    → all q s ≡ true
unfolding all
all-weaken p q [] f h = refl
all-weaken p q (c ∷ s) f h =
    let (here, rest) = &&-true (p c) (all p s) h in rw (f c here, all-weaken p q s f rest) refl

-- a step field for a number that a machine integer holds
abbrev pub step_text : ℕ → Text
step_text n = codes "*/" ++ print_decimal n

digit-plain : (c : ℕ) → is_ascii_digit c ≡ true → not (c == 44) ≡ true
digit-plain c h = ground arith

pub digit-solid : (c : ℕ) → is_ascii_digit c ≡ true → not (is_whitespace c) ≡ true
unfolding is_whitespace
digit-solid c h = ground arith

component-step :
    (low high n : ℕ) (sunday_alias : Bool)
    → n ≤ max_u32
    → component_values (step_text n) low high sunday_alias ≡ step_component low high n
unfolding component_values strip_prefix
component-step low high n sunday_alias fits = rw (parse-print max_u32 n fits (omega arith)) refl

abbrev pub field_of : Result CadenceError (List ℕ) → Result CadenceError Field
field_of (ok values) = ok (record { any_value = false; values = sort_dedup values })
field_of (err e) = err e

one_component :
    (r : Result CadenceError (List ℕ))
    → ((r >>= λ here. ok (here ++ [])) >>= λ values.
        ok (record { any_value = false; values = sort_dedup values }))
      ≡ field_of r
one_component (ok values) = rw (append-nil values) refl
one_component (err e) = refl

-- A field `*/n` is read as its one component.
pub field-step :
    (low high n : ℕ) (sunday_alias : Bool)
    → n ≤ max_u32
    → parse_field (step_text n) low high sunday_alias ≡ field_of (step_component low high n)
unfolding parse_field components_values text_eq
field-step low high n sunday_alias fits =
    let pieces : split_on (λ c. c == 44) (print_decimal n) ≡ print_decimal n ∷ [] =
      split_on-free (λ c. c == 44) (print_decimal n)
        (all-weaken is_ascii_digit (λ c. not (c == 44)) (print_decimal n) digit-plain
          (print_decimal-digits n (omega arith))) in
    rw (pieces, component-step low high n sunday_alias fits)
      (one_component (step_component low high n))
