-- ===== src/Common/Decimal.antt =====
-- Decimal numbers as `parse` reads them and `format!` prints them, and the pieces of a text.
use mathlib.Core.List.{reverse, reverse-append, reverse-cons, reverse-reverse}
use auwsx.Common.{
  &&-true, Bool, Bool-cases, List, Option, Text, [], add_to_first, all, ap, arith, false, filter,
  if◌then◌else◌, inl, inr, is_empty, is_whitespace, leb, ltb, none, not, refl, some, suc, trim,
  trim_start, true, zero, ℕ, ◌%◌, ◌&&◌, ◌*◌, ◌++◌, ◌+◌, ◌-◌, ◌/◌, ◌<◌, ◌==◌, ◌^◌, ◌∙◌, ◌∷◌, ◌≡◌,
  ◌≤◌,
}
use auwsx.Common.Texts.{Text, add_to_first, is_empty, is_whitespace, trim, trim_start}
use auwsx.Common.Tests.{&&-true, Bool-cases, if◌then◌else◌, leb, ltb, ◌==◌}
use auwsx.Common.Lists.{all, filter}

abbrev pub is_ascii_digit : ℕ → Bool
is_ascii_digit c = leb 48 c && leb c 57

-- the value of the digits, after those that gave `n`; any other character has none
unfoldable pub digits_value : ℕ → Text → Option ℕ
digits_value n [] = some n
digits_value n (c ∷ s) =
    let rest = digits_value (n * 10 + (c - 48)) s in if is_ascii_digit c then rest else none

abbrev at_most : ℕ → Option ℕ → Option ℕ
at_most bound none = none
at_most bound (some n) = if leb n bound then some n else none

-- `s.parse()` at an unsigned type, or at a signed one for text without a minus sign: digits, behind
-- one plus sign at most, with a value that the type holds
unfoldable pub parse_unsigned : ℕ → Text → Option ℕ
unfolding digits_value
parse_unsigned bound [] = none
parse_unsigned bound (c ∷ []) = at_most bound (digits_value 0 (c ∷ []))
parse_unsigned bound (c ∷ d ∷ s) =
    at_most bound (digits_value 0 (if c == 43 then d ∷ s else c ∷ d ∷ s))

-- the digits of a number below `10 ^ fuel`, in front of a text
unfoldable pub print_onto : ℕ → ℕ → Text → Text
print_onto zero n s = s
print_onto (suc fuel) n s =
    let rest = print_onto fuel (n / 10) ((48 + n % 10) ∷ s) in
    if ltb n 10 then (48 + n) ∷ s else rest

-- a number below 10 ^ 20, which every machine integer is
unfoldable pub print_decimal : ℕ → Text
unfolding print_onto
print_decimal n = print_onto 20 n []

-- `starts_with`, `strip_prefix`
unfoldable pub strip_prefix : Text → Text → Option Text
strip_prefix [] s = some s
strip_prefix (c ∷ p) [] = none
strip_prefix (c ∷ p) (d ∷ s) = let rest = strip_prefix p s in if c == d then rest else none

-- `split`, at every character that passes the test
unfoldable pub split_on : (ℕ → Bool) → Text → List Text
split_on p [] = [] ∷ []
split_on p (c ∷ s) = let rest = split_on p s in if p c then [] ∷ rest else add_to_first c rest

-- `split_whitespace`
unfoldable pub split_whitespace : Text → List Text
unfolding split_on filter is_whitespace
split_whitespace s = filter (λ piece. not (is_empty piece)) (split_on is_whitespace s)

abbrev behind : ℕ → Option (Text × Text) → Option (Text × Text)
behind c none = none
behind c (some (before, after)) = some (c ∷ before, after)

-- `split_once`
unfoldable pub split_once : ℕ → Text → Option (Text × Text)
split_once sep [] = none
split_once sep (c ∷ s) =
    let rest = split_once sep s in if c == sep then some ([], s) else behind c rest

-- `to_ascii_lowercase`
unfoldable pub to_ascii_lowercase : Text → Text
to_ascii_lowercase [] = []
to_ascii_lowercase (c ∷ s) = (if leb 65 c && leb c 90 then c + 32 else c) ∷ to_ascii_lowercase s

-- `chars().last()`, with what stands before it
unfoldable pub split_last : Text → Option (Text × ℕ)
split_last [] = none
split_last (c ∷ []) = some ([], c)
split_last (c ∷ d ∷ s) = elim (split_last (d ∷ s)) [
  | none ↦ none
  | some (before, unit) ↦ some (c ∷ before, unit)
]

digits_value-digit :
    (acc d n : ℕ) (s : Text)
    → d < 10
    → acc * 10 + d ≡ n
    → digits_value acc ((48 + d) ∷ s) ≡ digits_value n s
unfolding digits_value
digits_value-digit acc d n s h sum =
    let t : is_ascii_digit (48 + d) ≡ true = ground arith in
    let e : acc * 10 + (48 + d - 48) ≡ n = omega arith in rw (t, e) refl

print_onto-value :
    (fuel n : ℕ) (s : Text)
    → n < 10 ^ fuel
    → digits_value 0 (print_onto fuel n s) ≡ digits_value n s
unfolding print_onto
print_onto-value zero n s h = let e : n ≡ 0 = omega arith in rw e refl
print_onto-value (suc fuel) n s h = elim (Bool-cases (ltb n 10)) [
  | inl e ↦ rw e (digits_value-digit 0 n n s (ground (arith, e)) (omega arith))
  | inr e ↦ rw e (
      print_onto-value fuel (n / 10) ((48 + n % 10) ∷ s) (omega arith)
      ∙ digits_value-digit (n / 10) (n % 10) n s (omega arith) (omega arith))
]

-- The digits that are printed read back as the number.
pub digits_value-print_decimal : (n : ℕ) → n < 10 ^ 20 → digits_value 0 (print_decimal n) ≡ some n
unfolding print_decimal digits_value
digits_value-print_decimal n h = print_onto-value 20 n [] h

-- What is printed starts with a digit, behind which only digits can have stood.
print_onto-head :
    (fuel n c : ℕ) (s : Text)
    → is_ascii_digit c ≡ true
    → (d : ℕ) × (rest : Text) × ((print_onto fuel n (c ∷ s) ≡ d ∷ rest) × (is_ascii_digit d ≡ true))
unfolding print_onto
print_onto-head zero n c s h = (c, s, (refl, h))
print_onto-head (suc fuel) n c s h = elim (Bool-cases (ltb n 10)) [
  | inl e ↦ rw e (48 + n, c ∷ s, (refl, ground arith))
  | inr e ↦ rw e (
      print_onto-head fuel (n / 10) (48 + n % 10) (c ∷ s)
        (let q : n % 10 < 10 = omega arith in ground arith))
]

pub print_decimal-head :
    (n : ℕ) → (d : ℕ) × (rest : Text) × ((print_decimal n ≡ d ∷ rest) × (is_ascii_digit d ≡ true))
unfolding print_decimal print_onto
print_decimal-head n = elim (Bool-cases (ltb n 10)) [
  | inl e ↦ rw e (48 + n, [], (refl, ground arith))
  | inr e ↦ rw e (
      print_onto-head 19 (n / 10) (48 + n % 10) []
        (let q : n % 10 < 10 = omega arith in ground arith))
]

parse-digits :
    (bound n d : ℕ) (rest : Text)
    → is_ascii_digit d ≡ true
    → digits_value 0 (d ∷ rest) ≡ some n
    → parse_unsigned bound (d ∷ rest) ≡ at_most bound (some n)
unfolding parse_unsigned
parse-digits bound n d [] digit value = rw value refl
parse-digits bound n d (c ∷ rest) digit value =
    let t : (d == 43) ≡ false = ground arith in rw (t, value) refl

-- A number that a machine integer of the bound holds is read back as it was printed.
pub parse-print :
    (bound n : ℕ) → n ≤ bound → n < 10 ^ 20 → parse_unsigned bound (print_decimal n) ≡ some n
parse-print bound n fits small =
    let (d, rest, (e, digit)) = print_decimal-head n in
    let t : leb n bound ≡ true = ground arith in
    let value : digits_value 0 (d ∷ rest) ≡ some n =
      rw (← e) (digits_value-print_decimal n small) in
    rw e (parse-digits bound n d rest digit value ∙ rw t refl)

print_onto-digits :
    (fuel n : ℕ) (s : Text)
    → n < 10 ^ fuel
    → all is_ascii_digit s ≡ true
    → all is_ascii_digit (print_onto fuel n s) ≡ true
unfolding print_onto all
print_onto-digits zero n s small h = h
print_onto-digits (suc fuel) n s small h = elim (Bool-cases (ltb n 10)) [
  | inl e ↦ let t : is_ascii_digit (48 + n) ≡ true = ground (arith, e) in rw e (rw (t, h) refl)
  | inr e ↦
      let t : is_ascii_digit (48 + n % 10) ≡ true =
        let q : n % 10 < 10 = omega arith in ground arith in
      rw e (print_onto-digits fuel (n / 10) ((48 + n % 10) ∷ s) (omega arith) (rw (t, h) refl))
]

pub print_decimal-digits : (n : ℕ) → n < 10 ^ 20 → all is_ascii_digit (print_decimal n) ≡ true
unfolding print_decimal all
print_decimal-digits n small = print_onto-digits 20 n [] small refl

trim_start-solid : (c : ℕ) (s : Text) → is_whitespace c ≡ false → trim_start (c ∷ s) ≡ c ∷ s
unfolding trim_start
trim_start-solid c s h = rw h refl

-- A text that starts and ends with a character that is no white space is left as it is.
pub trim-solid :
    (c : ℕ) (s : Text) (l : ℕ)
    → is_whitespace c ≡ false
    → is_whitespace l ≡ false
    → trim (c ∷ s ++ l ∷ []) ≡ c ∷ s ++ l ∷ []
unfolding trim
trim-solid c s l first last =
    ap (λ t. reverse (trim_start (reverse t))) (trim_start-solid c (s ++ l ∷ []) first)
    ∙ ap (λ t. reverse (trim_start t)) (reverse-append (c ∷ s) (l ∷ []))
    ∙ ap (λ t. reverse t) (trim_start-solid l (reverse (c ∷ s)) last)
    ∙ reverse-cons l (reverse (c ∷ s))
    ∙ ap (λ t. t ++ l ∷ []) (reverse-reverse (c ∷ s))

pub split_last-append : (s : Text) (l : ℕ) → split_last (s ++ l ∷ []) ≡ some (s, l)
unfolding split_last
split_last-append [] l = refl
split_last-append (c ∷ []) l = refl
split_last-append (c ∷ d ∷ s) l = rw (split_last-append (d ∷ s) l) refl

pub lowercase-digits :
    (s t : Text)
    → all is_ascii_digit s ≡ true
    → to_ascii_lowercase (s ++ t) ≡ s ++ to_ascii_lowercase t
unfolding to_ascii_lowercase all
lowercase-digits [] t h = refl
lowercase-digits (c ∷ s) t h =
    let (here, rest) = &&-true (is_ascii_digit c) (all is_ascii_digit s) h in
    let e : (leb 65 c && leb c 90) ≡ false = ground arith in rw (e, lowercase-digits s t rest) refl

pub lowercase-append :
    (s t : Text) → to_ascii_lowercase (s ++ t) ≡ to_ascii_lowercase s ++ to_ascii_lowercase t
unfolding to_ascii_lowercase
lowercase-append [] t = refl
lowercase-append (c ∷ s) t = rw (lowercase-append s t) refl
