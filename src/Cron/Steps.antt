-- ===== src/Cron/Steps.antt =====
-- The values that a step component `*/n` of a field stands for.
use auwsx.Common.{
  Bool, Bool-cases, List, [], any, ap, arith, contains, false, inl, inr, leb, ltb, ok, refl, suc,
  sym, true, zero, ℕ, ◌*◌, ◌+◌, ◌-◌, ◌<◌, ◌==◌, ◌||◌, ◌↔◌, ◌∙◌, ◌∷◌, ◌≡◌, ◌≤◌,
}
use auwsx.Cron.{
  Field, field_matches, insert_value, max_u32, parse_field, saturate, sort_dedup, step_component,
  step_values,
}
use auwsx.Cron.Fields.{field-step, field_of, step_text}
use auwsx.Common.Outcome.{ok}

contains-insert_value :
    (v : ℕ) (xs : List ℕ) (w : ℕ) → contains (insert_value v xs) w ≡ (v == w || contains xs w)
unfolding contains any insert_value
contains-insert_value v [] w = refl
contains-insert_value v (x ∷ xs) w = ground (arith, contains-insert_value v xs w)

-- Sorting and removing repetitions keep the set of values.
contains-sort_dedup : (vs : List ℕ) (w : ℕ) → contains (sort_dedup vs) w ≡ contains vs w
unfolding contains any sort_dedup
contains-sort_dedup [] w = refl
contains-sort_dedup (v ∷ vs) w =
    contains-insert_value v (sort_dedup vs) w ∙ ap (λ b. v == w || b) (contains-sort_dedup vs w)

-- some number of steps leads from the first value to this one, which is not past the top
abbrev pub IsReached : ℕ → ℕ → ℕ → ℕ → Type 0
IsReached step top first v = (k : ℕ) × ((v ≡ first + k * step) × (v ≤ top))

module _ (step top : ℕ) (positive : 1 ≤ step) (small : top + step < max_u32) where
  step_values-on :
      (fuel value : ℕ)
      → value ≤ top
      → step_values (suc fuel) step top value ≡ value ∷ step_values fuel step top (value + step)
  unfolding step_values
  step_values-on fuel value h =
      let t : leb value top ≡ true = ground arith in
      let s : saturate max_u32 (value + step) ≡ value + step = ground arith in
      let b : (value + step == max_u32) ≡ false = ground arith in rw (t, s, b) refl

  step_values-off : (fuel value : ℕ) → top < value → step_values fuel step top value ≡ []
  unfolding step_values
  step_values-off zero value h = refl
  step_values-off (suc fuel) value h = let t : leb value top ≡ false = ground arith in rw t refl

  only-IsReached :
      (fuel value v : ℕ)
      → contains (step_values fuel step top value) v ≡ true
      → IsReached step top value v
  unfolding contains any
  only-IsReached zero value v h =
      absurd (let q : false ≡ true = unfold step_values in h in ground arith)
  only-IsReached (suc fuel) value v h = elim (Bool-cases (leb value top)) [
    | inl e ↦
        let within : value ≤ top = ground (arith, e) in
        let here : (value == v || contains (step_values fuel step top (value + step)) v) ≡ true =
          rw (step_values-on fuel value within) at h in
        elim (Bool-cases (value == v)) [
          | inl same ↦ (0, (ground (arith, same), ground (arith, same, within)))
          | inr other ↦
              let (k, (reached, bound)) =
                only-IsReached fuel (value + step) v (ground (arith, here, other)) in
              (
                suc k,
                (
                  let q : suc k * step ≡ step + k * step = grind arith in omega (arith, reached, q),
                  bound,
                ),
              )
        ]
    | inr e ↦ absurd (
        let clash : contains [] v ≡ true =
          rw (step_values-off (suc fuel) value (ground (arith, e))) at h in
        ground (arith, clash))
  ]

  all-IsReached :
      (fuel value v k : ℕ)
      → top < value + fuel
      → v ≡ value + k * step
      → v ≤ top
      → contains (step_values fuel step top value) v ≡ true
  unfolding contains any
  all-IsReached zero value v k enough e h = absurd (omega arith)
  all-IsReached (suc fuel) value v zero enough e h =
      let same : (value == v) ≡ true = let q : 0 * step ≡ 0 = omega arith in ground (arith, q) in
      rw (step_values-on fuel value (let q : 0 * step ≡ 0 = omega arith in omega (arith, q)), same)
        refl
  all-IsReached (suc fuel) value v (suc k) enough e h =
      let q : suc k * step ≡ step + k * step = grind arith in
      let later = all-IsReached fuel (value + step) v k (omega arith) (omega (arith, q)) h in
      rw (step_values-on fuel value (omega (arith, q))) (ground (arith, later))

-- A field `*/n`, for a positive n that is at most the number of values of the field, is read, and
-- the field that is read matches exactly the values that some number of steps of n leads to from
-- the lowest value, up to the highest.
pub step_field-IsReached :
    (low high n : ℕ) (sunday_alias : Bool)
    → 1 ≤ n
    → n ≤ high - low + 1
    → high + n < max_u32
    → (field : Field) × ((parse_field (step_text n) low high sunday_alias ≡ ok field)
        × ((v : ℕ) → (field_matches field v ≡ true) ↔ IsReached n high low v))
step_field-IsReached low high n sunday_alias positive within small =
    let values = step_values (suc high) n high low in
    let accepted : step_component low high n ≡ ok values =
      let zero_no : (n == 0) ≡ false = ground arith in
      let no_more : ltb (saturate max_u32 (high - low + 1)) n ≡ false = ground arith in
      unfold step_component in rw (zero_no, no_more) refl in
    (
      record { any_value = false; values = sort_dedup values },
      (
        field-step low high n sunday_alias (omega arith) ∙ ap field_of accepted,
        λ v.
            unfold field_matches in
            (
              λ h.
                  only-IsReached n high positive small (suc high) low v
                    (sym (contains-sort_dedup values v) ∙ h),
              λ (k, (e, top)).
                  contains-sort_dedup values v
                  ∙ all-IsReached n high positive small (suc high) low v k (omega arith) e top,
            ),
      ),
    )
