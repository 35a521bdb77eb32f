-- ===== src/Cron/Scan.antt =====
-- The search of `CronSpec::next_after`: it finds the first minute that the schedule matches.
use auwsx.Common.{
  Bool, Bool-cases, Option, Result, ap, arith, err, false, inl, inr, none, ok, refl, some, subst,
  suc, sym, true, zero, ℕ, ◌*◌, ◌+◌, ◌<◌, ◌∙◌, ◌≡◌, ◌≤◌,
}
use auwsx.Cron.{
  CadenceError, CronSpec, LocalTime, hits, max_i64, max_scan_minutes, minute_ms, next_from,
  no_occurrence, saturate, scan,
}
use auwsx.Common.Outcome.{Result, err, ok}

module _ (local : ℕ → Option LocalTime) (spec : CronSpec) where
  -- no minute before the round `rounds` is matched
  abbrev pub NoneBefore : ℕ → ℕ → Type 0
  NoneBefore candidate rounds =
      (j : ℕ) → j < rounds → hits local spec (candidate + j * minute_ms) ≡ false

  -- what the result of a search of `rounds` minutes from the candidate on has to be
  abbrev pub IsFirstHit : ℕ → ℕ → Result CadenceError (Option ℕ) → Type 0
  IsFirstHit rounds candidate (ok none) = ⊥
  IsFirstHit rounds candidate (ok (some time)) =
      (k : ℕ) × ((k < rounds)
        × (time ≡ candidate + k * minute_ms)
        × (hits local spec time ≡ true)
        × NoneBefore candidate k)
  IsFirstHit rounds candidate (err e) = (e ≡ no_occurrence) × NoneBefore candidate rounds

  none_later :
      (candidate rounds : ℕ)
      → hits local spec candidate ≡ false
      → NoneBefore (candidate + minute_ms) rounds
      → NoneBefore candidate (suc rounds)
  none_later candidate rounds miss later zero small =
      let e : candidate + 0 * minute_ms ≡ candidate = omega arith in rw e miss
  none_later candidate rounds miss later (suc j) small =
      let e : candidate + suc j * minute_ms ≡ candidate + minute_ms + j * minute_ms = omega arith in
      rw e (later j (omega arith))

  first_later :
      (candidate rounds : ℕ) (r : Result CadenceError (Option ℕ))
      → hits local spec candidate ≡ false
      → IsFirstHit rounds (candidate + minute_ms) r
      → IsFirstHit (suc rounds) candidate r
  first_later candidate rounds (ok none) miss h = h
  first_later candidate rounds (ok (some time)) miss (k, (small, e, found, later)) =
      (suc k, (omega arith, omega (arith, e), found, none_later candidate k miss later))
  first_later candidate rounds (err e) miss (same, later) =
      (same, none_later candidate rounds miss later)

  -- one round, by whether it stops
  scan_round : ℕ → ℕ → Bool → Result CadenceError (Option ℕ)
  scan_round rounds candidate stops = elim stops [
    | true ↦ ok (some candidate)
    | false ↦ scan local rounds spec (saturate max_i64 (candidate + minute_ms))
  ]

  scan-hit :
      (rounds candidate : ℕ)
      → hits local spec candidate ≡ true
      → scan local (suc rounds) spec candidate ≡ ok (some candidate)
  unfolding scan scan_round
  scan-hit rounds candidate h = ap (scan_round rounds candidate) h

  scan-miss :
      (rounds candidate : ℕ)
      → hits local spec candidate ≡ false
      → candidate + minute_ms ≤ max_i64
      → scan local (suc rounds) spec candidate ≡ scan local rounds spec (candidate + minute_ms)
  unfolding scan scan_round
  scan-miss rounds candidate h fits =
      let next : saturate max_i64 (candidate + minute_ms) ≡ candidate + minute_ms = ground arith in
      ap (scan_round rounds candidate) h ∙ ap (scan local rounds spec) next

  scan-IsFirstHit :
      (rounds candidate : ℕ)
      → candidate + rounds * minute_ms ≤ max_i64
      → IsFirstHit rounds candidate (scan local rounds spec candidate)
  unfolding scan
  scan-IsFirstHit zero candidate fits = (refl, λ j small. absurd (omega arith))
  scan-IsFirstHit (suc rounds) candidate fits = elim (Bool-cases (hits local spec candidate)) [
    | inl e ↦
        subst (IsFirstHit (suc rounds) candidate) (sym (scan-hit rounds candidate e))
          (0, (omega arith, omega arith, e, λ j small. absurd (omega arith)))
    | inr e ↦
        subst (IsFirstHit (suc rounds) candidate) (sym (scan-miss rounds candidate e (omega arith)))
          (first_later candidate rounds (scan local rounds spec (candidate + minute_ms)) e
            (scan-IsFirstHit rounds (candidate + minute_ms) (omega arith)))
  ]

  -- The search for the next run of a cron schedule, from a first candidate whose scan window a
  -- timestamp of 64 bits can hold, ends in one of two ways: with the first minute of the window
  -- that the schedule matches, every earlier one being no match, or with an error, and then no
  -- minute of the window is a match.
  pub next_from-IsFirstHit :
      (candidate : ℕ)
      → candidate + max_scan_minutes * minute_ms ≤ max_i64
      → IsFirstHit max_scan_minutes candidate (next_from local spec candidate)
  unfolding next_from
  next_from-IsFirstHit candidate fits = scan-IsFirstHit max_scan_minutes candidate fits
