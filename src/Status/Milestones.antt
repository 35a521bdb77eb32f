-- ===== src/Status/Milestones.antt =====
-- What every list of legal moves to DONE has gone through: the matrix has no short cut.
use native.Mathlib.Nat.{suc-add, zero-add}
use auwsx.Common.{
  &&-true, Bool, List, Subseq, Subseq-tail, [], arith, inl, inr, keep, refl, skip, stop, subst, suc,
  true, zero, ℕ, ◌&&◌, ◌+◌, ◌-◌, ◌∷◌, ◌≡◌, ◌≢◌, ◌≤◌, ◌⊎◌,
}
use auwsx.Status.{
  IssueStatus, abandoned, auditing, conflict_blocked, done, failed, fixing, is_legal_transition,
  merging, new, plan_blocked, plan_ready, planning, ready_to_merge, resolving_conflict,
  review_blocked, reviewing, working,
}

-- A sequence of statuses that `transition` can write one after the other, beginning at `s`.
abbrev pub is_legal_run : IssueStatus → List IssueStatus → Bool
is_legal_run s [] = true
is_legal_run s (t ∷ run) = is_legal_transition s t && is_legal_run t run

-- the status that a run from `s` ends in
abbrev pub ends_in : IssueStatus → List IssueStatus → IssueStatus
ends_in s [] = s
ends_in s (t ∷ run) = ends_in t run

-- how far along the lifecycle a status stands
level : IssueStatus → ℕ
level new = 0
level planning = 1
level plan_blocked = 1
level plan_ready = 2
level working = 3
level reviewing = 4
level fixing = 4
level review_blocked = 4
level auditing = 5
level ready_to_merge = 6
level merging = 7
level resolving_conflict = 7
level conflict_blocked = 7
level done = 8
level failed = 8
level abandoned = 8

-- the statuses that lie ahead of a level
abbrev ahead : ℕ → List IssueStatus
ahead zero =
    planning ∷ plan_ready ∷ working ∷ reviewing ∷ auditing ∷ ready_to_merge ∷ merging ∷ done ∷ []
ahead (suc zero) =
    plan_ready ∷ working ∷ reviewing ∷ auditing ∷ ready_to_merge ∷ merging ∷ done ∷ []
ahead (suc (suc zero)) = working ∷ reviewing ∷ auditing ∷ ready_to_merge ∷ merging ∷ done ∷ []
ahead (suc (suc (suc zero))) = reviewing ∷ auditing ∷ ready_to_merge ∷ merging ∷ done ∷ []
ahead (suc (suc (suc (suc zero)))) = auditing ∷ ready_to_merge ∷ merging ∷ done ∷ []
ahead (suc (suc (suc (suc (suc zero))))) = ready_to_merge ∷ merging ∷ done ∷ []
ahead (suc (suc (suc (suc (suc (suc zero)))))) = merging ∷ done ∷ []
ahead (suc (suc (suc (suc (suc (suc (suc zero))))))) = done ∷ []
ahead _ = []

-- Going back in the lifecycle only adds to what lies ahead.
ahead-suc : (k : ℕ) (run : List IssueStatus) → Subseq (ahead k) run → Subseq (ahead (suc k)) run
ahead-suc zero run h = Subseq-tail h
ahead-suc (suc zero) run h = Subseq-tail h
ahead-suc (suc (suc zero)) run h = Subseq-tail h
ahead-suc (suc (suc (suc zero))) run h = Subseq-tail h
ahead-suc (suc (suc (suc (suc zero)))) run h = Subseq-tail h
ahead-suc (suc (suc (suc (suc (suc zero))))) run h = Subseq-tail h
ahead-suc (suc (suc (suc (suc (suc (suc zero)))))) run h = Subseq-tail h
ahead-suc (suc (suc (suc (suc (suc (suc (suc k))))))) run h = stop

ahead-add : (d k : ℕ) (run : List IssueStatus) → Subseq (ahead k) run → Subseq (ahead (d + k)) run
ahead-add zero k run h = rw zero-add h
ahead-add (suc d) k run h = rw suc-add (ahead-suc (d + k) run (ahead-add d k run h))

-- A legal step, but to FAILED or ABANDONED, stays or falls back in the lifecycle, or enters the
-- status that comes next.
step_shape :
    (s t : IssueStatus)
    → is_legal_transition s t ≡ true
    → (level t ≤ level s)
      ⊎ ((ahead (level s) ≡ t ∷ ahead (level t)) ⊎ ((t ≡ failed) ⊎ (t ≡ abandoned)))
unfolding is_legal_transition level
step_shape new planning h = inr (inl refl)
step_shape planning plan_ready h = inr (inl refl)
step_shape plan_ready working h = inr (inl refl)
step_shape working reviewing h = inr (inl refl)
step_shape reviewing auditing h = inr (inl refl)
step_shape auditing ready_to_merge h = inr (inl refl)
step_shape ready_to_merge merging h = inr (inl refl)
step_shape merging done h = inr (inl refl)
step_shape review_blocked auditing h = inr (inl refl)
step_shape _ _ h = ground arith

-- FAILED and ABANDONED have no way on to DONE.
dead_end :
    (s : IssueStatus) (run : List IssueStatus)
    → (s ≡ failed) ⊎ (s ≡ abandoned)
    → is_legal_run s run ≡ true
    → ends_in s run ≢ done
unfolding is_legal_transition
dead_end s [] e h = ground arith
dead_end s (t ∷ run) e h = ground arith

level_gap : (s t : IssueStatus) → level t ≤ level s → level s - level t + level t ≡ level s
level_gap s t h = omega arith

visits :
    (s : IssueStatus) (run : List IssueStatus)
    → is_legal_run s run ≡ true
    → ends_in s run ≡ done
    → Subseq (ahead (level s)) run
unfolding level
visits s [] h e = rw e stop
visits s (t ∷ run) h e =
    let (legal, rest) = &&-true (is_legal_transition s t) (is_legal_run t run) h in
    elim (step_shape s t legal) [
      | inl le ↦
          subst (λ k. Subseq (ahead k) (t ∷ run)) (level_gap s t le)
            (skip (ahead-add (level s - level t) (level t) run (visits t run rest e)))
      | inr (inl next) ↦ rw next (keep (visits t run rest e))
      | inr (inr dead) ↦ absurd (dead_end t run dead rest e)
    ]

-- Every list of moves of the transition matrix from NEW to DONE passes, in this order, through
-- PLANNING, PLAN_READY, WORKING, REVIEWING, AUDITING, READY_TO_MERGE and MERGING, whatever it does in
-- between. A forced write does not ask the matrix and is no such move: by one an issue whose pull
-- request was merged at the remote repository goes from READY_TO_MERGE to DONE.
pub lifecycle_milestones :
    (run : List IssueStatus)
    → is_legal_run new run ≡ true
    → ends_in new run ≡ done
    → Subseq
        (planning ∷ plan_ready ∷ working ∷ reviewing ∷ auditing ∷ ready_to_merge ∷ merging ∷ done
          ∷ [])
        run
unfolding level
lifecycle_milestones run h e = visits new run h e
