-- ===== src/Status/Transitions.antt =====
-- The legal transitions as a graph: which statuses absorb, and what can still be reached.
use auwsx.Common.{err, false, if◌then◌else◌, inl, inr, ok, refl, true, ◌≡◌, ◌⊎◌}
use auwsx.Status.{
  IssueStatus, abandoned, auditing, check_transition, conflict_blocked, done, failed, fixing,
  illegal, is_legal_transition, is_terminal, merging, new, plan_blocked, plan_ready, planning,
  ready_to_merge, resolving_conflict, review_blocked, reviewing, working,
}

-- One autonomous move, and any number of them.
infix 40 ◌⟶◌ ◌⟶*◌
pub data ◌⟶◌ : IssueStatus → IssueStatus → Type 0 where
  move : (s t : IssueStatus) → is_legal_transition s t ≡ true → s ⟶ t

pub data ◌⟶*◌ : IssueStatus → IssueStatus → Type 0 where
  here : {s : IssueStatus} → s ⟶* s
  step : {s t u : IssueStatus} → s ⟶ t → t ⟶* u → s ⟶* u

-- What `check_transition` accepts is a move, and its error names the two statuses.
pub check_transition-move :
    (s t : IssueStatus)
    → (check_transition s t ≡ (if is_legal_transition s t then ok tt else err (illegal s t)))
unfolding check_transition
check_transition-move s t = refl

home_merging : merging ⟶* done
unfolding is_legal_transition
home_merging = step (move merging done refl) here

home_ready : ready_to_merge ⟶* done
unfolding is_legal_transition
home_ready = step (move ready_to_merge merging refl) home_merging

home_auditing : auditing ⟶* done
unfolding is_legal_transition
home_auditing = step (move auditing ready_to_merge refl) home_ready

home_reviewing : reviewing ⟶* done
unfolding is_legal_transition
home_reviewing = step (move reviewing auditing refl) home_auditing

home_working : working ⟶* done
unfolding is_legal_transition
home_working = step (move working reviewing refl) home_reviewing

home_planning : planning ⟶* done
unfolding is_legal_transition
home_planning =
    step (move planning plan_ready refl) (step (move plan_ready working refl) home_working)

-- The shortest way on to DONE.
home : (s : IssueStatus) → is_terminal s ≡ false → s ⟶* done
unfolding is_legal_transition is_terminal
home new h = step (move new planning refl) home_planning
home planning h = home_planning
home plan_ready h = step (move plan_ready working refl) home_working
home plan_blocked h = step (move plan_blocked planning refl) home_planning
home working h = home_working
home reviewing h = home_reviewing
home fixing h = step (move fixing reviewing refl) home_reviewing
home review_blocked h = step (move review_blocked auditing refl) home_auditing
home auditing h = home_auditing
home ready_to_merge h = home_ready
home merging h = home_merging
home resolving_conflict h = step (move resolving_conflict merging refl) home_merging
home conflict_blocked h = step (move conflict_blocked merging refl) home_merging
home _ h = cc

-- The terminal statuses are exactly those with no way out. From every other status DONE can still be
-- reached by autonomous moves, and FAILED and ABANDONED by a single one.
pub terminal_or_live :
    (s : IssueStatus)
    → ((is_terminal s ≡ true) × ((t : IssueStatus) → is_legal_transition s t ≡ false))
      ⊎ ((is_terminal s ≡ false) × (s ⟶* done) × (s ⟶ failed) × (s ⟶ abandoned))
unfolding is_terminal is_legal_transition
terminal_or_live done = inl (refl, λ t. refl)
terminal_or_live failed = inl (refl, λ t. refl)
terminal_or_live abandoned = inl (refl, λ t. refl)
terminal_or_live _ = inr (refl, home _ refl, move _ failed refl, move _ abandoned refl)
