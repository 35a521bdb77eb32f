-- ===== src/Control/Plans/Retry.antt =====
-- Which statuses an operator can execute, and that a retry always leads to a phase that runs.
use mathlib.Core.List.{reverse}
use auwsx.Common.{
  Bool, List, Option, [], arith, is_ok, is_some, none, ok, refl, some, true, unwrap_or, ◌||◌, ◌∷◌,
  ◌≡◌,
}
use auwsx.Common.Outcome.{is_ok, ok}
use auwsx.Status.{IssueStatus, failed, is_actionable, new, ready_to_merge, status_eq}
use auwsx.Model.{AgentRun, Issue, Role}
use auwsx.Scheduler.{plan_phase}
use auwsx.Control.Plans.{
  first_runnable, keep_runnable, parse_before, plan_issue_execute, retry_status_from_runs,
  run_phase,
}

-- The statuses with a phase are exactly the actionable ones, and every phase needs a worktree.
pub plan_phase-actionable :
    (s : IssueStatus)
    → (is_some (plan_phase s) ≡ is_actionable s)
      × ((role : Role) (worktree : Bool) → plan_phase s ≡ some (role, worktree) → worktree ≡ true)
unfolding plan_phase is_actionable
plan_phase-actionable s = ground arith

keep_runnable-actionable :
    (o : Option IssueStatus) (s : IssueStatus) → keep_runnable o ≡ some s → is_actionable s ≡ true
keep_runnable-actionable none s h = ground arith
keep_runnable-actionable (some t) s h = ground (arith, (plan_phase-actionable t).0)

first_runnable-actionable :
    (runs : List AgentRun) (s : IssueStatus) → first_runnable runs ≡ some s → is_actionable s ≡ true
unfolding first_runnable
first_runnable-actionable [] s h = cc
first_runnable-actionable (run ∷ runs) s h = ground (
  arith,
  keep_runnable-actionable (parse_before run.status_before) s,
  first_runnable-actionable runs s,
)

unwrap_or-actionable :
    (o : Option IssueStatus)
    → ((s : IssueStatus) → o ≡ some s → is_actionable s ≡ true)
    → is_actionable (unwrap_or o new) ≡ true
unfolding is_actionable
unwrap_or-actionable none h = refl
unwrap_or-actionable (some s) h = h s refl

pub retry-actionable : (runs : List AgentRun) → is_actionable (retry_status_from_runs runs) ≡ true
unfolding retry_status_from_runs
retry-actionable runs =
    unwrap_or-actionable (first_runnable (reverse runs))
      (λ s h. first_runnable-actionable (reverse runs) s h)

-- A retry puts the issue in an actionable status. "Execute" is accepted exactly for the actionable
-- statuses, FAILED and READY_TO_MERGE, and what it runs right away is an actionable issue.
pub execute-classes :
    (issue : Issue) (runs : List AgentRun)
    → (is_actionable (retry_status_from_runs runs) ≡ true)
      × (is_ok (plan_issue_execute issue runs) ≡ (
          is_actionable issue.status
          || status_eq issue.status failed
          || status_eq issue.status ready_to_merge))
      × (plan_issue_execute issue runs ≡ ok run_phase → is_actionable issue.status ≡ true)
unfolding plan_issue_execute
execute-classes issue runs = (
  retry-actionable runs,
  ground (arith, (plan_phase-actionable issue.status).0),
  λ h. ground (arith, (plan_phase-actionable issue.status).0),
)
