-- ===== src/Control/Plans.antt =====
-- crates/auwsx-core/src/issue_control.rs: what an operator's "execute" and "retry" mean for a status.
pub mod Retry
use mathlib.Core.List.{reverse}
use auwsx.Common.{
  List, Option, Result, String, [], err, if◌then◌else◌, is_some, ltb, none, ok, or_else, some,
  unwrap_or, ℕ, ◌∷◌,
}
use auwsx.Status.{IssueStatus, failed, from_str, new, ready_to_merge, status_eq}
use auwsx.Model.{AgentRun, Issue}
use auwsx.Scheduler.{plan_phase}

pub data IssueExecutePlan : Type 0 where
  run_phase : IssueExecutePlan
  retry_failed : IssueStatus → IssueExecutePlan
  approve_merge : IssueExecutePlan

pub data ProjectExecutePlan : Type 0 where
  tick_scheduler approve_ready_merge_queue : ProjectExecutePlan

pub data NotExecutable : Type 0 where
  not_executable : ℕ → IssueStatus → NotExecutable

abbrev pub parse_before : Option String → Option IssueStatus
parse_before none = none
parse_before (some word) = from_str word

abbrev pub keep_runnable : Option IssueStatus → Option IssueStatus
keep_runnable none = none
keep_runnable (some status) = if is_some (plan_phase status) then some status else none

-- `filter_map`, `filter_map` and `find` on the runs, which stops at the first status that passes
unfoldable pub first_runnable : List AgentRun → Option IssueStatus
first_runnable [] = none
first_runnable (run ∷ runs) =
    or_else (keep_runnable (parse_before run.status_before)) (first_runnable runs)

unfoldable pub retry_status_from_runs : List AgentRun → IssueStatus
unfolding first_runnable
retry_status_from_runs runs = unwrap_or (first_runnable (reverse runs)) new

unfoldable pub plan_issue_execute : Issue → List AgentRun → Result NotExecutable IssueExecutePlan
unfolding status_eq plan_phase retry_status_from_runs
plan_issue_execute issue runs =
    if status_eq issue.status ready_to_merge
    then ok approve_merge
    else if status_eq issue.status failed
    then ok (retry_failed (retry_status_from_runs runs))
    else if is_some (plan_phase issue.status)
    then ok run_phase
    else err (not_executable issue.id issue.status)

unfoldable pub plan_project_execute : ℕ → ProjectExecutePlan
plan_project_execute ready_to_merge_count =
    if ltb 0 ready_to_merge_count then approve_ready_merge_queue else tick_scheduler
