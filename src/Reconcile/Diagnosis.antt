-- ===== src/Reconcile/Diagnosis.antt =====
-- reconcile.rs: `diagnose_issue` and `validate_agent_action`.
use auwsx.Common.{
  Bool, List, Option, Result, Text, [], codes, err, false, find, if◌then◌else◌, is_some, none, not,
  ok, or_fail, some, text_eq, true, ℕ, ◌&&◌, ◌++◌, ◌==◌, ◌||◌, ◌∷◌,
}
use auwsx.Common.Outcome.{Result, err, guard, ok, or_fail, ◌>>=◌, ◌>>◌}
use auwsx.Common.Decimal.{print_decimal}
use auwsx.Status.{IssueStatus, conflict_blocked, failed, is_terminal, merging, ready_to_merge}
use auwsx.Model.{Issue}
use auwsx.LocalMerge.{Output, join}
use auwsx.Pipeline.{branch_for_issue}
use auwsx.Reconcile.{
  ReconcileActionKind, ReconcileDiagnosis, ReconcileError, ReconcileIssueReport, absent_from_report,
  apply_merge, branch_exists, branch_is_ancestor_of_head, cleanup_worktree, dirty_branch_overlap,
  failed_with_worktree, manual_required, mark_done, merge_conflict, merge_preflight, missing_branch,
  needs_failed, needs_managed_branch, needs_represented, needs_safe, needs_terminal, needs_worktree,
  nothing_to_do, not_applyable, now_running, queue_agentic_reconcile, represented_in_main,
  restore_dirty_blocked, retry_issue, safe_to_merge, stale_no_diff_branch, trees_equal, unknown,
}

unfoldable pub base_report :
    Issue
    → ReconcileDiagnosis
    → ℕ
    → ReconcileActionKind
    → Option Text
    → Option Text
    → ReconcileIssueReport
base_report issue diagnosis confidence action reason command = record {
  issue_id = issue.id;
  status = issue.status;
  branch = issue.branch;
  worktree_path = issue.worktree_path;
  diagnosis = diagnosis;
  confidence = confidence;
  proposed_action = action;
  blocking_reason = reason;
  manual_command = command;
}

abbrev pub is_merge_recovery_status : IssueStatus → Bool
is_merge_recovery_status ready_to_merge = true
is_merge_recovery_status merging = true
is_merge_recovery_status conflict_blocked = true
is_merge_recovery_status _ = false

abbrev pub awaits_merge : IssueStatus → Bool
awaits_merge ready_to_merge = true
awaits_merge merging = true
awaits_merge _ = false

abbrev pub is_failed : IssueStatus → Bool
is_failed failed = true
is_failed _ = false

-- `auwsx issue <words> <id>` and what follows
unfoldable pub issue_command : Text → Issue → Text → Option Text
unfolding print_decimal
issue_command words issue rest =
    some (codes "auwsx issue " ++ words ++ codes " " ++ print_decimal issue.id ++ rest)

unfoldable pub without_branch : Issue → ReconcileIssueReport
unfolding base_report issue_command
without_branch issue =
    if is_merge_recovery_status issue.status
    then base_report issue missing_branch 100 manual_required
        (some (codes "issue has no branch for merge/recovery"))
        (issue_command (codes "get") issue [])
    else (if is_failed issue.status && not (is_some issue.worktree_path)
        then base_report issue unknown 50 queue_agentic_reconcile
            (some (codes "failed issue has no branch or worktree to inspect"))
            (issue_command (codes "retry") issue [])
        else base_report issue unknown 50 nothing_to_do none none)

module _ (git : List Text → Result ReconcileError Output) where
  -- `&&`, which asks git only where the first test holds
  abbrev pub and_asks : Bool → Result ReconcileError Bool → Result ReconcileError Bool
  and_asks true answer = answer
  and_asks false answer = ok false

  unfoldable pub after_overlap :
      Issue → Text → List Text → Result ReconcileError ReconcileIssueReport
  unfolding base_report issue_command merge_preflight join
  after_overlap issue branch (path ∷ paths) = ok (
      base_report issue restore_dirty_blocked 95 queue_agentic_reconcile
        (some (
          codes "dirty primary worktree overlaps branch changes: "
          ++ join (codes ", ") (path ∷ paths)))
        (issue_command (codes "apply-merge") issue []))
  after_overlap issue branch [] = do
    trial ← merge_preflight git branch
    ok (
        if trial.conflicts
        then base_report issue merge_conflict 95 queue_agentic_reconcile (some trial.summary)
            (issue_command (codes "apply-merge") issue [])
        else base_report issue safe_to_merge 90 apply_merge (some trial.summary)
            (issue_command (codes "merge") issue []))

  unfoldable pub diagnose_rest : Issue → ReconcileIssueReport
  unfolding base_report issue_command
  diagnose_rest issue =
      if is_failed issue.status && is_some issue.worktree_path
      then base_report issue failed_with_worktree 80 queue_agentic_reconcile
          (some (codes "failed issue still has worktree state to inspect"))
          (issue_command (codes "retry") issue [])
      else base_report issue unknown 50 queue_agentic_reconcile
          (some (codes "issue needs operator or agentic reconciliation"))
          (issue_command (codes "get") issue [])

  unfoldable pub diagnose_unmerged : Issue → Text → Result ReconcileError ReconcileIssueReport
  unfolding dirty_branch_overlap after_overlap diagnose_rest
  diagnose_unmerged issue branch =
      if awaits_merge issue.status
      then (dirty_branch_overlap git branch >>= after_overlap issue branch)
      else ok (diagnose_rest issue)

  unfoldable pub after_trees : Issue → Text → Bool → Result ReconcileError ReconcileIssueReport
  unfolding base_report issue_command diagnose_unmerged
  after_trees issue branch true = ok (
      base_report issue stale_no_diff_branch 100 mark_done
        (some (codes "branch " ++ branch ++ codes " has the same tree as HEAD"))
        (issue_command (codes "status") issue (codes " DONE --force")))
  after_trees issue branch false = diagnose_unmerged issue branch

  unfoldable pub after_ancestor : Issue → Text → Bool → Result ReconcileError ReconcileIssueReport
  unfolding base_report issue_command trees_equal after_trees
  after_ancestor issue branch true = ok (
      base_report issue represented_in_main 100 mark_done
        (some (codes "branch " ++ branch ++ codes " is already contained in HEAD"))
        (issue_command (codes "status") issue (codes " DONE --force")))
  after_ancestor issue branch false =
      and_asks (is_merge_recovery_status issue.status) (trees_equal git (codes "HEAD") branch)
      >>= after_trees issue branch

  unfoldable pub after_exists : Issue → Text → Bool → Result ReconcileError ReconcileIssueReport
  unfolding base_report issue_command branch_is_ancestor_of_head after_ancestor
  after_exists issue branch false = ok (
      base_report issue missing_branch 100 manual_required
        (some (codes "branch " ++ branch ++ codes " does not exist"))
        (issue_command (codes "cleanup") issue []))
  after_exists issue branch true =
      and_asks (is_merge_recovery_status issue.status) (branch_is_ancestor_of_head git branch)
      >>= after_ancestor issue branch

  unfoldable pub diagnose_branch : Issue → Option Text → Result ReconcileError ReconcileIssueReport
  unfolding base_report issue_command branch_for_issue without_branch branch_exists after_exists
      text_eq
  diagnose_branch issue none = ok (without_branch issue)
  diagnose_branch issue (some branch) =
      if not (text_eq branch (branch_for_issue issue.id))
        && (is_merge_recovery_status issue.status || is_failed issue.status)
      then ok (
          base_report issue unknown 100 manual_required
            (some (
              codes "branch "
              ++ branch
              ++ codes " is not the auwsx-managed branch "
              ++ branch_for_issue issue.id))
            (issue_command (codes "get") issue []))
      else (branch_exists git branch >>= after_exists issue branch)

  unfoldable pub diagnose_issue : Issue → Bool → Result ReconcileError ReconcileIssueReport
  unfolding base_report print_decimal diagnose_branch
  diagnose_issue issue true = ok (
      base_report issue now_running 100 nothing_to_do
        (some (codes "issue " ++ print_decimal issue.id ++ codes " is currently running")) none)
  diagnose_issue issue false = diagnose_branch issue issue.branch

abbrev pub is_represented : ReconcileDiagnosis → Bool
is_represented represented_in_main = true
is_represented stale_no_diff_branch = true
is_represented _ = false

abbrev pub is_safe : ReconcileDiagnosis → Bool
is_safe safe_to_merge = true
is_safe _ = false

unfoldable pub is_branch : Option Text → Text → Bool
unfolding text_eq
is_branch none expected = false
is_branch (some branch) expected = text_eq branch expected

unfoldable pub check_action :
    ReconcileIssueReport → ℕ → ReconcileActionKind → Result ReconcileError (Unit {0})
unfolding branch_for_issue is_branch is_terminal
check_action report issue_id mark_done = guard (is_represented report.diagnosis) needs_represented
check_action report issue_id cleanup_worktree = do
  guard (is_branch report.branch (branch_for_issue issue_id)) needs_managed_branch
  guard (is_some report.worktree_path) needs_worktree
  guard (is_terminal report.status || is_failed report.status) needs_terminal
check_action report issue_id retry_issue = guard (is_failed report.status) needs_failed
check_action report issue_id apply_merge = guard (is_safe report.diagnosis) needs_safe
check_action report issue_id _ = err not_applyable

-- of the report, only its list of issues is read
unfoldable pub validate_agent_action :
    List ReconcileIssueReport → ℕ → ReconcileActionKind → Result ReconcileError (Unit {0})
unfolding find check_action
validate_agent_action issues issue_id action = do
  report ← or_fail (find (λ r. r.issue_id == issue_id) issues) (absent_from_report issue_id)
  check_action report issue_id action
