-- ===== src/Tests/Reconcile.antt =====
-- A repository without dirty files in which every command of git succeeds, and an issue to merge.
use auwsx.Common.{
  Bool, List, Result, Text, [], codes, err, false, none, not, ok, refl, some, text_eq, ◌&&◌, ◌∷◌,
  ◌≡◌,
}
use auwsx.Common.Outcome.{Result, err, ok}
use auwsx.Status.{ready_to_merge}
use auwsx.Model.{Issue}
use auwsx.LocalMerge.{Output}
use auwsx.Pipeline.{branch_for_issue}
use auwsx.Tests.Fixtures.{demo_issue}
use auwsx.Reconcile.{ReconcileError, ReconcileIssueReport, apply_merge, safe_to_merge, spawning_git}
use auwsx.Reconcile.Diagnosis.{diagnose_issue, validate_agent_action}
use auwsx.Reconcile.Sound.{Fits, diagnose_issue-Fits}
use auwsx.Reconcile.Proposals.{IsGrounded, validate_agent_action-Demands}

abbrev answer : Bool → Result ReconcileError Output
answer fine = ok (record { success = fine; stdout = []; stderr = []; status = [] })

-- HEAD neither has the branch nor the same tree
abbrev clean_git : List Text → Result ReconcileError Output
unfolding text_eq
clean_git [] = err spawning_git
clean_git (command ∷ args) =
    answer (not (text_eq command (codes "merge-base")) && not (text_eq command (codes "diff")))

abbrev waiting_issue : Issue
unfolding branch_for_issue
waiting_issue = record (demo_issue 4 ready_to_merge) { branch = some (branch_for_issue 4) }

abbrev waiting_report : ReconcileIssueReport
unfolding branch_for_issue
waiting_report = record {
  issue_id = 4;
  status = ready_to_merge;
  branch = some (branch_for_issue 4);
  worktree_path = none;
  diagnosis = safe_to_merge;
  confidence = 90;
  proposed_action = apply_merge;
  blocking_reason = some (codes "merge preflight clean");
  manual_command = some (codes "auwsx issue merge 4");
}

found_safe : diagnose_issue clean_git waiting_issue false ≡ ok waiting_report
unfolding diagnose_issue branch_for_issue waiting_issue waiting_report clean_git
found_safe = refl

diagnose_issue-Fits_example : Fits clean_git waiting_issue false waiting_report
diagnose_issue-Fits_example =
    diagnose_issue-Fits clean_git waiting_issue false waiting_report found_safe

passes : validate_agent_action (waiting_report ∷ []) 4 apply_merge ≡ ok tt
unfolding validate_agent_action waiting_report
passes = refl

validate_agent_action-Demands_example : IsGrounded clean_git (waiting_report ∷ []) 4 apply_merge
validate_agent_action-Demands_example =
    validate_agent_action-Demands clean_git (waiting_report ∷ []) 4 apply_merge
      ((waiting_issue, false, found_safe), tt) passes
