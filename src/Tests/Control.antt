-- ===== src/Tests/Control.antt =====
-- The theorems on the control channels, at concrete inputs.
use auwsx.Common.{
  Bool, List, [], all, false, is_ok, is_some, length, none, ok, some, true, ℕ, ◌&&◌, ◌==◌, ◌||◌,
  ◌∷◌, ◌≡◌,
}
use auwsx.Common.Outcome.{is_ok, ok}
use auwsx.Status.{failed, is_actionable, ready_to_merge, reviewing, status_eq, working}
use auwsx.Model.{Role}
use auwsx.Scheduler.{plan_phase}
use auwsx.Control.Outbox.{
  Command, ControlSnapshot, complete_subtask, handle_local_command, set_issue_status,
  validate_replay_commands,
}
use auwsx.Control.Outbox.Batch.{
  Recorded, fits, handle_local_command-Recorded, status_count, validate-batch,
}
use auwsx.Control.Plans.{plan_issue_execute, retry_status_from_runs, run_phase}
use auwsx.Control.Plans.Retry.{execute-classes, plan_phase-actionable}
use auwsx.Tests.Fixtures.{demo_issue}

abbrev demo_snapshot : ControlSnapshot
demo_snapshot = record {
  issue = demo_issue 7 working;
  subtasks =
      record {
        id = 11;
        issue_id = 7;
        ord = 1;
        text = [];
        is_done = false;
        created_at = 1;
        done_at = none;
      }
      ∷ [];
  findings = [];
  steering = [];
}

abbrev demo_batch : List (ℕ × Command)
demo_batch = (1, complete_subtask 11) ∷ (2, set_issue_status 7 reviewing false) ∷ []

abbrev demo_ids : List ℕ
demo_ids = 11 ∷ []

validate-batch_example : is_ok (validate_replay_commands demo_batch 7 demo_snapshot demo_ids []) ≡ (
    all (fits 7 working demo_ids []) demo_batch
    && (length demo_batch == 0 || status_count demo_batch == 1))
validate-batch_example = validate-batch demo_batch 7 demo_snapshot demo_ids []

handle_local_command-Recorded_example :
    Recorded 7 demo_snapshot [] (handle_local_command 7 demo_snapshot (complete_subtask 1) [])
handle_local_command-Recorded_example =
    handle_local_command-Recorded 7 demo_snapshot (complete_subtask 1) []

plan_phase-actionable_example :
    (is_some (plan_phase working) ≡ is_actionable working)
    × ((role : Role) (worktree : Bool)
        → plan_phase working ≡ some (role, worktree)
        → worktree ≡ true)
plan_phase-actionable_example = plan_phase-actionable working

execute-classes_example :
    (is_actionable (retry_status_from_runs []) ≡ true)
    × (is_ok (plan_issue_execute (demo_issue 7 failed) [])
        ≡ (is_actionable failed || status_eq failed failed || status_eq failed ready_to_merge))
    × (plan_issue_execute (demo_issue 7 failed) [] ≡ ok run_phase → is_actionable failed ≡ true)
execute-classes_example = execute-classes (demo_issue 7 failed) []
