-- ===== src/Tests/Runtime.antt =====
-- The theorems on the runtime operations, at concrete inputs.
use auwsx.Common.{All, [], any, contains, false, is_ok, none, ok, refl, some, true, ◌∷◌, ◌≡◌}
use auwsx.Status.{failed, is_actionable}
use auwsx.Model.{AgentRun, local, work}
use auwsx.Store.Issues.{get_issue, set_status}
use auwsx.Store.Rows.{has_issue_id}
use auwsx.Runtime.Retry.{retry-starts}
use auwsx.Store.Table.{update_where}
use auwsx.Control.Plans.{retry_status_from_runs}
use auwsx.Runtime.{
  World, is_open_issue_run, list_runs_by_issue, recover_open_issue_runs, retry_failed_issue,
}
use auwsx.Runtime.Recovery.{recovery-AllClosed}
use auwsx.Tests.Fixtures.{demo_db, demo_issue, demo_project}

abbrev demo_run : AgentRun
demo_run = record {
  id = 3;
  issue_id = some 7;
  main_job_id = none;
  role = work;
  phase = "WORKING";
  agent_cmd = [];
  status_before = some "WORKING";
  status_after = none;
  pid = none;
  exit_code = none;
  exit_kind = none;
  prompt_path = none;
  log_path = none;
  phase_report = none;
  spawned_at = 20;
  exited_at = none;
  note = none;
}

abbrev demo_world : World
demo_world = record {
  db = demo_db;
  projects = demo_project local ∷ [];
  runs = demo_run ∷ [];
  running = [];
}

recovery-AllClosed_example :
    (is_ok (recover_open_issue_runs 90 demo_world).0 ≡ true)
    × All
        (λ (run : AgentRun). is_open_issue_run run ≡ false)
        (recover_open_issue_runs 90 demo_world).1.runs
recovery-AllClosed_example = recovery-AllClosed 90 demo_world

abbrev failed_world : World
failed_world = record demo_world { db = record demo_db { issues = demo_issue 7 failed ∷ [] } }

failed_found : get_issue 7 failed_world.db ≡ some (demo_issue 7 failed)
unfolding get_issue
failed_found = refl

failed_idle : contains failed_world.running 7 ≡ false
unfolding contains any
failed_idle = refl

retry-starts_example :
    (retry_failed_issue 7 90 failed_world ≡ (
      ok tt,
      record failed_world {
        db = record failed_world.db {
          issues =
              update_where
                (has_issue_id 7)
                (set_status (retry_status_from_runs (list_runs_by_issue 7 failed_world.runs)) 90)
                failed_world.db.issues;
        };
        running = 7 ∷ failed_world.running;
      },
    ))
    × (is_actionable (retry_status_from_runs (list_runs_by_issue 7 failed_world.runs)) ≡ true)
retry-starts_example =
    retry-starts 7 90 failed_world (demo_issue 7 failed) failed_found failed_idle refl
