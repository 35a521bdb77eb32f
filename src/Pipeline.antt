-- ===== src/Pipeline.antt =====
-- crates/auwsx-core/src/pipeline.rs: `execute`, one phase of an issue. The ports and the files are
-- parameters, and so are the readings of the clock; the log lines, the events and the shell session
-- are left out.
pub mod Runs
pub mod Finish
pub mod Closing
pub mod Progress
use auwsx.Common.{
  Bool, Option, Result, String, Text, codes, err, false, if◌then◌else◌, is_none, none, ok, or_fail,
  some, suc, true, unwrap_or, zero, ℕ, ◌&&◌, ◌*◌, ◌++◌,
}
use auwsx.Common.Decimal.{print_decimal}
use auwsx.Common.Int.{negsuc, pos, ℤ}
use auwsx.Status.{
  IssueStatus, as_str, auditing, failed, fixing, merging, new, planning, resolving_conflict,
  reviewing, status_eq, working,
}
use auwsx.Model.{Issue, Project, Role, error, main, plan_role, review, work}
use auwsx.Scheduler.{plan_phase}
use auwsx.Store.Exec.{lift, pure, raise, ◌>>=◌, ◌>>◌}
use auwsx.Store.Rows.{Db, Rowids}
use auwsx.Store.Issues.{get_issue, set_worktree, transition}
use auwsx.Store.Steering.{list_pending}
use auwsx.Store.Subtasks.{list_subtasks_by_issue}
use auwsx.Store.Findings.{list_open_findings}
use auwsx.Control.Outbox.{ControlSnapshot}
use auwsx.Runtime.{
  Action, RuntimeError, artifacts_failed, control_dir_failed, find_project, finish_run, on_db,
  prompt_not_written, snapshot_not_written, teardown_failed, worktree_failed,
}
use auwsx.Pipeline.Runs.{set_phase_report, start_run}
use auwsx.Pipeline.Finish.{Ports, Times, mark_issue_failed, run_agent, settle}

-- the statuses for which `prompt::build` has a body
unfoldable pub has_prompt : IssueStatus → Bool
has_prompt new = true
has_prompt planning = true
has_prompt working = true
has_prompt reviewing = true
has_prompt fixing = true
has_prompt auditing = true
has_prompt resolving_conflict = true
has_prompt merging = true
has_prompt _ = false

-- `Project::agent_cmd_for`
unfoldable pub agent_cmd_for : Project → Role → Text
agent_cmd_for project main = project.main_agent_cmd
agent_cmd_for project plan_role = project.plan_agent_cmd
agent_cmd_for project work = project.work_agent_cmd
agent_cmd_for project review = unwrap_or project.review_agent_cmd project.work_agent_cmd

-- `worktree::branch_for_issue`
unfoldable pub branch_for_issue : ℕ → Text
unfolding print_decimal
branch_for_issue issue_id = codes "auwsx/issue-" ++ print_decimal issue_id

-- `iteration_timeout_min.max(1)`, in seconds
unfoldable pub timeout_secs : ℤ → ℕ
timeout_secs (pos zero) = 60
timeout_secs (pos (suc n)) = suc n * 60
timeout_secs (negsuc n) = 60

module _ (ports : Ports) (times : Times) (rowids : Rowids) where
  unfoldable pub record_setup_failure : Project → ℕ → Role → String → Text → ℕ → Action (Unit {0})
  unfolding start_run set_phase_report finish_run agent_cmd_for
  record_setup_failure project issue_id role phase note now = do
    paths ← lift (or_fail (ports.run_paths issue_id now) (artifacts_failed issue_id))
    run_id ←
        start_run rowids
          (record {
            issue_id = issue_id;
            role = role;
            phase = phase;
            agent_cmd = ports.cmd_template (agent_cmd_for project role) (codes ".");
            status_before = some phase;
            prompt_path = none;
            log_path = some paths.0;
          })
          now
    set_phase_report run_id note
    finish_run run_id (some (as_str failed)) none error now (some note)

  unfoldable pub mark_issue_failed_with_setup_log :
      Project → ℕ → Role → String → RuntimeError → ℕ → Action (Unit {0})
  unfolding record_setup_failure mark_issue_failed
  mark_issue_failed_with_setup_log project issue_id role phase e now =
      settle (
        record_setup_failure project issue_id role phase
          (codes "setup failed before agent spawn: " ++ ports.describe e) now)
      >> mark_issue_failed issue_id now

  abbrev fail_setup : {A : Type 0} → Project → Issue → Role → RuntimeError → Action A
  unfolding mark_issue_failed_with_setup_log
  fail_setup project issue role e =
      mark_issue_failed_with_setup_log project issue.id role (as_str issue.status) e
        times.setup_failed_at
      >> raise e

  -- the entry into PLANNING
  unfoldable pub enter_planning : Issue → Action Issue
  unfolding status_eq transition
  enter_planning issue =
      if status_eq issue.status new
      then (on_db (transition issue.id planning times.entered_at)
          >> pure (record issue { status = planning }))
      else pure issue

  abbrev worktree_recorded :
      Project → Issue → Role → Text × Text → Result RuntimeError (Unit {0}) → Action (Option Text)
  unfolding fail_setup
  worktree_recorded project issue role handle (ok u) = pure (some handle.1)
  worktree_recorded project issue role handle (err e) =
      mark_issue_failed_with_setup_log project issue.id role (as_str issue.status) e
        times.setup_failed_at
      >> (if ports.teardown project handle then raise e else raise (teardown_failed issue.id))

  abbrev record_handle : Project → Issue → Role → Text × Text → Action (Option Text)
  unfolding worktree_recorded set_worktree
  record_handle project issue role handle w =
      let (r, w') =
        on_db (set_worktree issue.id (some handle.0) (some handle.1) times.recorded_at) w in
      worktree_recorded project issue role handle r w'

  abbrev record_worktree : Project → Issue → Role → Option (Text × Text) → Action (Option Text)
  unfolding record_handle fail_setup
  record_worktree project issue role none = fail_setup project issue role (worktree_failed issue.id)
  record_worktree project issue role (some handle) = record_handle project issue role handle

  -- the worktree of the issue, created where a phase needs one and there is none yet
  unfoldable pub ensure_worktree : Project → Issue → Role → Bool → Action (Option Text)
  unfolding record_worktree branch_for_issue
  ensure_worktree project issue role needs_worktree =
      if needs_worktree && is_none issue.worktree_path
      then record_worktree project issue role
          (ports.create_worktree project (branch_for_issue issue.id))
      else pure issue.worktree_path

  -- a step of the set-up that writes a file: it goes on, or the issue is FAILED
  abbrev check_setup : Bool → Project → Issue → Role → RuntimeError → Action (Unit {0})
  unfolding fail_setup
  check_setup true project issue role e = pure tt
  check_setup false project issue role e = fail_setup project issue role e

  abbrev paths_or_fail : ℕ → Option (Text × Text) → Action (Text × Text)
  unfolding mark_issue_failed
  paths_or_fail issue_id (some paths) = pure paths
  paths_or_fail issue_id none =
      mark_issue_failed issue_id times.setup_failed_at >> raise (artifacts_failed issue_id)

  -- from the artifact paths on
  unfoldable pub run_prompt :
      Project → Issue → Role → Text → ControlSnapshot → Text → Action (Unit {0})
  unfolding paths_or_fail check_setup start_run run_agent timeout_secs agent_cmd_for
  run_prompt project issue role cwd seen prompt = do
    paths ← paths_or_fail issue.id (ports.run_paths issue.id times.spawned_at)
    check_setup (ports.writes_prompt paths.1 prompt) project issue role
        (prompt_not_written issue.id)
    check_setup (ports.makes_control_dir (cwd ++ codes "/.auwsx/control")) project issue role
        (control_dir_failed issue.id)
    check_setup (ports.writes_snapshot cwd seen) project issue role (snapshot_not_written issue.id)
    run_id ←
        start_run rowids
          (record {
            issue_id = issue.id;
            role = role;
            phase = as_str issue.status;
            agent_cmd =
                ports.cmd_template (agent_cmd_for project role) (cwd ++ codes "/.auwsx/control");
            status_before = some (as_str issue.status);
            prompt_path = some paths.1;
            log_path = some paths.0;
          })
          times.spawned_at
    run_agent ports times rowids issue role cwd seen run_id (record {
      cmd_template =
          ports.cmd_template (agent_cmd_for project role) (cwd ++ codes "/.auwsx/control");
      prompt = prompt;
      cwd = cwd;
      log_path = paths.0;
      timeout_secs = timeout_secs project.iteration_timeout_min;
    })

  unfoldable pub snapshot_of : Issue → Db → ControlSnapshot
  unfolding list_subtasks_by_issue list_open_findings list_pending
  snapshot_of issue db = record {
    issue = issue;
    subtasks = list_subtasks_by_issue issue.id db;
    findings = list_open_findings issue.id db;
    steering = list_pending issue.id db;
  }

  abbrev run_seen : Project → Issue → Role → Text → ControlSnapshot → Action (Unit {0})
  unfolding run_prompt has_prompt
  run_seen project issue role cwd seen =
      if has_prompt issue.status
      then run_prompt project issue role cwd seen (ports.prompt_text seen)
      else pure tt

  -- with a plan for the phase
  unfoldable pub execute_planned : Issue → Role → Bool → Action (Unit {0})
  unfolding find_project enter_planning ensure_worktree run_seen snapshot_of
  execute_planned before role needs_worktree = do
    project ← find_project before.project_id
    issue ← enter_planning before
    worktree_path ← ensure_worktree project issue role needs_worktree
    λ w.
        run_seen project issue role (unwrap_or worktree_path project.repo_path)
          (snapshot_of issue w.db) w

  abbrev execute_plan : Issue → Option (Role × Bool) → Action (Unit {0})
  unfolding execute_planned
  execute_plan issue none = pure tt
  execute_plan issue (some (role, needs_worktree)) = execute_planned issue role needs_worktree

  abbrev execute_issue : Option Issue → Action (Unit {0})
  unfolding execute_plan plan_phase
  execute_issue none = pure tt
  execute_issue (some issue) = execute_plan issue (plan_phase issue.status)

  unfoldable pub execute : ℕ → Action (Unit {0})
  unfolding execute_issue get_issue
  execute issue_id w = execute_issue (get_issue issue_id w.db) w
