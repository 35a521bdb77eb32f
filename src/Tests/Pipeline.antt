-- ===== src/Tests/Pipeline.antt =====
-- A phase of an issue, and the theorems on phases and replays at concrete inputs.
use auwsx.Common.{List, Result, Text, [], codes, err, false, none, refl, some, true, ℕ, ◌∷◌, ◌≡◌}
use auwsx.Common.Int.{pos}
use auwsx.Status.{failed, is_actionable, reviewing, status_eq, working}
use auwsx.Model.{Issue, exited, local, work}
use auwsx.Store.Exec.{pure}
use auwsx.Store.Table.{count_where}
use auwsx.LocalMerge.{LocalMergeOutcome, MergeError, spawn_failed}
use auwsx.Control.Outbox.{
  Command, ControlSnapshot, Response, add_subtask, allowed_finding_ids, allowed_subtask_ids,
  err_response, set_issue_status,
}
use auwsx.Runtime.{Action, World}
use auwsx.Ipc.{replay}
use auwsx.Ipc.Within.{Within}
use auwsx.Ipc.Replay.{replay-Within}
use auwsx.Pipeline.Runs.{StartRun, new_run}
use auwsx.Pipeline.Finish.{AgentOutcome, AgentSpec, Ports, Times, finish_phase, run_agent}
use auwsx.Pipeline.Progress.{finish_phase-IsResult, is_waiting, phase_result}
use auwsx.Store.Steering.{consume_ids}
use auwsx.Ipc.Refinement.{RunsOnly, replay-RunsOnly, status_view}
use auwsx.Ipc.Moves.{StatusHolds}
use auwsx.Store.Issues.{get_issue}
use auwsx.Pipeline.Closing.{HasRows, RunClosed, run_agent-RunClosed}
use auwsx.Tests.Fixtures.{demo_db, demo_issue, demo_message, demo_project, demo_rowids}

abbrev phase_issue : Issue
phase_issue = record (demo_issue 7 working) { branch = some (codes "auwsx/issue-7") }

abbrev phase_run : StartRun
phase_run = record {
  issue_id = 7;
  role = work;
  phase = "WORKING";
  agent_cmd = codes "agent";
  status_before = some "WORKING";
  prompt_path = none;
  log_path = none;
}

abbrev phase_world : World
unfolding new_run
phase_world = record {
  db = demo_db;
  projects = demo_project local ∷ [];
  runs = new_run 3 phase_run 50 ∷ [];
  running = 7 ∷ [];
}

abbrev phase_snapshot : ControlSnapshot
phase_snapshot = record {
  issue = phase_issue;
  subtasks = [];
  findings = [];
  steering = demo_message ∷ [];
}

abbrev phase_outcome : AgentOutcome
phase_outcome = record { exit_kind = exited; exit_code = some (pos 0); pid = some 4711 }

abbrev phase_outbox : List (ℕ × Command)
phase_outbox = (1, add_subtask 7 0 (codes "test")) ∷ (2, set_issue_status 7 reviewing false) ∷ []

abbrev no_merge : Text → ℕ → Text → Result MergeError LocalMergeOutcome
no_merge repo id branch = err spawn_failed

abbrev no_service : ℕ → Action Response
no_service n = pure err_response

abbrev phase_ports : Ports
phase_ports = record {
  create_worktree = λ project branch. some (branch, codes "/w");
  teardown = λ project handle. true;
  prompt_text = λ seen. codes "work";
  run_paths = λ id now. some (codes "/log", codes "/prompt");
  writes_prompt = λ path text. true;
  makes_control_dir = λ path. true;
  writes_snapshot = λ path seen. true;
  cmd_template = λ command control_dir. command;
  executor = λ spec. pure phase_outcome;
  outbox = λ cwd. some phase_outbox;
  merge_outcome = no_merge;
  serve_other = no_service;
  read_issue_report = λ path. none;
  describe = λ e. codes "error";
}

abbrev phase_times : Times
phase_times = record {
  entered_at = 40;
  recorded_at = 41;
  setup_failed_at = 42;
  spawned_at = 50;
  failed_at = 60;
  replayed_at = 61;
  unchanged_at = 62;
  consumed_at = 63;
  requeued_at = 64;
  reported_at = 65;
  finished_at = 66;
}

abbrev phase_spec : AgentSpec
phase_spec = record {
  cmd_template = codes "agent";
  prompt = codes "work";
  cwd = codes "/w";
  log_path = codes "/log";
  timeout_secs = 3600;
}

phase_HasRows : HasRows 3 7 phase_world
unfolding count_where phase_world
phase_HasRows = (refl, refl)

run_agent-RunClosed_example :
    RunClosed 3
      (run_agent phase_ports phase_times demo_rowids phase_issue work
        (codes "/w")
        phase_snapshot
        3
        phase_spec
        phase_world).1
run_agent-RunClosed_example =
    run_agent-RunClosed phase_ports phase_times phase_issue work (codes "/w") 3 demo_rowids
      phase_snapshot phase_spec phase_world phase_HasRows

replay-Within_example :
    Within
      (allowed_subtask_ids phase_snapshot)
      (allowed_finding_ids phase_snapshot)
      7
      phase_world
      (replay no_merge demo_rowids no_service (some phase_outbox) 7 phase_snapshot 61 phase_world).1
replay-Within_example =
    replay-Within no_merge demo_rowids no_service (some phase_outbox) 7 phase_snapshot 61
      phase_world

-- the agent left the issue in WORKING, where the phase started: it is FAILED
finish_phase-IsResult_example :
    StatusHolds
      (λ s.
        s
        ≡ phase_result working working (is_waiting 7 (consume_ids 7 (1 ∷ []) 63 phase_world.db).1))
      7
      (finish_phase phase_ports phase_times phase_issue work
        (codes "/w")
        3
        (1 ∷ [])
        phase_outcome
        phase_world).1
finish_phase-IsResult_example =
    finish_phase-IsResult phase_ports phase_times phase_issue work (codes "/w") 3 (1 ∷ [])
      phase_outcome phase_world (record (demo_issue 7 working) { has_pending_steering = true })
      (unfold is_actionable in refl) (unfold get_issue in unfold phase_world in refl)

silent_fails :
    phase_result working working (is_waiting 7 (consume_ids 7 (1 ∷ []) 63 demo_db).1) ≡ failed
unfolding status_eq
silent_fails = refl

replay-RunsOnly_example : RunsOnly 7 (status_view phase_world) (
    status_view
      (replay no_merge demo_rowids no_service
        (some phase_outbox)
        7
        phase_snapshot
        61
        phase_world).1)
replay-RunsOnly_example =
    replay-RunsOnly no_merge demo_rowids no_service (some phase_outbox) 7 phase_snapshot 61
      phase_world
