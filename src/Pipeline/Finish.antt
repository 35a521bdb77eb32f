-- ===== src/Pipeline/Finish.antt =====
-- crates/auwsx-core/src/pipeline.rs: the part of `execute` from the spawn of the agent on, with the ports.
use auwsx.Common.{
  Bool, List, Option, Result, String, Text, [], any, codes, err, false, if◌then◌else◌, is_some, map,
  none, not, ok, some, suc, true, unwrap_or, zero, ℕ, ◌&&◌, ◌++◌, ◌||◌,
}
use auwsx.Common.Decimal.{print_decimal}
use auwsx.Common.Int.{negsuc, pos, ℤ}
use auwsx.Status.{as_str, failed, ready_to_merge, status_eq, working}
use auwsx.Model.{ExitKind, Issue, Project, Role, error, exit_kind_as_str, exited, role_as_str}
use auwsx.Store.Exec.{Exec, ensure, lift, pure, raise, ◌>>=◌, ◌>>◌}
use auwsx.Store.Rows.{Rowids, Steering}
use auwsx.Store.Issues.{get_issue, transition, update_reports}
use auwsx.Store.Steering.{consume_ids}
use auwsx.LocalMerge.{LocalMergeOutcome, MergeError}
use auwsx.Control.Outbox.{Command, ControlSnapshot, Response, err_response}
use auwsx.Runtime.{
  Action, RuntimeError, World, executor_failed, finish_run, on_db, replay_refused, word_is,
}
use auwsx.Ipc.{replay}
use auwsx.Pipeline.Runs.{set_phase_report, set_pid}

pub record AgentSpec : Type 0 where
  pub cmd_template : Text
  pub prompt : Text
  pub cwd : Text
  pub log_path : Text
  pub timeout_secs : ℕ

pub record AgentOutcome : Type 0 where
  pub exit_kind : ExitKind
  pub exit_code : Option ℤ
  pub pid : Option ℕ

-- What a phase uses of the world outside of the tables: what git, the files and the agent give in
-- this phase. While the agent runs, other tasks of the daemon may change the tables.
pub record Ports : Type 0 where
  -- the branch and the path of a new worktree
  pub create_worktree : Project → Text → Option (Text × Text)
  pub teardown : Project → Text × Text → Bool
  pub prompt_text : ControlSnapshot → Text
  -- the paths of the log and of the prompt
  pub run_paths : ℕ → ℕ → Option (Text × Text)
  pub writes_prompt : Text → Text → Bool
  pub makes_control_dir : Text → Bool
  pub writes_snapshot : Text → ControlSnapshot → Bool
  -- `expand_cmd_template`
  pub cmd_template : Text → Text → Text
  pub executor : AgentSpec → Exec World Text AgentOutcome
  -- the commands in the outbox, if it can be decoded
  pub outbox : Text → Option (List (ℕ × Command))
  -- the parameters of the service of commands
  pub merge_outcome : Text → ℕ → Text → Result MergeError LocalMergeOutcome
  pub serve_other : ℕ → Action Response
  -- `read_issue_report`
  pub read_issue_report : Text → Option Text
  -- the text of an error
  pub describe : RuntimeError → Text

-- what the clock shows at each of its readings
pub record Times : Type 0 where
  pub entered_at : ℕ
  pub recorded_at : ℕ
  pub setup_failed_at : ℕ
  pub spawned_at : ℕ
  pub failed_at : ℕ
  pub replayed_at : ℕ
  pub unchanged_at : ℕ
  pub consumed_at : ℕ
  pub requeued_at : ℕ
  pub reported_at : ℕ
  pub finished_at : ℕ

-- An error is passed over; the state that was reached stays.
abbrev pub settle : Action (Unit {0}) → Action (Unit {0})
settle m w = (ok tt, (m w).1)

unfoldable pub mark_issue_failed : ℕ → ℕ → Action (Unit {0})
unfolding transition
mark_issue_failed issue_id now = settle (on_db (transition issue_id failed now))

abbrev pub status_word : Option Issue → Option String
unfolding as_str
status_word none = none
status_word (some issue) = some (as_str issue.status)

abbrev pub print_ℤ : ℤ → Text
print_ℤ (pos n) = print_decimal n
print_ℤ (negsuc n) = codes "-" ++ print_decimal (suc n)

abbrev pub exit_code_text : Option ℤ → Text
exit_code_text none = codes "none"
exit_code_text (some code) = print_ℤ code

abbrev pub note_line : Option Text → Text
note_line none = []
note_line (some note) = codes "\nnote=" ++ note

unfoldable pub fallback_phase_report : Role → String → ExitKind → Option ℤ → Option Text → Text
unfolding role_as_str exit_kind_as_str print_decimal
fallback_phase_report role phase exit_kind exit_code finish_note =
    codes "Phase report missing: agent did not write .auwsx/phase-report.md.\nrole="
    ++ codes (role_as_str role)
    ++ codes "\nphase="
    ++ codes phase
    ++ codes "\nexit_kind="
    ++ codes (exit_kind_as_str exit_kind)
    ++ codes "\nexit_code="
    ++ exit_code_text exit_code
    ++ note_line finish_note

-- the two error branches after the spawn: the issue is FAILED if that is legal, the run is closed
-- with the status that was reached and a note, and the error is passed on
unfoldable pub close_failed :
    ℕ
    → ℕ
    → Option ℤ
    → (Result RuntimeError (Unit {0}) → Text)
    → RuntimeError
    → ℕ
    → Action (Unit {0})
unfolding transition finish_run get_issue status_word
close_failed run_id issue_id exit_code note e now w =
    let (r, w') = on_db (transition issue_id failed now) w in
    (finish_run run_id (status_word (get_issue issue_id w'.db)) exit_code error now (some (note r))
        >> lift r
        >> raise e)
      w'

abbrev pub executor_note : (RuntimeError → Text) → Text → Result RuntimeError (Unit {0}) → Text
executor_note describe text (ok u) = text
executor_note describe text (err e) =
    text ++ codes "; additionally failed to mark issue FAILED: " ++ describe e

-- `Response::Err` among the answers
abbrev pub is_refusal : Response → Bool
is_refusal err_response = true
is_refusal _ = false

unfoldable pub check_responses : List Response → Action (Unit {0})
unfolding any
check_responses responses = ensure (not (any is_refusal responses)) replay_refused

abbrev pub exited_well : ExitKind → Option ℤ → Bool
exited_well exited (some (pos zero)) = true
exited_well _ _ = false

unfoldable pub unchanged_note : AgentOutcome → Text
unchanged_note outcome =
    if exited_well outcome.exit_kind outcome.exit_code
    then codes "agent exited without changing issue status; marked FAILED"
    else codes "agent exited unsuccessfully without changing issue status; marked FAILED"

-- a status that the phase left as it was means FAILED; the status and the note for the run
unfoldable pub settle_unchanged :
    Issue → AgentOutcome → ℕ → Option String → Bool → Action (Option String × Option Text)
unfolding mark_issue_failed unchanged_note
settle_unchanged issue outcome now status_after true =
    mark_issue_failed issue.id now >> pure (some (as_str failed), some (unchanged_note outcome))
settle_unchanged issue outcome now status_after false = pure (status_after, none)

unfoldable pub settle_status : Issue → AgentOutcome → ℕ → Action (Option String × Option Text)
unfolding settle_unchanged get_issue as_str status_word
settle_status issue outcome now w =
    let status_after = status_word (get_issue issue.id w.db) in
    settle_unchanged issue outcome now status_after (word_is status_after (as_str issue.status)) w

-- messages that came in send an issue that is ready to merge back to WORKING
unfoldable pub requeue_found : ℕ → ℕ → Option String → Option Issue → Action (Option String)
unfolding transition as_str status_eq
requeue_found issue_id now status_after none = pure status_after
requeue_found issue_id now status_after (some current) =
    if current.has_pending_steering && status_eq current.status ready_to_merge
    then (on_db (transition issue_id working now) >> pure (some (as_str working)))
    else pure status_after

unfoldable pub requeue_pending : ℕ → ℕ → Option String → Action (Option String)
unfolding requeue_found get_issue
requeue_pending issue_id now status_after w =
    requeue_found issue_id now status_after (get_issue issue_id w.db) w

module _ (ports : Ports) (times : Times) where
  -- `snapshot_issue_reports` and `update_reports`, where there is a report
  unfoldable pub record_reports : ℕ → Text → Action (Unit {0})
  unfolding update_reports
  record_reports issue_id cwd =
      let plan_report = ports.read_issue_report (cwd ++ codes "/.auwsx/plan.md") in
      let progress = ports.read_issue_report (cwd ++ codes "/.auwsx/progress.md") in
      let verify = ports.read_issue_report (cwd ++ codes "/.auwsx/human-verify.md") in
      if is_some plan_report || is_some progress || is_some verify
      then on_db (update_reports issue_id plan_report progress verify times.reported_at)
      else pure tt

  unfoldable pub report_phase :
      Issue → Role → Text → ℕ → AgentOutcome → Option Text → Action (Unit {0})
  unfolding set_phase_report fallback_phase_report
  report_phase issue role cwd run_id outcome finish_note = set_phase_report run_id (
      unwrap_or (ports.read_issue_report (cwd ++ codes "/.auwsx/phase-report.md")) (
        fallback_phase_report role (as_str issue.status) outcome.exit_kind outcome.exit_code
          finish_note))

  -- the reports and the end of the run
  unfoldable pub close_phase :
      Issue → Role → Text → ℕ → AgentOutcome → Option String → Option Text → Action (Unit {0})
  unfolding report_phase record_reports finish_run
  close_phase issue role cwd run_id outcome status_after finish_note =
      report_phase issue role cwd run_id outcome finish_note
      >> (record_reports issue.id cwd
          >> finish_run run_id status_after outcome.exit_code outcome.exit_kind times.finished_at
              finish_note)

  -- the messages that the agent was shown are consumed, and the others may send the issue back
  unfoldable pub requeue_and_close :
      Issue
      → Role
      → Text
      → ℕ
      → List ℕ
      → AgentOutcome
      → Option String × Option Text
      → Action (Unit {0})
  unfolding consume_ids requeue_pending close_phase
  requeue_and_close issue role cwd run_id steering_ids outcome settled =
      settle (on_db (consume_ids issue.id steering_ids times.consumed_at))
      >> (requeue_pending issue.id times.requeued_at settled.0 >>= λ status_after.
          close_phase issue role cwd run_id outcome status_after settled.1)

  -- below the replay
  unfoldable pub finish_phase : Issue → Role → Text → ℕ → List ℕ → AgentOutcome → Action (Unit {0})
  unfolding settle_status requeue_and_close
  finish_phase issue role cwd run_id steering_ids outcome =
      settle_status issue outcome times.unchanged_at
      >>= requeue_and_close issue role cwd run_id steering_ids outcome

  unfoldable pub replayed :
      Issue
      → Role
      → Text
      → ℕ
      → List ℕ
      → AgentOutcome
      → Result RuntimeError (Unit {0})
      → Action (Unit {0})
  unfolding finish_phase close_failed
  replayed issue role cwd run_id steering_ids outcome (ok u) =
      finish_phase issue role cwd run_id steering_ids outcome
  replayed issue role cwd run_id steering_ids outcome (err e) =
      close_failed run_id issue.id outcome.exit_code (λ r. ports.describe e) e times.failed_at

  unfoldable pub record_pid : ℕ → Option ℕ → Action (Unit {0})
  unfolding set_pid
  record_pid run_id none = pure tt
  record_pid run_id (some pid) = set_pid run_id pid

  module _ (rowids : Rowids) where
    unfoldable pub replay_outbox : ℕ → ControlSnapshot → Text → Action (Unit {0})
    unfolding replay check_responses
    replay_outbox issue_id seen cwd =
        replay ports.merge_outcome rowids ports.serve_other (ports.outbox cwd) issue_id seen
          times.replayed_at
        >>= check_responses

    -- the control commands of the agent are replayed, and what comes of it decides how the phase ends
    unfoldable pub replay_and_finish :
        Issue → Role → Text → ControlSnapshot → ℕ → AgentOutcome → Action (Unit {0})
    unfolding replay_outbox replayed
    replay_and_finish issue role cwd seen run_id outcome w =
        let (r, w') = replay_outbox issue.id seen cwd w in
        replayed issue role cwd run_id (map (λ (s : Steering). s.id) seen.steering) outcome r w'

    unfoldable pub ran :
        Issue → Role → Text → ControlSnapshot → ℕ → Result Text AgentOutcome → Action (Unit {0})
    unfolding close_failed record_pid replay_and_finish
    ran issue role cwd seen run_id (err text) =
        close_failed run_id issue.id none (executor_note ports.describe text) (executor_failed text)
          times.failed_at
    ran issue role cwd seen run_id (ok outcome) =
        record_pid run_id outcome.pid >> replay_and_finish issue role cwd seen run_id outcome

    -- from the spawn of the agent on
    unfoldable pub run_agent :
        Issue → Role → Text → ControlSnapshot → ℕ → AgentSpec → Action (Unit {0})
    unfolding ran
    run_agent issue role cwd seen run_id spec w =
        let (r, w') = ports.executor spec w in ran issue role cwd seen run_id r w'
