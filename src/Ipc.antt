-- ===== src/Ipc.antt =====
-- crates/auwsx-core/src/ipc.rs: `dispatch_inner` on the commands that an issue agent may leave in its
-- outbox, `apply_issue_merge`, and control_outbox.rs: `replay`. The lines for the log and the events
-- are left out. Parameters are the row ids, what the merge of a branch in a repository gives
-- (LocalMerge), and the service of the other commands.
pub mod Notes
pub mod Within
pub mod Replay
pub mod Moves
pub mod Refinement
use auwsx.Common.{
  Bool, List, Option, Result, Text, [], err, false, if◌then◌else◌, none, ok, some, true, ℕ, ◌∷◌,
}
use auwsx.Status.{IssueStatus, conflict_blocked, done, merging, status_eq}
use auwsx.Model.{Issue, Project, is_local}
use auwsx.Store.Exec.{ensure, gets, lift, pure, raise, ◌>>=◌, ◌>>◌}
use auwsx.Store.Rows.{Rowids}
use auwsx.Store.Issues.{force_status, get_issue, transition}
use auwsx.Store.Steering.{list_pending}
use auwsx.Store.Subtasks.{add_subtask_row, list_subtasks_by_issue, mark_done}
use auwsx.Store.Findings.{
  accept_finding_row, add_finding_row, dismiss_finding_row, list_findings_by_issue,
  list_open_findings, reject_finding_row,
}
use auwsx.LocalMerge.{LocalMergeOutcome, MergeError, blocked, merged}
use auwsx.Control.Outbox.{
  Command, ControlSnapshot, ReplayError, Response, accept_finding, add_finding, add_subtask,
  allowed_finding_ids, allowed_subtask_ids, apply_issue_merge, complete_subtask, dismiss_finding,
  err_response, findings_response, get_issue_command, id_response, issue_response, list_findings,
  list_steering, list_subtasks, ok_response, other_command, ping, reject_finding, set_issue_status,
  steering_response, subtasks_response, validate_replay_commands,
}
use auwsx.Runtime.{
  Action, RuntimeError, World, find_issue, find_project, merge_error, no_branch, not_local,
  not_merging, on_db, outbox_unreadable, replay_error,
}

-- `get(…).is_some_and(|issue| issue.status == status)`
abbrev pub has_status : IssueStatus → Option Issue → Bool
unfolding status_eq
has_status status none = false
has_status status (some issue) = status_eq issue.status status

abbrev pub write_asked : ℕ → IssueStatus → Bool → Bool → ℕ → Action (Unit {0})
unfolding force_status transition
write_asked issue_id status force true now = pure tt
write_asked issue_id status true false now = on_db (force_status issue_id status now)
write_asked issue_id status false false now = on_db (transition issue_id status now)

-- `Command::SetIssueStatus`
unfoldable pub serve_status : ℕ → IssueStatus → Bool → ℕ → Action (Unit {0})
unfolding has_status get_issue write_asked
serve_status issue_id status force now w =
    write_asked issue_id status force (has_status status (get_issue issue_id w.db)) now w

abbrev pub lift_merge : Result MergeError LocalMergeOutcome → Result RuntimeError LocalMergeOutcome
lift_merge (ok outcome) = ok outcome
lift_merge (err e) = err (merge_error e)

-- the `match` on the outcome
unfoldable pub record_merge : ℕ → LocalMergeOutcome → ℕ → Action (Unit {0})
unfolding transition
record_merge issue_id (merged result) now = on_db (transition issue_id done now)
record_merge issue_id (blocked b) now = on_db (transition issue_id conflict_blocked now)

module _ (merge_outcome : Text → ℕ → Text → Result MergeError LocalMergeOutcome) where
  abbrev pub merge_branch : Project → ℕ → Option Text → ℕ → Action (Unit {0})
  unfolding record_merge
  merge_branch project issue_id none now = raise (no_branch issue_id)
  merge_branch project issue_id (some branch) now =
      lift (lift_merge (merge_outcome project.repo_path issue_id branch)) >>= λ outcome.
      record_merge issue_id outcome now

  unfoldable pub apply_merge : ℕ → ℕ → Action (Unit {0})
  unfolding find_issue find_project status_eq merge_branch
  apply_merge issue_id now = do
    issue ← find_issue issue_id
    ensure (status_eq issue.status merging) (not_merging issue_id issue.status)
    project ← find_project issue.project_id
    ensure (is_local project.merge_mode) (not_local issue_id)
    merge_branch project issue_id issue.branch now

  module _ (rowids : Rowids) (serve_other : ℕ → Action Response) where
    unfoldable pub dispatch_inner : Command → ℕ → Action Response
    unfolding get_issue serve_status apply_merge list_subtasks_by_issue add_subtask_row mark_done
        list_findings_by_issue list_open_findings add_finding_row accept_finding_row
        reject_finding_row dismiss_finding_row list_pending
    dispatch_inner ping now = pure ok_response
    dispatch_inner (get_issue_command id) now = gets (λ w. issue_response (get_issue id w.db))
    dispatch_inner (set_issue_status id status force) now =
        serve_status id status force now >> pure ok_response
    dispatch_inner (apply_issue_merge id) now = apply_merge id now >> pure ok_response
    dispatch_inner (list_subtasks id) now =
        gets (λ w. subtasks_response (list_subtasks_by_issue id w.db))
    dispatch_inner (add_subtask id ord text) now =
        on_db (add_subtask_row rowids id ord text now) >>= λ row. pure (id_response row)
    dispatch_inner (complete_subtask id) now = on_db (mark_done id now) >> pure ok_response
    dispatch_inner (list_findings id open_only) now = gets (λ w.
        findings_response
          (if open_only then list_open_findings id w.db else list_findings_by_issue id w.db))
    dispatch_inner (add_finding id round severity lens title detail file_ref) now =
        on_db (
          add_finding_row rowids
            (record {
              issue_id = id;
              review_round = round;
              severity = severity;
              lens = lens;
              title = title;
              detail = detail;
              file_ref = file_ref;
            })
            now)
        >>= λ row. pure (id_response row)
    dispatch_inner (accept_finding id rationale) now =
        on_db (accept_finding_row id rationale now) >> pure ok_response
    dispatch_inner (reject_finding id rationale) now =
        on_db (reject_finding_row id rationale now) >> pure ok_response
    dispatch_inner (dismiss_finding id) now = on_db (dismiss_finding_row id now) >> pure ok_response
    dispatch_inner (list_steering id pending_only) now =
        gets (λ w. steering_response (list_pending id w.db))
    dispatch_inner (other_command n) now = serve_other n

    abbrev pub answer : Result RuntimeError Response → Response
    answer (ok response) = response
    answer (err e) = err_response

    -- An error becomes the answer, beside the state that was reached.
    unfoldable pub dispatch : Command → ℕ → World → Response × World
    unfolding dispatch_inner
    dispatch cmd now w = let (r, w') = dispatch_inner cmd now w in (answer r, w')

    unfoldable pub replay_commands : List (ℕ × Command) → ℕ → World → List Response × World
    unfolding dispatch
    replay_commands [] now w = ([], w)
    replay_commands ((line, cmd) ∷ rest) now w =
        let (response, w') = dispatch cmd now w in
        let (responses, w'') = replay_commands rest now w' in (response ∷ responses, w'')

    abbrev pub replay_checked :
        Result ReplayError (Unit {0}) → List (ℕ × Command) → ℕ → Action (List Response)
    unfolding replay_commands
    replay_checked (err e) commands now w = (err (replay_error e), w)
    replay_checked (ok u) commands now w =
        let (responses, w') = replay_commands commands now w in (ok responses, w')

    -- `replay` on the lines that were decoded
    unfoldable pub replay_decoded :
        List (ℕ × Command) → ℕ → ControlSnapshot → ℕ → Action (List Response)
    unfolding validate_replay_commands replay_checked allowed_subtask_ids allowed_finding_ids
    replay_decoded commands issue_id seen now =
        replay_checked
          (validate_replay_commands commands issue_id seen (allowed_subtask_ids seen)
            (allowed_finding_ids seen))
          commands now

    -- `replay`, with the decoded file, if it can be decoded
    unfoldable pub replay :
        Option (List (ℕ × Command)) → ℕ → ControlSnapshot → ℕ → Action (List Response)
    unfolding replay_decoded
    replay none issue_id seen now = raise outbox_unreadable
    replay (some commands) issue_id seen now = replay_decoded commands issue_id seen now
