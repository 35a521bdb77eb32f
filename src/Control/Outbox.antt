-- ===== src/Control/Outbox.antt =====
-- crates/auwsx-core/src/control_outbox.rs: the commands that an issue agent may leave for replay. A `Command` of ipc.rs that no
-- arm of the outbox names is the one constructor `other_command`.
pub mod Batch
use auwsx.Common.{
  Bool, List, Option, Result, Text, [], contains, err, false, filter, find, if◌then◌else◌, map,
  none, ok, some, suc, true, zero, ℕ, ◌++◌, ◌==◌, ◌∷◌,
}
use auwsx.Common.Outcome.{Result, err, ok, ◌>>=◌}
use auwsx.Status.{IssueStatus, is_legal_transition, merging, status_eq}
use auwsx.Model.{Issue}
use auwsx.Store.Rows.{Finding, Severity, Steering, Subtask, open_finding}

pub record ControlSnapshot : Type 0 where
  pub issue : Issue
  pub subtasks : List Subtask
  pub findings : List Finding
  pub steering : List Steering

pub data Command : Type 0 where
  ping : Command
  get_issue_command : ℕ → Command
  -- the issue, the status, whether it is forced
  set_issue_status : ℕ → IssueStatus → Bool → Command
  apply_issue_merge : ℕ → Command
  list_subtasks : ℕ → Command
  add_subtask : ℕ → ℕ → Text → Command
  complete_subtask : ℕ → Command
  list_findings : ℕ → Bool → Command
  add_finding : ℕ → ℕ → Severity → Option Text → Text → Option Text → Option Text → Command
  accept_finding : ℕ → Text → Command
  reject_finding : ℕ → Text → Command
  dismiss_finding : ℕ → Command
  list_steering : ℕ → Bool → Command
  other_command : ℕ → Command

pub data Response : Type 0 where
  ok_response : Response
  err_response : Response
  id_response : ℕ → Response
  issue_response : Option Issue → Response
  subtasks_response : List Subtask → Response
  findings_response : List Finding → Response
  steering_response : List Steering → Response

unfoldable pub allowed_subtask_ids : ControlSnapshot → List ℕ
allowed_subtask_ids snapshot = map (λ (t : Subtask). t.id) snapshot.subtasks

unfoldable pub allowed_finding_ids : ControlSnapshot → List ℕ
allowed_finding_ids snapshot = map (λ (f : Finding). f.id) snapshot.findings

unfoldable pub is_recordable_for_issue : Command → ℕ → List ℕ → List ℕ → Bool
unfolding contains
is_recordable_for_issue (add_subtask id ord text) issue_id subtasks findings = id == issue_id
is_recordable_for_issue (set_issue_status id status force) issue_id subtasks findings =
    id == issue_id
is_recordable_for_issue (apply_issue_merge id) issue_id subtasks findings = id == issue_id
is_recordable_for_issue (add_finding id round severity lens title detail file_ref) issue_id subtasks
      findings =
    id == issue_id
is_recordable_for_issue (complete_subtask id) issue_id subtasks findings = contains subtasks id
is_recordable_for_issue (accept_finding id rationale) issue_id subtasks findings =
    contains findings id
is_recordable_for_issue (reject_finding id rationale) issue_id subtasks findings =
    contains findings id
is_recordable_for_issue (dismiss_finding id) issue_id subtasks findings = contains findings id
is_recordable_for_issue _ issue_id subtasks findings = false

abbrev is_open : Finding → Bool
is_open finding = elim finding.status [ open_finding ↦ true | _ ↦ false ]

-- A plan agent may name a subtask by its position in the checklist.
unfoldable pub normalize : ControlSnapshot → Command → Command
unfolding allowed_subtask_ids contains find
normalize snapshot (complete_subtask id) =
    if contains (allowed_subtask_ids snapshot) id
    then complete_subtask id
    else elim (find (λ (t : Subtask). t.ord == id) snapshot.subtasks) [
      | some t ↦ complete_subtask t.id
      | none ↦ complete_subtask id
    ]
normalize snapshot cmd = cmd

-- the last two arms of the `match`: the command goes to the outbox, or is refused
unfoldable pub append_or_refuse :
    ℕ → ControlSnapshot → Command → List Command → Response × List Command
unfolding is_recordable_for_issue allowed_subtask_ids allowed_finding_ids
append_or_refuse issue_id snapshot cmd outbox =
    if is_recordable_for_issue cmd issue_id (allowed_subtask_ids snapshot)
      (allowed_finding_ids snapshot)
    then (ok_response, outbox ++ cmd ∷ [])
    else (err_response, outbox)

-- the response, and the outbox that is left
unfoldable pub respond : ℕ → ControlSnapshot → Command → List Command → Response × List Command
unfolding filter append_or_refuse
respond issue_id snapshot ping outbox = (ok_response, outbox)
respond issue_id snapshot (get_issue_command id) outbox =
    if id == issue_id
    then (issue_response (some snapshot.issue), outbox)
    else append_or_refuse issue_id snapshot (get_issue_command id) outbox
respond issue_id snapshot (list_subtasks id) outbox =
    if id == issue_id
    then (subtasks_response snapshot.subtasks, outbox)
    else append_or_refuse issue_id snapshot (list_subtasks id) outbox
respond issue_id snapshot (list_findings id open_only) outbox =
    if id == issue_id
    then (
      findings_response (if open_only then filter is_open snapshot.findings else snapshot.findings),
      outbox,
    )
    else append_or_refuse issue_id snapshot (list_findings id open_only) outbox
respond issue_id snapshot (list_steering id pending_only) outbox =
    if id == issue_id
    then (steering_response snapshot.steering, outbox)
    else append_or_refuse issue_id snapshot (list_steering id pending_only) outbox
respond issue_id snapshot (add_subtask id ord text) outbox =
    if id == issue_id
    then (ok_response, outbox ++ add_subtask id ord text ∷ [])
    else append_or_refuse issue_id snapshot (add_subtask id ord text) outbox
respond issue_id snapshot (set_issue_status id status force) outbox =
    if id == issue_id
    then (ok_response, outbox ++ set_issue_status id status force ∷ [])
    else append_or_refuse issue_id snapshot (set_issue_status id status force) outbox
respond issue_id snapshot (apply_issue_merge id) outbox =
    if id == issue_id
    then (ok_response, outbox ++ apply_issue_merge id ∷ [])
    else append_or_refuse issue_id snapshot (apply_issue_merge id) outbox
respond issue_id snapshot (add_finding id round severity lens title detail file_ref) outbox =
    if id == issue_id
    then (ok_response, outbox ++ add_finding id round severity lens title detail file_ref ∷ [])
    else append_or_refuse issue_id snapshot
        (add_finding id round severity lens title detail file_ref) outbox
respond issue_id snapshot cmd outbox = append_or_refuse issue_id snapshot cmd outbox

-- `handle_local_command` in an agent's process, where the environment names the issue, the snapshot
-- and the outbox
unfoldable pub handle_local_command :
    ℕ → ControlSnapshot → Command → List Command → Response × List Command
unfolding normalize respond
handle_local_command issue_id snapshot cmd outbox =
    respond issue_id snapshot (normalize snapshot cmd) outbox

pub data ReplayError : Type 0 where
  -- the first four name the line
  not_valid_for_issue : ℕ → ReplayError
  cannot_force : ℕ → ReplayError
  illegal_status : ℕ → IssueStatus → IssueStatus → ReplayError
  merge_not_merging : ℕ → ReplayError
  missing_status : ReplayError
  many_statuses : ℕ → ReplayError

-- the checks on a command that is recordable; the result says whether it is a status command
unfoldable pub check_status_command : ℕ → IssueStatus → Command → Result ReplayError Bool
unfolding is_legal_transition status_eq
check_status_command line from (set_issue_status id status true) = err (cannot_force line)
check_status_command line from (set_issue_status id status false) =
    if is_legal_transition from status then ok true else err (illegal_status line from status)
check_status_command line from (apply_issue_merge id) =
    if status_eq from merging then ok true else err (merge_not_merging line)
check_status_command line from _ = ok false

-- the loop of `validate_replay_commands`, with the count of status commands so far
unfoldable pub validate_loop :
    ℕ → IssueStatus → List ℕ → List ℕ → List (ℕ × Command) → ℕ → Result ReplayError ℕ
unfolding is_recordable_for_issue check_status_command
validate_loop issue_id from subtasks findings [] count = ok count
validate_loop issue_id from subtasks findings ((line, cmd) ∷ rest) count =
    if is_recordable_for_issue cmd issue_id subtasks findings
    then (check_status_command line from cmd >>= λ is_status.
        validate_loop issue_id from subtasks findings rest (if is_status then suc count else count))
    else err (not_valid_for_issue line)

abbrev pub expect_one : List (ℕ × Command) → ℕ → Result ReplayError (Unit {0})
expect_one [] count = ok tt
expect_one (c ∷ rest) zero = err missing_status
expect_one (c ∷ rest) (suc zero) = ok tt
expect_one (c ∷ rest) count = err (many_statuses count)

unfoldable pub validate_replay_commands :
    List (ℕ × Command) → ℕ → ControlSnapshot → List ℕ → List ℕ → Result ReplayError (Unit {0})
unfolding validate_loop
validate_replay_commands commands issue_id snapshot subtasks findings =
    validate_loop issue_id snapshot.issue.status subtasks findings commands 0
    >>= expect_one commands
