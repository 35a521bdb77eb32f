-- ===== src/Ipc/Replay.antt =====
-- A replay of the outbox stays within the issue of the agent.
use auwsx.Common.{
  &&-true, ==_iff, List, Option, Result, Text, [], all, ap, arith, contains, err, is_ok, none, ok,
  refl, some, subst, sym, true, ℕ, ◌∙◌, ◌∷◌, ◌≡◌,
}
use auwsx.Status.{IssueStatus}
use auwsx.Store.Exec.{pure, ◌>>◌}
use auwsx.Store.Rows.{FindingStatus, Rowids, Subtask, accepted, dismissed_finding, rejected}
use auwsx.Store.Subtasks.{add_subtask_row, mark_done, new_subtask, update_subtasks}
use auwsx.Store.Findings.{
  NewFinding, accept_finding_row, add_finding_row, dismiss_finding_row, new_finding,
  reject_finding_row, resolve_finding,
}
use auwsx.LocalMerge.{LocalMergeOutcome, MergeError}
use auwsx.Control.Outbox.{
  Command, ControlSnapshot, ReplayError, Response, accept_finding, add_finding, add_subtask,
  allowed_finding_ids, allowed_subtask_ids, apply_issue_merge, complete_subtask, dismiss_finding,
  is_recordable_for_issue, ok_response, reject_finding, set_issue_status, validate_replay_commands,
}
use auwsx.Control.Outbox.Batch.{fits, is_allowed_from, validate-batch}
use auwsx.Runtime.{Action, World, on_db}
use auwsx.Ipc.{
  apply_merge, dispatch, dispatch_inner, replay, replay_checked, replay_commands, replay_decoded,
  serve_status,
}
use auwsx.Ipc.Within.{
  DbWithin-refl, OpWithin, Within, Within-refl, Within-trans, answered-Within, apply_merge-Within,
  either-DbWithin, on_db-Within, only_issues, same_findings, same_subtasks, write_asked-Within,
}
use auwsx.Ipc.Notes.{RowsWithin-add, RowsWithin-update}

module _ (subtasks findings : List ℕ) (id : ℕ) where
  subtask-OpWithin :
      (row : ℕ) (f : Subtask → Subtask)
      → contains subtasks row ≡ true
      → ((t : Subtask) → ((f t).id ≡ t.id) × ((f t).issue_id ≡ t.issue_id))
      → OpWithin subtasks findings id (update_subtasks row f)
  unfolding update_subtasks
  subtask-OpWithin row f allowed keeps db =
      either-DbWithin subtasks findings id _ _ _ db (DbWithin-refl subtasks findings id db) (
        refl,
        refl,
        refl,
        RowsWithin-update _ _ subtasks id row f db.subtasks allowed keeps,
        same_findings subtasks findings id db,
        only_issues subtasks findings id db,
      )

  finding-OpWithin :
      (row : ℕ) (status : FindingStatus) (reason : Option Text) (now : ℕ)
      → contains findings row ≡ true
      → OpWithin subtasks findings id (resolve_finding row status reason now)
  unfolding resolve_finding
  finding-OpWithin row status reason now allowed db =
      either-DbWithin subtasks findings id _ _ _ db (DbWithin-refl subtasks findings id db) (
        refl,
        refl,
        refl,
        same_subtasks subtasks findings id db,
        RowsWithin-update _ _ findings id row _ db.findings allowed (λ f. (refl, refl)),
        only_issues subtasks findings id db,
      )

  add_subtask-OpWithin :
      (rowids : Rowids) (issue_id ord : ℕ) (text : Text) (now : ℕ)
      → issue_id ≡ id
      → OpWithin subtasks findings id (add_subtask_row rowids issue_id ord text now)
  unfolding add_subtask_row new_subtask
  add_subtask-OpWithin rowids issue_id ord text now own db =
      either-DbWithin subtasks findings id _ _ _ db (DbWithin-refl subtasks findings id db) (
        refl,
        refl,
        refl,
        RowsWithin-add _ _ subtasks id _ db.subtasks own,
        same_findings subtasks findings id db,
        only_issues subtasks findings id db,
      )

  add_finding-OpWithin :
      (rowids : Rowids) (f : NewFinding) (now : ℕ)
      → f.issue_id ≡ id
      → OpWithin subtasks findings id (add_finding_row rowids f now)
  unfolding add_finding_row new_finding
  add_finding-OpWithin rowids f now own db =
      either-DbWithin subtasks findings id _ _ _ db (DbWithin-refl subtasks findings id db) (
        refl,
        refl,
        refl,
        same_subtasks subtasks findings id db,
        RowsWithin-add _ _ findings id _ db.findings own,
        only_issues subtasks findings id db,
      )

module _ (merge_outcome : Text → ℕ → Text → Result MergeError LocalMergeOutcome) (rowids : Rowids)
    (serve_other : ℕ → Action Response) (id now : ℕ) (subtasks findings : List ℕ) where
  served-Within :
      (cmd : Command) (w : World)
      → is_recordable_for_issue cmd id subtasks findings ≡ true
      → Within subtasks findings id w (dispatch_inner merge_outcome rowids serve_other cmd now w).1
  unfolding is_recordable_for_issue dispatch_inner serve_status mark_done accept_finding_row
      reject_finding_row dismiss_finding_row
  served-Within (set_issue_status issue status force) w h =
      subst
        (λ i.
          Within subtasks findings id w ((serve_status i status force now >> pure ok_response) w).1)
        (sym ((==_iff issue id).0 h))
        (answered-Within subtasks findings id w (serve_status id status force now)
          (λ u. ok_response) (write_asked-Within subtasks findings id w status force _ now))
  served-Within (apply_issue_merge issue) w h =
      subst
        (λ i.
          Within subtasks findings id w ((apply_merge merge_outcome i now >> pure ok_response) w).1)
        (sym ((==_iff issue id).0 h))
        (answered-Within subtasks findings id w (apply_merge merge_outcome id now)
          (λ u. ok_response) (apply_merge-Within subtasks findings id w merge_outcome now))
  served-Within (add_subtask issue ord text) w h =
      answered-Within subtasks findings id w (on_db (add_subtask_row rowids issue ord text now)) _ (
        on_db-Within subtasks findings id (add_subtask_row rowids issue ord text now) w (
          add_subtask-OpWithin subtasks findings id rowids issue ord text now
            ((==_iff issue id).0 h)))
  served-Within (complete_subtask row) w h =
      answered-Within subtasks findings id w (on_db (mark_done row now)) _ (
        on_db-Within subtasks findings id (mark_done row now) w (
          subtask-OpWithin subtasks findings id row
            (λ (t : Subtask). record t { is_done = true; done_at = some now }) h
            (λ t. (refl, refl))))
  served-Within (add_finding issue round severity lens title detail file_ref) w h =
      answered-Within subtasks findings id w (on_db (add_finding_row rowids _ now)) _ (
        on_db-Within subtasks findings id (add_finding_row rowids _ now) w
          (add_finding-OpWithin subtasks findings id rowids _ now ((==_iff issue id).0 h)))
  served-Within (accept_finding row rationale) w h =
      answered-Within subtasks findings id w (on_db (accept_finding_row row rationale now)) _ (
        on_db-Within subtasks findings id (accept_finding_row row rationale now) w
          (finding-OpWithin subtasks findings id row accepted (some rationale) now h))
  served-Within (reject_finding row rationale) w h =
      answered-Within subtasks findings id w (on_db (reject_finding_row row rationale now)) _ (
        on_db-Within subtasks findings id (reject_finding_row row rationale now) w
          (finding-OpWithin subtasks findings id row rejected (some rationale) now h))
  served-Within (dismiss_finding row) w h =
      answered-Within subtasks findings id w (on_db (dismiss_finding_row row now)) _ (
        on_db-Within subtasks findings id (dismiss_finding_row row now) w
          (finding-OpWithin subtasks findings id row dismissed_finding none now h))
  served-Within _ w h = absurd (ground arith)

  commands-Within :
      (from : IssueStatus) (commands : List (ℕ × Command)) (w : World)
      → all (fits id from subtasks findings) commands ≡ true
      → Within subtasks findings id w
          (replay_commands merge_outcome rowids serve_other commands now w).1
  unfolding replay_commands dispatch all
  commands-Within from [] w h = Within-refl subtasks findings id w
  commands-Within from ((line, cmd) ∷ rest) w h =
      let (here, later) =
        &&-true (fits id from subtasks findings (line, cmd))
          (all (fits id from subtasks findings) rest) h in
      let (recordable, _) =
        &&-true (is_recordable_for_issue cmd id subtasks findings) (is_allowed_from from cmd)
          here in
      let next = (dispatch_inner merge_outcome rowids serve_other cmd now w).1 in
      Within-trans subtasks findings id w next
        (replay_commands merge_outcome rowids serve_other rest now next).1
        (served-Within cmd w recordable) (commands-Within from rest next later)

module _ (merge_outcome : Text → ℕ → Text → Result MergeError LocalMergeOutcome) (rowids : Rowids)
    (serve_other : ℕ → Action Response) where
  checked-Within :
      (r : Result ReplayError (Unit {0})) (commands : List (ℕ × Command)) (id : ℕ)
      (seen : ControlSnapshot) (now : ℕ) (w : World)
      → validate_replay_commands commands id seen
          (allowed_subtask_ids seen)
          (allowed_finding_ids seen)
        ≡ r
      → Within
          (allowed_subtask_ids seen)
          (allowed_finding_ids seen)
          id
          w
          (replay_checked merge_outcome rowids serve_other r commands now w).1
  unfolding replay_checked
  checked-Within (err e) commands id seen now w checked =
      Within-refl (allowed_subtask_ids seen) (allowed_finding_ids seen) id w
  checked-Within (ok u) commands id seen now w checked =
      let subtasks = allowed_subtask_ids seen in
      let findings = allowed_finding_ids seen in
      let accepted_batch =
        ap is_ok (sym checked) ∙ validate-batch commands id seen subtasks findings in
      commands-Within merge_outcome rowids serve_other id now subtasks findings seen.issue.status
        commands w
        (&&-true (all (fits id seen.issue.status subtasks findings) commands) _
          (sym accepted_batch)).0

  -- Whatever is in the outbox of an agent, and whether its replay succeeds or not: projects, runs,
  -- live agents, backlog items, queue messages and route locks stay as they were; of the issues only
  -- the row of the agent's own issue may change, and not its id; of the subtasks and findings only
  -- those in the snapshot of the agent may change, and not their ids and issues, and new ones are of
  -- the agent's own issue. What a local merge does in the repository is not part of this.
  pub replay-Within :
      (outbox : Option (List (ℕ × Command))) (id : ℕ) (seen : ControlSnapshot) (now : ℕ) (w : World)
      → Within
          (allowed_subtask_ids seen)
          (allowed_finding_ids seen)
          id
          w
          (replay merge_outcome rowids serve_other outbox id seen now w).1
  unfolding replay replay_decoded
  replay-Within none id seen now w =
      Within-refl (allowed_subtask_ids seen) (allowed_finding_ids seen) id w
  replay-Within (some commands) id seen now w = checked-Within _ commands id seen now w refl
