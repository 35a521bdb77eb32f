-- ===== src/Ipc/Moves.antt =====
-- A replay moves the status of an issue by legal moves only.
use auwsx.Common.{
  &&-true, ==_iff, Bool, Bool-cases, List, Option, Result, Text, [], all, ap, arith, err, false,
  find, if◌then◌else◌, inl, inr, is_ok, none, ok, refl, some, subst, sym, true, ℕ, ◌∙◌, ◌∷◌, ◌≡◌,
}
use auwsx.Status.{IssueStatus, conflict_blocked, done, is_legal_transition, merging, status_eq}
use auwsx.Model.{Issue, Project, is_local}
use auwsx.Store.Exec.{>>=-keeps, ensure, lift, pure, ◌>>=◌, ◌>>◌}
use auwsx.Store.Table.{find-update}
use auwsx.Store.Rows.{
  Db, Error, FindingStatus, Op, Rowids, Subtask, accepted, dismissed_finding, has_issue_id,
  rejected,
}
use auwsx.Store.Issues.{get_issue, set_status, transition}
use auwsx.Store.Issues.Status.{transition-cases}
use auwsx.Store.Subtasks.{add_subtask_row, mark_done, update_subtasks}
use auwsx.Store.Findings.{
  accept_finding_row, add_finding_row, dismiss_finding_row, reject_finding_row, resolve_finding,
}
use auwsx.LocalMerge.{LocalMergeOutcome, MergeError, blocked, merged}
use auwsx.Control.Outbox.{
  Command, ControlSnapshot, ReplayError, Response, accept_finding, add_finding, add_subtask,
  allowed_finding_ids, allowed_subtask_ids, apply_issue_merge, complete_subtask, dismiss_finding,
  is_recordable_for_issue, ok_response, reject_finding, set_issue_status, validate_replay_commands,
}
use auwsx.Control.Outbox.Batch.{fits, is_allowed_from, validate-batch}
use auwsx.Runtime.{
  Action, RuntimeError, World, find_issue, find_project, not_local, not_merging, on_db,
}
use auwsx.Ipc.{
  apply_merge, dispatch, dispatch_inner, lift_merge, merge_branch, record_merge, replay,
  replay_checked, replay_commands, replay_decoded, serve_status, write_asked,
}

-- the issue is there, and its status has the property
abbrev pub StatusHolds : (IssueStatus → Type 0) → ℕ → World → Type 0
StatusHolds P id w = (x : Issue) × ((get_issue id w.db ≡ some x) × P x.status)

pub transition-get :
    (id : ℕ) (to : IssueStatus) (now : ℕ) (w : World) (x : Issue)
    → get_issue id w.db ≡ some x
    → is_legal_transition x.status to ≡ true
    → get_issue id (on_db (transition id to now) w).1.db ≡ some (set_status to now x)
transition-get id to now w x found legal =
    rw (transition-cases id to now w.db, found, legal)
      (unfold get_issue set_status in
        find-update (has_issue_id id) (set_status to now) w.db.issues (λ y h. h) found)

module _ (P : IssueStatus → Type 0)
    (closed : (s t : IssueStatus) → P s → is_legal_transition s t ≡ true → P t) where
  transition-holds :
      (id : ℕ) (to : IssueStatus) (now : ℕ) (w : World)
      → StatusHolds P id w
      → StatusHolds P id (on_db (transition id to now) w).1
  transition-holds id to now w (x, (found, h)) =
      elim (Bool-cases (is_legal_transition x.status to)) [
        | inl e ↦ (
          set_status to now x,
          (transition-get id to now w x found e, unfold set_status in closed x.status to h e),
        )
        | inr e ↦ rw (transition-cases id to now w.db, found, e) (x, (found, h))
      ]

  -- an operation that leaves the table of issues alone
  same-holds :
      {A : Type 0} (id : ℕ) (op : Op A) (w : World)
      → (op w.db).1.issues ≡ w.db.issues
      → StatusHolds P id w
      → StatusHolds P id (on_db op w).1
  unfolding get_issue
  same-holds id op w same (x, (found, h)) = (x, (ap (find (has_issue_id id)) same ∙ found, h))

  ensured-holds :
      (id : ℕ) (b : Bool) (e : RuntimeError) (m : Action (Unit {0})) (w : World)
      → StatusHolds P id w
      → StatusHolds P id (m w).1
      → StatusHolds P id ((ensure b e >> m) w).1
  ensured-holds id true e m w h0 h = h
  ensured-holds id false e m w h0 h = h0

  record_merge-holds :
      (id : ℕ) (outcome : LocalMergeOutcome) (now : ℕ) (w : World)
      → StatusHolds P id w
      → StatusHolds P id (record_merge id outcome now w).1
  unfolding record_merge
  record_merge-holds id (merged result) now w h = transition-holds id done now w h
  record_merge-holds id (blocked b) now w h = transition-holds id conflict_blocked now w h

  module _ (merge_outcome : Text → ℕ → Text → Result MergeError LocalMergeOutcome) where
    merge_branch-holds :
        (project : Project) (id : ℕ) (branch : Option Text) (now : ℕ) (w : World)
        → StatusHolds P id w
        → StatusHolds P id (merge_branch merge_outcome project id branch now w).1
    unfolding merge_branch
    merge_branch-holds project id none now w h = h
    merge_branch-holds project id (some branch) now w h =
        >>=-keeps (StatusHolds P id) (lift (lift_merge (merge_outcome project.repo_path id branch)))
          (λ outcome. record_merge id outcome now) w h
          (λ outcome. record_merge-holds id outcome now w h)

    apply_merge-holds :
        (id now : ℕ) (w : World)
        → StatusHolds P id w
        → StatusHolds P id (apply_merge merge_outcome id now w).1
    unfolding apply_merge find_issue find_project
    apply_merge-holds id now w h = >>=-keeps (StatusHolds P id) (find_issue id) _ w h (λ issue.
        ensured-holds id (status_eq issue.status merging) (not_merging id issue.status) _ w h (
          >>=-keeps (StatusHolds P id) (find_project issue.project_id) _ w h (λ project.
            ensured-holds id (is_local project.merge_mode) (not_local id) _ w h
              (merge_branch-holds project id issue.branch now w h))))

  write_asked-holds :
      (id : ℕ) (status : IssueStatus) (same : Bool) (now : ℕ) (w : World)
      → StatusHolds P id w
      → StatusHolds P id (write_asked id status false same now w).1
  unfolding write_asked
  write_asked-holds id status true now w h = h
  write_asked-holds id status false now w h = transition-holds id status now w h

  answered-holds :
      {A : Type 0} (id : ℕ) (m : Action A) (f : A → Response) (w : World)
      → StatusHolds P id (m w).1
      → StatusHolds P id ((m >>= λ a. pure (f a)) w).1
  answered-holds id m f w h = >>=-keeps (StatusHolds P id) m (λ a. pure (f a)) w h (λ a. h)

-- a write behind a test, where neither side touches the issues
either-same :
    {A : Type 0} (b : Bool) (x y : Result Error A × Db) (db : Db)
    → x.1.issues ≡ db.issues
    → y.1.issues ≡ db.issues
    → (if b then x else y).1.issues ≡ db.issues
either-same true x y db hx hy = hx
either-same false x y db hx hy = hy

subtask-same :
    (row : ℕ) (f : Subtask → Subtask) (db : Db) → (update_subtasks row f db).1.issues ≡ db.issues
unfolding update_subtasks
subtask-same row f db = either-same _ _ _ db refl refl

finding-same :
    (row : ℕ) (status : FindingStatus) (reason : Option Text) (now : ℕ) (db : Db)
    → (resolve_finding row status reason now db).1.issues ≡ db.issues
unfolding resolve_finding
finding-same row status reason now db = either-same _ _ _ db refl refl

module _ (merge_outcome : Text → ℕ → Text → Result MergeError LocalMergeOutcome) (rowids : Rowids)
    (serve_other : ℕ → Action Response) (P : IssueStatus → Type 0)
    (closed : (s t : IssueStatus) → P s → is_legal_transition s t ≡ true → P t) (id now : ℕ)
    (from : IssueStatus) (subtasks findings : List ℕ) where
  served-holds :
      (line : ℕ) (cmd : Command) (w : World)
      → is_recordable_for_issue cmd id subtasks findings ≡ true
      → is_allowed_from from cmd ≡ true
      → StatusHolds P id w
      → StatusHolds P id (dispatch_inner merge_outcome rowids serve_other cmd now w).1
  unfolding is_recordable_for_issue dispatch_inner serve_status mark_done accept_finding_row
      reject_finding_row dismiss_finding_row add_subtask_row add_finding_row
  served-holds line (set_issue_status issue status true) w own allowed h = absurd (ground arith)
  served-holds line (set_issue_status issue status false) w own allowed h =
      subst (λ i. StatusHolds P id ((serve_status i status false now >> pure ok_response) w).1)
        (sym ((==_iff issue id).0 own))
        (answered-holds P closed id (serve_status id status false now) (λ u. ok_response) w
          (write_asked-holds P closed id status _ now w h))
  served-holds line (apply_issue_merge issue) w own allowed h =
      subst (λ i. StatusHolds P id ((apply_merge merge_outcome i now >> pure ok_response) w).1)
        (sym ((==_iff issue id).0 own))
        (answered-holds P closed id (apply_merge merge_outcome id now) (λ u. ok_response) w
          (apply_merge-holds P closed merge_outcome id now w h))
  served-holds line (add_subtask issue ord text) w own allowed h =
      answered-holds P closed id (on_db (add_subtask_row rowids issue ord text now)) _ w (
        same-holds P closed id (add_subtask_row rowids issue ord text now) w
          (either-same _ _ _ w.db refl refl) h)
  served-holds line (complete_subtask row) w own allowed h =
      answered-holds P closed id (on_db (mark_done row now)) _ w
        (same-holds P closed id (mark_done row now) w (subtask-same row _ w.db) h)
  served-holds line (add_finding issue round severity lens title detail file_ref) w own allowed h =
      answered-holds P closed id (on_db (add_finding_row rowids _ now)) _ w (
        same-holds P closed id (add_finding_row rowids _ now) w (either-same _ _ _ w.db refl refl)
          h)
  served-holds line (accept_finding row rationale) w own allowed h =
      answered-holds P closed id (on_db (accept_finding_row row rationale now)) _ w (
        same-holds P closed id (accept_finding_row row rationale now) w
          (finding-same row accepted (some rationale) now w.db) h)
  served-holds line (reject_finding row rationale) w own allowed h =
      answered-holds P closed id (on_db (reject_finding_row row rationale now)) _ w (
        same-holds P closed id (reject_finding_row row rationale now) w
          (finding-same row rejected (some rationale) now w.db) h)
  served-holds line (dismiss_finding row) w own allowed h =
      answered-holds P closed id (on_db (dismiss_finding_row row now)) _ w (
        same-holds P closed id (dismiss_finding_row row now) w
          (finding-same row dismissed_finding none now w.db) h)
  served-holds line _ w own allowed h = absurd (ground arith)

  commands-hold :
      (commands : List (ℕ × Command)) (w : World)
      → all (fits id from subtasks findings) commands ≡ true
      → StatusHolds P id w
      → StatusHolds P id (replay_commands merge_outcome rowids serve_other commands now w).1
  unfolding replay_commands dispatch all
  commands-hold [] w good h = h
  commands-hold ((line, cmd) ∷ rest) w good h =
      let (first_fits, later) =
        &&-true (fits id from subtasks findings (line, cmd))
          (all (fits id from subtasks findings) rest) good in
      let (own, allowed) =
        &&-true (is_recordable_for_issue cmd id subtasks findings) (is_allowed_from from cmd)
          first_fits in
      commands-hold rest (dispatch_inner merge_outcome rowids serve_other cmd now w).1 later
        (served-holds line cmd w own allowed h)

module _ (merge_outcome : Text → ℕ → Text → Result MergeError LocalMergeOutcome) (rowids : Rowids)
    (serve_other : ℕ → Action Response) (P : IssueStatus → Type 0)
    (closed : (s t : IssueStatus) → P s → is_legal_transition s t ≡ true → P t) where
  checked-holds :
      (r : Result ReplayError (Unit {0})) (commands : List (ℕ × Command)) (id : ℕ)
      (seen : ControlSnapshot) (now : ℕ) (w : World)
      → validate_replay_commands commands id seen
          (allowed_subtask_ids seen)
          (allowed_finding_ids seen)
        ≡ r
      → StatusHolds P id w
      → StatusHolds P id (replay_checked merge_outcome rowids serve_other r commands now w).1
  unfolding replay_checked
  checked-holds (err e) commands id seen now w checked h = h
  checked-holds (ok u) commands id seen now w checked h =
      let subtasks = allowed_subtask_ids seen in
      let findings = allowed_finding_ids seen in
      let accepted_batch =
        ap is_ok (sym checked) ∙ validate-batch commands id seen subtasks findings in
      commands-hold merge_outcome rowids serve_other P closed id now seen.issue.status subtasks
        findings commands w
        (&&-true (all (fits id seen.issue.status subtasks findings) commands) _
          (sym accepted_batch)).0
        h

  pub replay-holds :
      (outbox : Option (List (ℕ × Command))) (id : ℕ) (seen : ControlSnapshot) (now : ℕ) (w : World)
      → StatusHolds P id w
      → StatusHolds P id (replay merge_outcome rowids serve_other outbox id seen now w).1
  unfolding replay replay_decoded
  replay-holds none id seen now w h = h
  replay-holds (some commands) id seen now w h = checked-holds _ commands id seen now w refl h
