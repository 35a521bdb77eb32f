-- ===== src/Store/Issues.antt =====
-- crates/auwsx-core/src/db/issues.rs
pub mod Status
use mathlib.Core.List.{reverse}
use mathlib.Core.Option
use auwsx.Common.{
  Bool, List, Option, Text, [], err, false, filter, find, if◌then◌else◌, map, none, ok, or_fail,
  some, suc, ℕ, ◌&&◌, ◌++◌, ◌==◌, ◌∷◌,
}
use auwsx.Status.{IssueStatus, check_transition, new, status_eq}
use auwsx.Model.{Issue}
use auwsx.Store.Exec.{lift, ◌>>=◌, ◌>>◌}
use auwsx.Store.Table.{count_where, delete_where, order_by, update_where}
use auwsx.Store.Rows.{
  BacklogItem, Db, Error, Finding, Op, Rowids, Steering, Subtask, from_transition, has_issue_id,
  is_consumed_by, issue_not_found, stale_proposal,
}

abbrev pub initial_status : IssueStatus
initial_status = new

new_issue : ℕ → ℕ → Text → Option Text → ℕ → Issue
new_issue id project_id title description now = record {
  id = id;
  project_id = project_id;
  title = title;
  description = description;
  agent_summary = none;
  progress_report = none;
  result_report = none;
  status = initial_status;
  branch = none;
  worktree_path = none;
  review_round = 0;
  conflict_attempts = 0;
  wait_until = none;
  has_pending_steering = false;
  created_at = now;
  updated_at = now;
}

-- the shape of every `UPDATE issues SET … WHERE p`, with what is returned if no row is affected
unfoldable pub update_issues : (Issue → Bool) → (Issue → Issue) → Error → Op (Unit {0})
unfolding count_where update_where
update_issues p f e db =
    if count_where p db.issues == 0
    then (err e, db)
    else (ok tt, record db { issues = update_where p f db.issues })

unfoldable pub get_issue : ℕ → Db → Option Issue
unfolding find
get_issue id db = find (has_issue_id id) db.issues

module _ (rowids : Rowids) where
  -- `issues::create`
  unfoldable pub create_issue : ℕ → Text → Option Text → ℕ → Op ℕ
  unfolding new_issue
  create_issue project_id title description now db =
      let id = rowids.next (map (λ (issue : Issue). issue.id) db.issues) in
      (
        ok id,
        record db { issues = db.issues ++ new_issue id project_id title description now ∷ [] },
      )

unfoldable pub coalesce {ℓ} : {A : Type ℓ} → Option A → Option A → Option A
coalesce (some a) old = some a
coalesce none old = old

unfoldable pub update_reports : ℕ → Option Text → Option Text → Option Text → ℕ → Op (Unit {0})
unfolding update_issues coalesce
update_reports id agent_summary progress_report result_report now =
    update_issues (has_issue_id id)
      (λ issue. record issue {
        agent_summary = coalesce agent_summary issue.agent_summary;
        progress_report = coalesce progress_report issue.progress_report;
        result_report = coalesce result_report issue.result_report;
        updated_at = now;
      })
      (issue_not_found id)

-- newest first
unfoldable pub list_issues_by_project : ℕ → Db → List Issue
unfolding filter order_by
list_issues_by_project project_id db =
    reverse
      (order_by (λ issue. issue.id) (filter (λ issue. issue.project_id == project_id) db.issues))

unfoldable pub list_issues_by_status : ℕ → IssueStatus → Db → List Issue
unfolding filter order_by status_eq
list_issues_by_status project_id status db =
    order_by (λ issue. issue.id)
      (filter (λ issue. (issue.project_id == project_id) && status_eq issue.status status)
        db.issues)

unfoldable pub current_status : ℕ → Op IssueStatus
unfolding get_issue
current_status id db = (
  or_fail (Option.map (λ (issue : Issue). issue.status) (get_issue id db)) (issue_not_found id),
  db,
)

unfoldable pub set_status : IssueStatus → ℕ → Issue → Issue
set_status to now issue = record issue { status = to; updated_at = now }

unfoldable pub write_status : ℕ → IssueStatus → ℕ → Op (Unit {0})
unfolding update_issues set_status
write_status id to now = update_issues (has_issue_id id) (set_status to now) (issue_not_found id)

unfoldable pub transition : ℕ → IssueStatus → ℕ → Op (Unit {0})
unfolding current_status check_transition write_status
transition id to now = do
  from ← current_status id
  lift (from_transition (check_transition from to))
  write_status id to now

unfoldable pub force_status : ℕ → IssueStatus → ℕ → Op (Unit {0})
unfolding write_status
force_status id to now = write_status id to now

unfoldable pub write_status_if_current_project :
    ℕ → ℕ → IssueStatus → IssueStatus → ℕ → Op (Unit {0})
unfolding update_issues status_eq set_status
write_status_if_current_project id project_id from to now =
    update_issues
      (λ issue. (issue.id == id) && (issue.project_id == project_id) && status_eq issue.status from)
      (set_status to now) (stale_proposal id)

unfoldable pub transition_if_current_project : ℕ → ℕ → IssueStatus → IssueStatus → ℕ → Op (Unit {0})
unfolding check_transition write_status_if_current_project
transition_if_current_project id project_id from to now = do
  lift (from_transition (check_transition from to))
  write_status_if_current_project id project_id from to now

unfoldable pub force_status_if_current_project :
    ℕ → ℕ → IssueStatus → IssueStatus → ℕ → Op (Unit {0})
unfolding write_status_if_current_project
force_status_if_current_project id project_id from to now =
    write_status_if_current_project id project_id from to now

unfoldable pub set_worktree : ℕ → Option Text → Option Text → ℕ → Op (Unit {0})
unfolding update_issues
set_worktree id branch worktree_path now =
    update_issues (has_issue_id id)
      (λ issue. record issue { branch = branch; worktree_path = worktree_path; updated_at = now })
      (issue_not_found id)

unfoldable pub set_pending_steering : ℕ → Bool → ℕ → Op (Unit {0})
unfolding update_issues
set_pending_steering id flag now =
    update_issues (has_issue_id id)
      (λ issue. record issue { has_pending_steering = flag; updated_at = now }) (issue_not_found id)

unfoldable pub set_wait_until : ℕ → Option ℕ → ℕ → Op (Unit {0})
unfolding update_issues
set_wait_until id deadline now =
    update_issues (has_issue_id id)
      (λ issue. record issue { wait_until = deadline; updated_at = now }) (issue_not_found id)

-- the shape of both counters: the update, then the new value of the row
unfoldable pub bump : (Issue → Issue) → (Issue → ℕ) → ℕ → Op ℕ
unfolding update_issues get_issue
bump f counter id = update_issues (has_issue_id id) f (issue_not_found id) >> λ db.
    (or_fail (Option.map counter (get_issue id db)) (issue_not_found id), db)

unfoldable pub bump_review_round : ℕ → ℕ → Op ℕ
unfolding bump
bump_review_round id now =
    bump (λ issue. record issue { review_round = suc issue.review_round; updated_at = now })
      (λ issue. issue.review_round) id

unfoldable pub bump_conflict_attempts : ℕ → ℕ → Op ℕ
unfolding bump
bump_conflict_attempts id now =
    bump
      (λ issue. record issue { conflict_attempts = suc issue.conflict_attempts; updated_at = now })
      (λ issue. issue.conflict_attempts) id

-- `DELETE FROM issues`: the queue messages of the issue cascade, and the backlog rows that it
-- consumed are unlinked.
unfoldable pub remove_issue_row : ℕ → Op (Unit {0})
unfolding count_where delete_where update_where
remove_issue_row id db =
    if count_where (has_issue_id id) db.issues == 0 then (err (issue_not_found id), db) else (
      ok tt,
      record db {
        issues = delete_where (has_issue_id id) db.issues;
        steering = delete_where (λ (s : Steering). s.issue_id == id) db.steering;
        subtasks = delete_where (λ (t : Subtask). t.issue_id == id) db.subtasks;
        findings = delete_where (λ (f : Finding). f.issue_id == id) db.findings;
        backlog =
            update_where (λ (item : BacklogItem). is_consumed_by id item.consumed_issue_id)
              (λ (item : BacklogItem). record item { consumed_issue_id = none }) db.backlog;
      },
    )
