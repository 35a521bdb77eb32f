-- ===== src/Runtime/Retry.antt =====
-- Retrying a failed issue starts an agent for it.
use auwsx.Common.{
  arith, contains, false, find, is_some, ok, refl, some, true, ℕ, ◌==◌, ◌∙◌, ◌∷◌, ◌≡◌,
}
use auwsx.Status.{IssueStatus, failed, is_actionable, status_eq}
use auwsx.Model.{Issue}
use auwsx.Scheduler.{plan_phase}
use auwsx.Store.Exec.{>>=-ok}
use auwsx.Store.Table.{count_where, find-count, find-update, update_where}
use auwsx.Store.Rows.{has_issue_id}
use auwsx.Store.Issues.{force_status, get_issue, set_status, update_issues, write_status}
use auwsx.Control.Plans.{retry_status_from_runs}
use auwsx.Control.Plans.Retry.{plan_phase-actionable, retry-actionable}
use auwsx.Runtime.{
  World, ensure_issue_idle, find_issue, list_runs_by_issue, on_db, retry_failed_issue,
  retry_failed_issue_to_status, run_issue_now, spawn_phase,
}

module _ (id now : ℕ) (w : World) (issue : Issue) (found : get_issue id w.db ≡ some issue)
    (idle : contains w.running id ≡ false) where
  idle_ok : ensure_issue_idle id w ≡ (ok tt, w)
  unfolding ensure_issue_idle
  idle_ok = rw idle refl

  find_ok : find_issue id w ≡ (ok issue, w)
  unfolding find_issue
  find_ok = rw found refl

  run_now_ok :
      is_some (plan_phase issue.status) ≡ true
      → run_issue_now id w ≡ (ok tt, record w { running = id ∷ w.running })
  unfolding run_issue_now spawn_phase
  run_now_ok runnable =
      >>=-ok (ensure_issue_idle id) _ idle_ok
      ∙ >>=-ok (find_issue id) _ find_ok
      ∙ rw (runnable, idle) refl

abbrev forced : ℕ → IssueStatus → ℕ → World → World
forced id status now w = record w {
  db = record w.db { issues = update_where (has_issue_id id) (set_status status now) w.db.issues };
}

module _ (id now : ℕ) (w : World) (issue : Issue) (found : get_issue id w.db ≡ some issue)
    (idle : contains w.running id ≡ false) where
  force_ok :
      (status : IssueStatus)
      → on_db (force_status id status now) w ≡ (ok tt, forced id status now w)
  unfolding force_status write_status update_issues get_issue
  force_ok status =
      let seen : is_some (find (has_issue_id id) w.db.issues) ≡ true = rw found refl in
      let counted : (count_where (has_issue_id id) w.db.issues == 0) ≡ false =
        ground (arith, find-count (has_issue_id id) w.db.issues) in
      rw counted refl

  found_forced :
      (status : IssueStatus)
      → get_issue id (forced id status now w).db ≡ some (set_status status now issue)
  unfolding get_issue set_status
  found_forced status =
      find-update (has_issue_id id) (set_status status now) w.db.issues (λ x h. h) found

  retry_to_ok :
      (status : IssueStatus)
      → is_some (plan_phase status) ≡ true
      → retry_failed_issue_to_status id status now w
        ≡ (ok tt, record (forced id status now w) { running = id ∷ w.running })
  unfolding retry_failed_issue_to_status set_status
  retry_to_ok status runnable =
      >>=-ok (on_db (force_status id status now)) _ (force_ok status)
      ∙ run_now_ok id now (forced id status now w) (set_status status now issue)
          (found_forced status) idle runnable

  -- Retrying a FAILED issue that has no live agent always succeeds: the row of the issue gets the
  -- status that its runs give, which is an actionable one, and the time, an agent is started for
  -- it, and nothing else changes.
  pub retry-starts :
      issue.status ≡ failed
      → let status = retry_status_from_runs (list_runs_by_issue id w.runs) in
        (retry_failed_issue id now w ≡ (
          ok tt,
          record w {
            db = record w.db {
              issues = update_where (has_issue_id id) (set_status status now) w.db.issues;
            };
            running = id ∷ w.running;
          },
        ))
        × (is_actionable status ≡ true)
  unfolding retry_failed_issue
  retry-starts gave_up =
      let status = retry_status_from_runs (list_runs_by_issue id w.runs) in
      let actionable_e = retry-actionable (list_runs_by_issue id w.runs) in
      (
        >>=-ok (ensure_issue_idle id) _ (idle_ok id now w issue found idle)
            ∙ >>=-ok (find_issue id) _ (find_ok id now w issue found idle)
            ∙ rw gave_up (
                unfold status_eq in
                retry_to_ok status ((plan_phase-actionable status).0 ∙ actionable_e)),
        actionable_e,
      )
