-- ===== src/Runtime.antt =====
-- crates/auwsx-core/src/scheduler.rs: the operations of `Scheduler` around the decision, over the tables
-- and the set of issues with a live agent; the rows of db/agent_runs.rs that they write. The events
-- that are broadcast are left out, and so is what a phase does once it is started.
pub mod Gates
pub mod Recovery
pub mod Retry
use auwsx.Common.{
  Bool, List, Option, Result, String, Text, [], codes, contains, err, false, filter, find,
  if◌then◌else◌, is_none, is_some, leb, none, ok, or_fail, some, str_eq, suc, zero, ℕ, ◌&&◌, ◌*◌,
  ◌+◌, ◌==◌, ◌∷◌,
}
use auwsx.Common.Int.{negsuc, pos, ℤ}
use auwsx.Status.{
  IssueStatus, abandoned, as_str, conflict_blocked, failed, is_actionable, is_terminal, merging,
  plan_ready, ready_to_merge, status_eq, working,
}
use auwsx.Model.{
  AgentRun, CompletionPolicy, ExitKind, Issue, Project, auto, error, is_local, manual, soft,
}
use auwsx.Scheduler.{plan_phase, teardown}
use auwsx.Store.Exec.{Exec, ensure, modify, pure, ◌>>=◌, ◌>>◌}
use auwsx.Store.Table.{count_where, delete_where, order_by, update_where}
use auwsx.Store.Rows.{Db, Error, Op, is_consumed_by, issue_not_found}
use auwsx.Store.Issues.{
  force_status, get_issue, list_issues_by_status, remove_issue_row, set_wait_until, set_worktree,
  transition,
}
use auwsx.Store.Backlog.{dismiss_consumed_by_issue}
use auwsx.LocalMerge.{MergeError}
use auwsx.Control.Outbox.{ReplayError}
use auwsx.Control.Plans.{retry_status_from_runs}

pub record World : Type 0 where
  pub db : Db
  pub projects : List Project
  pub runs : List AgentRun
  -- the ids of the issues with a live agent
  pub running : List ℕ

pub data RuntimeError : Type 0 where
  store_error : Error → RuntimeError
  project_not_found : ℕ → RuntimeError
  already_running : ℕ → RuntimeError
  blocked_by : ℕ → ℕ → RuntimeError
  not_actionable : ℕ → IssueStatus → RuntimeError
  not_failed : ℕ → IssueStatus → RuntimeError
  run_not_found : ℕ → RuntimeError
  teardown_failed : ℕ → RuntimeError
  -- the issue and its status
  not_merging : ℕ → IssueStatus → RuntimeError
  not_local : ℕ → RuntimeError
  no_branch : ℕ → RuntimeError
  merge_error : MergeError → RuntimeError
  replay_error : ReplayError → RuntimeError
  -- the outbox cannot be read, or holds what is no command
  outbox_unreadable : RuntimeError
  -- a replayed command was answered with an error
  replay_refused : RuntimeError
  -- a phase could not be set up, or its agent could not be run
  worktree_failed : ℕ → RuntimeError
  artifacts_failed : ℕ → RuntimeError
  prompt_not_written : ℕ → RuntimeError
  control_dir_failed : ℕ → RuntimeError
  snapshot_not_written : ℕ → RuntimeError
  executor_failed : Text → RuntimeError

abbrev pub Action : Type 0 → Type 0
Action A = Exec World RuntimeError A

-- an operation of the store, with its error passed on by `?`
abbrev pub lift_error {ℓ} : {A : Type ℓ} → Result Error A → Result RuntimeError A
lift_error (ok a) = ok a
lift_error (err e) = err (store_error e)

abbrev pub on_db : {A : Type 0} → Op A → Action A
on_db m w = let (r, db') = m w.db in (lift_error r, record w { db = db' })

unfoldable pub find_issue : ℕ → Action Issue
unfolding get_issue
find_issue issue_id w =
    (or_fail (get_issue issue_id w.db) (store_error (issue_not_found issue_id)), w)

unfoldable pub find_project : ℕ → Action Project
unfolding find
find_project project_id w = (
  or_fail (find (λ (p : Project). p.id == project_id) w.projects) (project_not_found project_id),
  w,
)

unfoldable pub ensure_issue_idle : ℕ → Action (Unit {0})
unfolding contains
ensure_issue_idle issue_id w =
    if contains w.running issue_id then (err (already_running issue_id), w) else (ok tt, w)

unfoldable pub release : ℕ → IssueStatus → ℕ → Action (Unit {0})
unfolding transition
release issue_id target now = on_db (transition issue_id target now)

abbrev first_blocked : ℕ → List Issue → Result RuntimeError (Unit {0})
first_blocked project_id [] = ok tt
first_blocked project_id (issue ∷ rest) = err (blocked_by project_id issue.id)

unfoldable pub ensure_local_merge_not_conflict_blocked : ℕ → Action (Unit {0})
unfolding find_project list_issues_by_status
ensure_local_merge_not_conflict_blocked project_id = do
  project ← find_project project_id
  λ w.
      if is_local project.merge_mode
      then (first_blocked project_id (list_issues_by_status project_id conflict_blocked w.db), w)
      else (ok tt, w)

abbrev pub minute_ms : ℕ
minute_ms = 60000

-- the last `match` of `service_soft_gate`, for a deadline of `minutes` > 0
unfoldable pub arm_or_release : Issue → IssueStatus → ℕ → Option ℕ → ℕ → Action (Unit {0})
unfolding set_wait_until release
arm_or_release issue target minutes none now =
    on_db (set_wait_until issue.id (some (now + minutes * minute_ms)) now)
arm_or_release issue target minutes (some w) now =
    if leb w now then release issue.id target now else pure tt

unfoldable pub gate_with : Issue → IssueStatus → ℤ → ℕ → Action (Unit {0})
unfolding release arm_or_release
gate_with issue target (negsuc n) now = release issue.id target now
gate_with issue target (pos zero) now = release issue.id target now
gate_with issue target (pos (suc n)) now = arm_or_release issue target (suc n) issue.wait_until now

abbrev merge_gate : Issue → Project → CompletionPolicy → ℕ → Action (Unit {0})
merge_gate issue project auto now = gate_with issue merging (pos 0) now
merge_gate issue project soft now = gate_with issue merging project.completion_soft_timeout_min now
merge_gate issue project manual now = pure tt

-- `service_soft_gate` below the lookup, by the status of the issue
unfoldable pub service_gate_at : IssueStatus → Issue → Project → ℕ → Action (Unit {0})
unfolding gate_with ensure_local_merge_not_conflict_blocked
service_gate_at plan_ready issue project now =
    gate_with issue working project.plan_gate_timeout_min now
service_gate_at ready_to_merge issue project now =
    ensure_local_merge_not_conflict_blocked issue.project_id
    >> merge_gate issue project project.completion_policy now
service_gate_at _ issue project now = pure tt

abbrev service_found : Option Issue → Project → ℕ → Action (Unit {0})
service_found none project now = pure tt
service_found (some issue) project now = service_gate_at issue.status issue project now

unfoldable pub service_soft_gate : Project → ℕ → ℕ → Action (Unit {0})
unfolding get_issue service_gate_at
service_soft_gate project issue_id now w = service_found (get_issue issue_id w.db) project now w

-- `spawn_phase`, up to the task that runs the phase
unfoldable pub spawn_phase : ℕ → Action (Unit {0})
unfolding contains
spawn_phase issue_id w =
    (ok tt, if contains w.running issue_id then w else record w { running = issue_id ∷ w.running })

unfoldable pub run_issue_now : ℕ → Action (Unit {0})
unfolding ensure_issue_idle find_issue plan_phase spawn_phase
run_issue_now issue_id = do
  ensure_issue_idle issue_id
  issue ← find_issue issue_id
  ensure (is_some (plan_phase issue.status)) (not_actionable issue_id issue.status)
  spawn_phase issue_id

-- all runs of an issue, oldest first
unfoldable pub list_runs_by_issue : ℕ → List AgentRun → List AgentRun
unfolding filter order_by
list_runs_by_issue issue_id runs =
    order_by (λ run. run.id) (filter (λ run. is_consumed_by issue_id run.issue_id) runs)

unfoldable pub retry_failed_issue_to_status : ℕ → IssueStatus → ℕ → Action (Unit {0})
unfolding force_status run_issue_now
retry_failed_issue_to_status issue_id retry_status now = do
  on_db (force_status issue_id retry_status now)
  run_issue_now issue_id

unfoldable pub retry_failed_issue : ℕ → ℕ → Action (Unit {0})
unfolding ensure_issue_idle find_issue status_eq retry_status_from_runs list_runs_by_issue
    retry_failed_issue_to_status
retry_failed_issue issue_id now = do
  ensure_issue_idle issue_id
  issue ← find_issue issue_id
  ensure (status_eq issue.status failed) (not_failed issue_id issue.status)
  λ w.
      retry_failed_issue_to_status issue_id
        (retry_status_from_runs (list_runs_by_issue issue_id w.runs)) now w

-- `db/agent_runs.rs`: `finish`
unfoldable pub close_run :
    Option String → Option ℤ → ExitKind → ℕ → Option Text → AgentRun → AgentRun
close_run status_after exit_code exit_kind exited_at note run = record run {
  status_after = status_after;
  exit_code = exit_code;
  exit_kind = some exit_kind;
  exited_at = some exited_at;
  note = note;
}

abbrev pub has_run_id : ℕ → AgentRun → Bool
has_run_id id run = run.id == id

unfoldable pub finish_run :
    ℕ → Option String → Option ℤ → ExitKind → ℕ → Option Text → Action (Unit {0})
unfolding count_where update_where close_run
finish_run run_id status_after exit_code exit_kind exited_at note w =
    if count_where (has_run_id run_id) w.runs == 0 then (err (run_not_found run_id), w) else (
      ok tt,
      record w {
        runs =
            update_where (has_run_id run_id)
              (close_run status_after exit_code exit_kind exited_at note) w.runs;
      },
    )

-- `issue_id IS NOT NULL AND exited_at IS NULL`
abbrev pub is_open_issue_run : AgentRun → Bool
is_open_issue_run run = is_some run.issue_id && is_none run.exited_at

unfoldable pub list_open_issue_runs : List AgentRun → List AgentRun
unfolding filter order_by
list_open_issue_runs runs = order_by (λ run. run.id) (filter is_open_issue_run runs)

abbrev pub word_is : Option String → String → Bool
word_is none word = false
word_is (some w) word = str_eq w word

abbrev after_transition : IssueStatus → Result Error (Unit {0}) → String
after_transition status (ok u) = as_str failed
after_transition status (err e) = as_str status

-- the inner `if let` of `recover_open_issue_runs`: the status to write to the run, and the tables
unfoldable pub fail_interrupted : ℕ → ℕ → AgentRun → Option Issue → Db → Option String × Db
unfolding is_actionable as_str transition
fail_interrupted issue_id now run none db = (none, db)
fail_interrupted issue_id now run (some issue) db =
    if is_actionable issue.status && word_is run.status_before (as_str issue.status)
    then (let (r, db') = transition issue_id failed now db in
        (some (after_transition issue.status r), db'))
    else (some (as_str issue.status), db)

-- one round of the loop, for a run of the issue
unfoldable pub recover_run : ℕ → AgentRun → ℕ → Action (Unit {0})
unfolding get_issue fail_interrupted finish_run
recover_run now run issue_id w =
    let (status_after, db') = fail_interrupted issue_id now run (get_issue issue_id w.db) w.db in
    finish_run run.id status_after none error now
      (some (codes "closed during daemon startup recovery")) (record w { db = db' })

abbrev pub recover_if_issue : ℕ → AgentRun → Option ℕ → Action ℕ → Action ℕ
recover_if_issue now run none rest = rest
recover_if_issue now run (some issue_id) rest =
    recover_run now run issue_id >> (rest >>= λ n. pure (suc n))

unfoldable pub recover_runs : ℕ → List AgentRun → Action ℕ
unfolding recover_run
recover_runs now [] = pure 0
recover_runs now (run ∷ runs) = recover_if_issue now run run.issue_id (recover_runs now runs)

unfoldable pub recover_open_issue_runs : ℕ → Action ℕ
unfolding list_open_issue_runs recover_runs
recover_open_issue_runs now w = recover_runs now (list_open_issue_runs w.runs) w

-- the rows of `agent_runs` that cascade with their issue
abbrev drop_runs : ℕ → World → World
unfolding delete_where
drop_runs issue_id w = record w {
  runs = delete_where (λ (run : AgentRun). is_consumed_by issue_id run.issue_id) w.runs;
}

-- `worktrees.teardown`, the port that removes a worktree with git: whether it succeeds
module _ (teardown : Project → Issue → Bool) where
  unfoldable pub cleanup_issue_worktree : Project → Issue → ℕ → Action (Unit {0})
  unfolding set_worktree
  cleanup_issue_worktree project issue now =
      if is_none issue.worktree_path
      then pure tt
      else (ensure (teardown project issue) (teardown_failed issue.id)
          >> on_db (set_worktree issue.id none none now))

  unfoldable pub abandon_live : Issue → ℕ → Action (Unit {0})
  unfolding find_project cleanup_issue_worktree transition
  abandon_live issue now = do
    project ← find_project issue.project_id
    cleanup_issue_worktree project issue now
    on_db (transition issue.id abandoned now)

  unfoldable pub abandon_issue : ℕ → ℕ → Action (Unit {0})
  unfolding ensure_issue_idle find_issue is_terminal abandon_live
  abandon_issue issue_id now = do
    ensure_issue_idle issue_id
    issue ← find_issue issue_id
    if is_terminal issue.status then pure tt else abandon_live issue now

  unfoldable pub remove_issue : ℕ → ℕ → Action (Unit {0})
  unfolding ensure_issue_idle find_issue find_project cleanup_issue_worktree
      dismiss_consumed_by_issue remove_issue_row delete_where
  remove_issue issue_id now = do
    ensure_issue_idle issue_id
    issue ← find_issue issue_id
    project ← find_project issue.project_id
    cleanup_issue_worktree project issue now
    on_db (dismiss_consumed_by_issue issue_id now) >>= λ _. on_db (remove_issue_row issue_id)
    modify (drop_runs issue_id)
