-- ===== src/Pipeline/Runs.antt =====
-- crates/auwsx-core/src/db/agent_runs.rs: opening a run record and writing to it.
use auwsx.Common.{
  Option, String, Text, [], err, if◌then◌else◌, map, none, ok, some, ℕ, ◌++◌, ◌==◌, ◌∷◌,
}
use auwsx.Model.{AgentRun, Role}
use auwsx.Store.Table.{count_where, update_where}
use auwsx.Store.Rows.{Rowids, has_issue_id, issue_not_found}
use auwsx.Runtime.{Action, has_run_id, run_not_found, store_error}

-- `StartRun`, for the run of an issue
pub record StartRun : Type 0 where
  pub issue_id : ℕ
  pub role : Role
  pub phase : String
  pub agent_cmd : Text
  pub status_before : Option String
  pub prompt_path : Option Text
  pub log_path : Option Text

unfoldable pub new_run : ℕ → StartRun → ℕ → AgentRun
new_run id run spawned_at = record {
  id = id;
  issue_id = some run.issue_id;
  main_job_id = none;
  role = run.role;
  phase = run.phase;
  agent_cmd = run.agent_cmd;
  status_before = run.status_before;
  status_after = none;
  pid = none;
  exit_code = none;
  exit_kind = none;
  prompt_path = run.prompt_path;
  log_path = run.log_path;
  phase_report = none;
  spawned_at = spawned_at;
  exited_at = none;
  note = none;
}

-- `start`; the foreign key makes it fail for an issue that does not exist
unfoldable pub start_run : Rowids → StartRun → ℕ → Action ℕ
unfolding count_where new_run
start_run rowids run spawned_at w =
    let id = rowids.next (map (λ (r : AgentRun). r.id) w.runs) in
    if count_where (has_issue_id run.issue_id) w.db.issues == 0
    then (err (store_error (issue_not_found run.issue_id)), w)
    else (ok id, record w { runs = w.runs ++ new_run id run spawned_at ∷ [] })

-- `UPDATE agent_runs SET … WHERE id = ?`, which has to affect a row
unfoldable pub update_run : ℕ → (AgentRun → AgentRun) → Action (Unit {0})
unfolding count_where update_where
update_run run_id f w =
    if count_where (has_run_id run_id) w.runs == 0
    then (err (run_not_found run_id), w)
    else (ok tt, record w { runs = update_where (has_run_id run_id) f w.runs })

unfoldable pub set_pid : ℕ → ℕ → Action (Unit {0})
unfolding update_run
set_pid run_id pid = update_run run_id (λ run. record run { pid = some pid })

unfoldable pub set_phase_report : ℕ → Text → Action (Unit {0})
unfolding update_run
set_phase_report run_id report =
    update_run run_id (λ run. record run { phase_report = some report })
