-- ===== src/Tests/Fixtures.antt =====
-- The project, the issues and the database that the examples run on.
use native.Mathlib.Omega.{arith}
use auwsx.Common.{
  List, [], any, contains, false, if◌then◌else◌, ltb, none, refl, suc, true, ℕ, ◌<◌, ◌∷◌, ◌≡◌,
}
use auwsx.Common.Int.{pos}
use auwsx.Status.{IssueStatus, merging, plan_ready, working}
use auwsx.Model.{Issue, MergeMode, Project, soft}
use auwsx.Store.Rows.{
  Approval, BacklogItem, Db, Rowids, Steering, approved, by_human, human, pending,
}

abbrev pub demo_project : MergeMode → Project
demo_project mode = record {
  id = 1;
  profile_id = 1;
  profile_order = pos 0;
  name = [];
  repo_path = [];
  default_branch = [];
  arsenal_preset_name = none;
  main_agent_cmd = [];
  route_agent_cmd = [];
  plan_agent_cmd = [];
  work_agent_cmd = [];
  review_agent_cmd = none;
  main_agent_cmd_override = none;
  route_agent_cmd_override = none;
  plan_agent_cmd_override = none;
  work_agent_cmd_override = none;
  review_agent_cmd_override = none;
  completion_policy = soft;
  completion_soft_timeout_min = pos 30;
  plan_gate_timeout_min = pos 10;
  iteration_timeout_min = pos 60;
  main_job_timeout_min = pos 60;
  review_max_rounds = pos 3;
  conflict_max_attempts = pos 2;
  max_concurrency = pos 3;
  schedule_cron = none;
  merge_mode = mode;
  skill_path = none;
  deepsleep_cron = none;
  last_deepsleep_at = none;
  created_at = 1;
}

abbrev pub demo_issue : ℕ → IssueStatus → Issue
demo_issue id status = record {
  id = id;
  project_id = 1;
  title = [];
  description = none;
  agent_summary = none;
  progress_report = none;
  result_report = none;
  status = status;
  branch = none;
  worktree_path = none;
  review_round = 0;
  conflict_attempts = 0;
  wait_until = none;
  has_pending_steering = false;
  created_at = 1;
  updated_at = 1;
}

abbrev pub demo_issues : List Issue
demo_issues = demo_issue 1 merging ∷ demo_issue 2 merging ∷ demo_issue 3 plan_ready ∷ []

abbrev pub demo_message : Steering
demo_message = record {
  id = 1;
  issue_id = 7;
  source = by_human;
  note = [];
  consumed = false;
  created_at = 2;
  consumed_at = none;
}

abbrev pub demo_item : ℕ → Approval → BacklogItem
demo_item id approval = record {
  id = id;
  project_id = 1;
  text = 97 ∷ 98 ∷ [];
  source = human;
  approval = approval;
  origin_routine_id = none;
  consumed_issue_id = none;
  created_at = 2;
  resolved_at = none;
}

abbrev pub demo_db : Db
demo_db = record {
  issues =
      record (demo_issue 7 working) { has_pending_steering = true } ∷ demo_issue 8 plan_ready ∷ [];
  backlog = demo_item 4 approved ∷ demo_item 5 pending ∷ [];
  steering = demo_message ∷ [];
  locks = [];
  subtasks = [];
  findings = [];
}

-- one more than the largest key, which is what SQLite picks
abbrev pub largest : List ℕ → ℕ
largest [] = 0
largest (id ∷ ids) = if ltb (largest ids) id then id else largest ids

abbrev pub next_after_largest : List ℕ → ℕ
next_after_largest ids = suc (largest ids)

pub above_all : (ids : List ℕ) (id : ℕ) → largest ids < id → contains ids id ≡ false
unfolding contains any
above_all [] id h = refl
above_all (x ∷ ids) id h = ground (arith, above_all ids id)

abbrev pub demo_rowids : Rowids
demo_rowids = record {
  next = next_after_largest;
  next_fresh = λ ids. above_all ids (suc (largest ids)) (omega arith);
}
