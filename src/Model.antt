-- ===== src/Model.antt =====
-- The rows that the components share: `Issue` (crates/auwsx-core/src/db/issues.rs), `Project`
-- (db/projects.rs), `AgentRun` and `Role` (db/agent_runs.rs), `ExitKind` (agent/mod.rs). Ids,
-- counters and epoch milliseconds are native numbers; the settings that the code tests for a
-- sign are integers. A text is the list of its code points; a word of a column is a `String`.
pub mod Wire
use auwsx.Common.{Bool, List, Option, String, Text, [], false, true, ℕ, ◌∷◌}
use auwsx.Common.Int.{ℤ}
use auwsx.Common.Words.{match_word}
use auwsx.Status.{IssueStatus}

pub data MergeMode : Type 0 where
  local pr : MergeMode

pub data CompletionPolicy : Type 0 where
  manual soft auto : CompletionPolicy

pub data Role : Type 0 where
  main plan_role work review : Role

pub data ExitKind : Type 0 where
  exited timeout killed error : ExitKind

unfoldable pub exit_kind_as_str : ExitKind → String
exit_kind_as_str exited = "exited"
exit_kind_as_str timeout = "timeout"
exit_kind_as_str killed = "killed"
exit_kind_as_str error = "error"

pub record Issue : Type 0 where
  pub id : ℕ
  pub project_id : ℕ
  pub title : Text
  pub description : Option Text
  pub agent_summary : Option Text
  pub progress_report : Option Text
  pub result_report : Option Text
  pub status : IssueStatus
  pub branch : Option Text
  pub worktree_path : Option Text
  pub review_round : ℕ
  pub conflict_attempts : ℕ
  pub wait_until : Option ℕ
  pub has_pending_steering : Bool
  pub created_at : ℕ
  pub updated_at : ℕ

pub record Project : Type 0 where
  pub id : ℕ
  pub profile_id : ℕ
  pub profile_order : ℤ
  pub name : Text
  pub repo_path : Text
  pub default_branch : Text
  pub arsenal_preset_name : Option Text
  pub main_agent_cmd : Text
  pub route_agent_cmd : Text
  pub plan_agent_cmd : Text
  pub work_agent_cmd : Text
  pub review_agent_cmd : Option Text
  pub main_agent_cmd_override : Option Text
  pub route_agent_cmd_override : Option Text
  pub plan_agent_cmd_override : Option Text
  pub work_agent_cmd_override : Option Text
  pub review_agent_cmd_override : Option Text
  pub completion_policy : CompletionPolicy
  pub completion_soft_timeout_min : ℤ
  pub plan_gate_timeout_min : ℤ
  pub iteration_timeout_min : ℤ
  pub main_job_timeout_min : ℤ
  pub review_max_rounds : ℤ
  pub conflict_max_attempts : ℤ
  pub max_concurrency : ℤ
  pub schedule_cron : Option Text
  pub merge_mode : MergeMode
  pub skill_path : Option Text
  pub deepsleep_cron : Option Text
  pub last_deepsleep_at : Option ℕ
  pub created_at : ℕ

pub record AgentRun : Type 0 where
  pub id : ℕ
  pub issue_id : Option ℕ
  pub main_job_id : Option ℕ
  pub role : Role
  pub phase : String
  pub agent_cmd : Text
  pub status_before : Option String
  pub status_after : Option String
  pub pid : Option ℕ
  pub exit_code : Option ℤ
  pub exit_kind : Option ExitKind
  pub prompt_path : Option Text
  pub log_path : Option Text
  pub phase_report : Option Text
  pub spawned_at : ℕ
  pub exited_at : Option ℕ
  pub note : Option Text

unfoldable pub merge_mode_as_str : MergeMode → String
merge_mode_as_str local = "local"
merge_mode_as_str pr = "pr"

abbrev pub merge_mode_words : List (String × MergeMode)
merge_mode_words = ("local", local) ∷ ("pr", pr) ∷ []

unfoldable pub merge_mode_from_str : String → Option MergeMode
unfolding match_word
merge_mode_from_str s = match_word merge_mode_words s

unfoldable pub policy_as_str : CompletionPolicy → String
policy_as_str manual = "manual"
policy_as_str soft = "soft"
policy_as_str auto = "auto"

abbrev pub policy_words : List (String × CompletionPolicy)
policy_words = ("manual", manual) ∷ ("soft", soft) ∷ ("auto", auto) ∷ []

unfoldable pub policy_from_str : String → Option CompletionPolicy
unfolding match_word
policy_from_str s = match_word policy_words s

unfoldable pub role_as_str : Role → String
role_as_str main = "main"
role_as_str plan_role = "plan"
role_as_str work = "work"
role_as_str review = "review"

abbrev pub role_words : List (String × Role)
role_words = ("main", main) ∷ ("plan", plan_role) ∷ ("work", work) ∷ ("review", review) ∷ []

unfoldable pub role_from_str : String → Option Role
unfolding match_word
role_from_str s = match_word role_words s

-- `merge_mode == MergeMode::Local`
abbrev pub is_local : MergeMode → Bool
is_local local = true
is_local pr = false
