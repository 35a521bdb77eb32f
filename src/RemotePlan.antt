-- ===== src/RemotePlan.antt =====
-- crates/auwsx-core/src/remote_plan.rs: what to do at the remote repository for an issue, and which
-- remote comments start work here. The rows are those of db/remote.rs.
pub mod Commands
pub mod Inbound
pub mod Sound
use auwsx.Common.{
  Bool, List, Option, Text, [], codes, false, filter, if◌then◌else◌, is_empty, is_some, map, none,
  not, or_else, some, trim, true, unwrap_or, ℕ, ◌&&◌, ◌++◌, ◌==◌, ◌||◌, ◌∷◌,
}
use auwsx.Common.Decimal.{print_decimal, split_on}
use auwsx.Status.{as_str, ready_to_merge, status_eq}
use auwsx.Model.{Issue}
use auwsx.LocalMerge.{join}

pub data RemoteProvider : Type 0 where
  github : RemoteProvider

pub data RemoteAuthKind : Type 0 where
  no_auth token_env github_app : RemoteAuthKind

pub data RequiredChecksPolicy : Type 0 where
  observe require_green : RequiredChecksPolicy

pub data RemotePrState : Type 0 where
  pr_open pr_closed pr_merged : RemotePrState

pub record ProjectRemoteConfig : Type 0 where
  pub project_id : ℕ
  pub provider : RemoteProvider
  pub remote_url : Text
  pub owner : Text
  pub repo : Text
  pub api_base_url : Text
  pub auth_kind : RemoteAuthKind
  pub auth_ref : Option Text
  pub webhook_secret_ref : Option Text
  pub inbound_auwsx_run_enabled : Bool
  pub outbound_issue_create_enabled : Bool
  pub remote_pr_merge_enabled : Bool
  pub agent_comment_sync_enabled : Bool
  pub subtask_comment_sync_enabled : Bool
  pub finding_comment_sync_enabled : Bool
  pub draft_pr_enabled : Bool
  pub required_checks_policy : RequiredChecksPolicy
  pub default_labels : Option Text
  pub default_assignees : Option Text
  pub pr_base_branch : Option Text
  pub created_at : ℕ
  pub updated_at : ℕ

pub data RemotePlanBlocker : Type 0 where
  missing_config : RemotePlanBlocker
  outbound_issue_create_disabled : RemotePlanBlocker
  remote_pr_merge_disabled : RemotePlanBlocker
  missing_branch : RemotePlanBlocker
  missing_remote_issue_link : RemotePlanBlocker
  missing_remote_pr_link : RemotePlanBlocker
  pull_request_already_merged : RemotePlanBlocker

pub data RemoteCommentTarget : Type 0 where
  on_issue on_pull_request : RemoteCommentTarget

pub record PullRequestPlan : Type 0 where
  pub issue_id : ℕ
  pub title : Text
  pub body : Text
  pub head_branch : Text
  pub base_branch : Text
  pub draft : Bool
  pub require_green_checks : Bool

pub data RemotePlannedAction : Type 0 where
  -- the issue, the title, the body, the labels, the assignees
  create_remote_issue : ℕ → Text → Text → List Text → List Text → RemotePlannedAction
  create_or_update_pull_request : PullRequestPlan → RemotePlannedAction
  -- the issue, the target, the id of the link, the marker, the body
  post_progress_comment : ℕ → RemoteCommentTarget → ℕ → Text → Text → RemotePlannedAction

pub record RemoteWorkflowPlan : Type 0 where
  pub actions : List RemotePlannedAction
  pub blockers : List RemotePlanBlocker

pub record RemoteNotesPresence : Type 0 where
  pub agent_summary : Bool
  pub subtasks : Bool
  pub findings : Bool
  pub subtask_lines : List Text
  pub finding_lines : List Text

-- of a link to a remote issue the plan uses the id, of one to a pull request the id and the state
pub record RemoteWorkflowInput : Type 0 where
  pub config : Option ProjectRemoteConfig
  pub issue : Issue
  pub issue_link : Option ℕ
  pub pr_link : Option (ℕ × RemotePrState)
  pub notes : RemoteNotesPresence

unfoldable pub non_blank : Text → Bool
unfolding trim
non_blank value = not (is_empty (trim value))

-- `as_deref().filter(|s| non_blank(s))`
unfoldable pub filled : Option Text → Option Text
unfolding non_blank
filled none = none
filled (some s) = if non_blank s then some s else none

unfoldable pub notes_from_issue : Issue → RemoteNotesPresence
unfolding filled
notes_from_issue issue = record {
  agent_summary = is_some (filled issue.agent_summary);
  subtasks = false;
  findings = false;
  subtask_lines = [];
  finding_lines = [];
}

unfoldable pub any_enabled : RemoteNotesPresence → ProjectRemoteConfig → Bool
any_enabled notes config =
    (notes.agent_summary && config.agent_comment_sync_enabled)
    || (notes.subtasks && config.subtask_comment_sync_enabled)
    || (notes.findings && config.finding_comment_sync_enabled)

unfoldable pub split_csv : Option Text → List Text
unfolding split_on filter trim
split_csv value =
    filter (λ s. not (is_empty s)) (map trim (split_on (λ c. c == 44) (unwrap_or value [])))

abbrev section_of : Text → Option Text → Text
unfolding trim
section_of heading none = []
section_of heading (some s) = heading ++ trim s

unfoldable pub issue_body : Issue → Text
unfolding print_decimal as_str filled section_of
issue_body issue =
    codes "Local auwsx issue #"
    ++ print_decimal issue.id
    ++ codes "\n\nStatus: "
    ++ codes (as_str issue.status)
    ++ section_of (codes "\n\n") (filled issue.description)

unfoldable pub pull_request_body : Issue → Text
unfolding as_str filled section_of
pull_request_body issue =
    codes "## Summary\n"
    ++ unwrap_or (or_else issue.result_report issue.agent_summary) (codes "Ready for remote merge.")
    ++ codes "\n\n## Safety\n- auwsx status: "
    ++ codes (as_str issue.status)
    ++ codes "\n- branch: "
    ++ unwrap_or issue.branch (codes "(missing)")
    ++ section_of (codes "\n\n## Progress\n") (filled issue.progress_report)

abbrev bullet : Text → Text
bullet line = codes "- " ++ line

abbrev bullets : List Text → List Text
bullets [] = codes "- changed" ∷ []
bullets (line ∷ rest) = map bullet (line ∷ rest)

abbrev summary_line : Option Text → List Text
unfolding trim
summary_line none = []
summary_line (some summary) = (codes "summary: " ++ trim summary) ∷ []

unfoldable pub progress_comment_body : Issue → RemoteNotesPresence → Text
unfolding print_decimal as_str filled summary_line join
progress_comment_body issue notes = join (codes "\n") (
    (codes "auwsx issue #" ++ print_decimal issue.id)
      ∷ (codes "status: " ++ codes (as_str issue.status))
      ∷ (if notes.agent_summary then summary_line (filled issue.agent_summary) else [])
    ++ (if notes.subtasks then codes "subtasks:" ∷ bullets notes.subtask_lines else [])
    ++ (if notes.findings then codes "findings:" ∷ bullets notes.finding_lines else []))

unfoldable pub progress_marker : ℕ → Text
unfolding print_decimal
progress_marker issue_id =
    codes "<!-- auwsx:issue-progress:" ++ print_decimal issue_id ++ codes " -->"

-- what one of the three parts adds to the plan
abbrev pub act : RemotePlannedAction → RemoteWorkflowPlan
act action = record { actions = action ∷ []; blockers = [] }

abbrev pub block_by : RemotePlanBlocker → RemoteWorkflowPlan
block_by blocker = record { actions = []; blockers = blocker ∷ [] }

abbrev pub no_step : RemoteWorkflowPlan
no_step = record { actions = []; blockers = [] }

abbrev pub join_plans : RemoteWorkflowPlan → RemoteWorkflowPlan → RemoteWorkflowPlan
join_plans a b = record { actions = a.actions ++ b.actions; blockers = a.blockers ++ b.blockers }

unfoldable pub plan_remote_issue : ProjectRemoteConfig → Issue → Option ℕ → RemoteWorkflowPlan
unfolding issue_body split_csv
plan_remote_issue config issue (some link) = no_step
plan_remote_issue config issue none =
    if not config.outbound_issue_create_enabled
    then block_by outbound_issue_create_disabled
    else act (
        create_remote_issue issue.id issue.title (issue_body issue)
          (split_csv config.default_labels) (split_csv config.default_assignees))

abbrev comment_at : Issue → RemoteNotesPresence → RemoteCommentTarget → ℕ → RemoteWorkflowPlan
unfolding progress_comment_body progress_marker
comment_at issue notes target link = act (
    post_progress_comment issue.id target link (progress_marker issue.id)
      (progress_comment_body issue notes))

unfoldable pub comment_linked :
    Issue → Option ℕ → Option (ℕ × RemotePrState) → RemoteNotesPresence → RemoteWorkflowPlan
unfolding comment_at
comment_linked issue issue_link (some (link, state)) notes =
    comment_at issue notes on_pull_request link
comment_linked issue (some link) none notes = comment_at issue notes on_issue link
comment_linked issue none none notes = block_by missing_remote_issue_link

unfoldable pub plan_progress_comment :
    ProjectRemoteConfig
    → Issue
    → Option ℕ
    → Option (ℕ × RemotePrState)
    → RemoteNotesPresence
    → RemoteWorkflowPlan
unfolding any_enabled comment_linked
plan_progress_comment config issue issue_link pr_link notes =
    if not (any_enabled notes config)
    then no_step
    else comment_linked issue issue_link pr_link notes

abbrev pub is_merged : Option (ℕ × RemotePrState) → Bool
is_merged (some (link, pr_merged)) = true
is_merged _ = false

abbrev is_require_green : RequiredChecksPolicy → Bool
is_require_green require_green = true
is_require_green observe = false

unfoldable pub pull_request_from : ProjectRemoteConfig → Issue → Option Text → RemoteWorkflowPlan
unfolding pull_request_body print_decimal filled
pull_request_from config issue none = block_by missing_branch
pull_request_from config issue (some head_branch) = act (
    create_or_update_pull_request (record {
      issue_id = issue.id;
      title = codes "Issue " ++ print_decimal issue.id ++ codes ": " ++ issue.title;
      body = pull_request_body issue;
      head_branch = head_branch;
      base_branch = unwrap_or (filled config.pr_base_branch) (codes "main");
      draft = config.draft_pr_enabled;
      require_green_checks = is_require_green config.required_checks_policy;
    }))

unfoldable pub plan_pull_request :
    ProjectRemoteConfig → Issue → Option (ℕ × RemotePrState) → RemoteWorkflowPlan
unfolding status_eq filled pull_request_from
plan_pull_request config issue pr_link =
    if not (status_eq issue.status ready_to_merge)
    then no_step
    else (if not config.remote_pr_merge_enabled
        then block_by remote_pr_merge_disabled
        else (if is_merged pr_link
            then block_by pull_request_already_merged
            else pull_request_from config issue (filled issue.branch)))

abbrev pub plan_configured : RemoteWorkflowInput → Option ProjectRemoteConfig → RemoteWorkflowPlan
unfolding plan_remote_issue plan_progress_comment plan_pull_request
plan_configured input none = block_by missing_config
plan_configured input (some config) =
    join_plans
      (join_plans (plan_remote_issue config input.issue input.issue_link)
        (plan_progress_comment config input.issue input.issue_link input.pr_link input.notes))
      (plan_pull_request config input.issue input.pr_link)

unfoldable pub plan_issue_remote_workflow : RemoteWorkflowInput → RemoteWorkflowPlan
unfolding plan_configured
plan_issue_remote_workflow input = plan_configured input input.config
