-- ===== src/Tests/RemotePlan.antt =====
-- A ready issue with a branch under a remote configuration, and a comment with a command.
use auwsx.Common.{All, List, Text, [], codes, false, none, refl, some, suc, true, ℕ, ◌∷◌, ◌≡◌}
use auwsx.Status.{ready_to_merge}
use auwsx.Model.{Issue}
use auwsx.Tests.Fixtures.{demo_issue}
use auwsx.RemotePlan.{
  ProjectRemoteConfig, RemotePlannedAction, RemoteWorkflowInput, github, no_auth, notes_from_issue,
  observe, plan_issue_remote_workflow, split_csv,
}
use auwsx.RemotePlan.Sound.{Grounded, plan-Grounded}
use auwsx.RemotePlan.Inbound.{extract_auwsx_run, plan_inbound_auwsx_run}
use auwsx.RemotePlan.Commands.{Explained, plan_inbound-Explained}

abbrev demo_config : ProjectRemoteConfig
demo_config = record {
  project_id = 1;
  provider = github;
  remote_url = [];
  owner = [];
  repo = [];
  api_base_url = [];
  auth_kind = no_auth;
  auth_ref = none;
  webhook_secret_ref = none;
  inbound_auwsx_run_enabled = true;
  outbound_issue_create_enabled = true;
  remote_pr_merge_enabled = true;
  agent_comment_sync_enabled = true;
  subtask_comment_sync_enabled = false;
  finding_comment_sync_enabled = false;
  draft_pr_enabled = true;
  required_checks_policy = observe;
  default_labels = some (codes "a, b");
  default_assignees = none;
  pr_base_branch = none;
  created_at = 1;
  updated_at = 1;
}

abbrev ready_issue : Issue
ready_issue = record (demo_issue 4 ready_to_merge) {
  branch = some (codes "auwsx/issue-4");
  agent_summary = some (codes "done");
}

abbrev demo_input : RemoteWorkflowInput
unfolding notes_from_issue
demo_input = record {
  config = some demo_config;
  issue = ready_issue;
  issue_link = some 3;
  pr_link = none;
  notes = notes_from_issue ready_issue;
}

abbrev action_count : List RemotePlannedAction → ℕ
action_count [] = 0
action_count (a ∷ rest) = suc (action_count rest)

-- a comment at the linked issue and a pull request
two_actions : action_count (plan_issue_remote_workflow demo_input).actions ≡ 2
unfolding plan_issue_remote_workflow notes_from_issue
two_actions = refl

split_labels : split_csv demo_config.default_labels ≡ codes "a" ∷ codes "b" ∷ []
unfolding split_csv
split_labels = refl

plan-Grounded_example : All (Grounded demo_input) (plan_issue_remote_workflow demo_input).actions
plan-Grounded_example = plan-Grounded demo_input

abbrev demo_comment : Text
demo_comment = codes "please\n  /auwsx-run fix it \n/auwsx-run"

first_command : extract_auwsx_run demo_comment ≡ some (codes "fix it")
unfolding extract_auwsx_run
first_command = refl

plan_inbound-Explained_example :
    Explained
      (some demo_config)
      demo_comment
      (plan_inbound_auwsx_run (some demo_config) (codes "T") (codes "u") demo_comment)
plan_inbound-Explained_example =
    plan_inbound-Explained (some demo_config) (codes "T") (codes "u") demo_comment
