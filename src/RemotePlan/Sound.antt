-- ===== src/RemotePlan/Sound.antt =====
-- Everything that is planned at the remote repository has its grounds.
use auwsx.Common.{
  All, All-append, All-map, Bool-cases, Option, Text, false, inl, inr, none, refl, some, true, ℕ,
  ◌≡◌,
}
use auwsx.Status.{ready_to_merge, status_eq}
use auwsx.RemotePlan.{
  ProjectRemoteConfig, RemoteCommentTarget, RemotePlannedAction, RemotePrState, RemoteWorkflowInput,
  any_enabled, comment_linked, create_or_update_pull_request, create_remote_issue, filled,
  is_merged, on_issue, on_pull_request, plan_configured, plan_issue_remote_workflow,
  plan_progress_comment, plan_pull_request, plan_remote_issue, post_progress_comment,
  pull_request_from,
}

-- a comment goes to the pull request if there is one, and else to the remote issue
abbrev pub TargetsLink : RemoteCommentTarget → ℕ → Option ℕ → Option (ℕ × RemotePrState) → Type 0
TargetsLink on_pull_request link issue_link pr_link =
    (state : RemotePrState) × (pr_link ≡ some (link, state))
TargetsLink on_issue link issue_link pr_link = (pr_link ≡ none) × (issue_link ≡ some link)

abbrev pub GroundedBy : ProjectRemoteConfig → RemoteWorkflowInput → RemotePlannedAction → Type 0
GroundedBy config input (create_remote_issue id title body labels assignees) =
    (config.outbound_issue_create_enabled ≡ true)
    × (input.issue_link ≡ none)
    × (id ≡ input.issue.id)
GroundedBy config input (post_progress_comment id target link marker body) =
    (any_enabled input.notes config ≡ true)
    × (id ≡ input.issue.id)
    × TargetsLink target link input.issue_link input.pr_link
GroundedBy config input (create_or_update_pull_request p) =
    (status_eq input.issue.status ready_to_merge ≡ true)
    × (config.remote_pr_merge_enabled ≡ true)
    × (is_merged input.pr_link ≡ false)
    × (p.issue_id ≡ input.issue.id)
    × (filled input.issue.branch ≡ some p.head_branch)

abbrev pub Grounded : RemoteWorkflowInput → RemotePlannedAction → Type 0
Grounded input action =
    (config : ProjectRemoteConfig) × ((input.config ≡ some config) × GroundedBy config input action)

module _ (config : ProjectRemoteConfig) (input : RemoteWorkflowInput) where
  issue-GroundedBy :
      (link : Option ℕ)
      → input.issue_link ≡ link
      → All (GroundedBy config input) (plan_remote_issue config input.issue link).actions
  unfolding plan_remote_issue
  issue-GroundedBy (some link) e = tt
  issue-GroundedBy none e = elim (Bool-cases config.outbound_issue_create_enabled) [
    | inl on ↦ simp on ((refl, e, refl), tt)
    | inr off ↦ simp off tt
  ]

  linked-GroundedBy :
      (issue_link : Option ℕ) (pr_link : Option (ℕ × RemotePrState))
      → input.issue_link ≡ issue_link
      → input.pr_link ≡ pr_link
      → any_enabled input.notes config ≡ true
      → All
          (GroundedBy config input)
          (comment_linked input.issue issue_link pr_link input.notes).actions
  unfolding comment_linked
  linked-GroundedBy issue_link (some (link, state)) e e' on = ((on, refl, (state, e')), tt)
  linked-GroundedBy (some link) none e e' on = ((on, refl, (e', e)), tt)
  linked-GroundedBy none none e e' on = tt

  comment-GroundedBy :
      All
        (GroundedBy config input)
        (plan_progress_comment config input.issue input.issue_link input.pr_link
          input.notes).actions
  unfolding plan_progress_comment
  comment-GroundedBy = elim (Bool-cases (any_enabled input.notes config)) [
    | inl on ↦ simp on (linked-GroundedBy input.issue_link input.pr_link refl refl on)
    | inr off ↦ simp off tt
  ]

  branch-GroundedBy :
      (branch : Option Text)
      → filled input.issue.branch ≡ branch
      → status_eq input.issue.status ready_to_merge ≡ true
      → config.remote_pr_merge_enabled ≡ true
      → is_merged input.pr_link ≡ false
      → All (GroundedBy config input) (pull_request_from config input.issue branch).actions
  unfolding pull_request_from
  branch-GroundedBy none e ready on unmerged = tt
  branch-GroundedBy (some branch) e ready on unmerged = ((ready, on, unmerged, refl, e), tt)

  pull_request-GroundedBy :
      All (GroundedBy config input) (plan_pull_request config input.issue input.pr_link).actions
  unfolding plan_pull_request
  pull_request-GroundedBy = elim (Bool-cases (status_eq input.issue.status ready_to_merge)) [
    | inr other ↦ simp other tt
    | inl ready ↦ elim (Bool-cases config.remote_pr_merge_enabled) [
      | inr off ↦ simp (ready, off) tt
      | inl on ↦ elim (Bool-cases (is_merged input.pr_link)) [
        | inl already ↦ simp (ready, on, already) tt
        | inr unmerged ↦
            simp (ready, on, unmerged)
              (branch-GroundedBy (filled input.issue.branch) refl ready on unmerged)
      ]
    ]
  ]

configured-Grounded :
    (input : RemoteWorkflowInput) (config : Option ProjectRemoteConfig)
    → input.config ≡ config
    → All (Grounded input) (plan_configured input config).actions
unfolding plan_configured
configured-Grounded input none e = tt
configured-Grounded input (some config) e =
    All-map (GroundedBy config input) (Grounded input) _ (λ action h. (config, (e, h)))
      (All-append (GroundedBy config input) _ _
        (All-append (GroundedBy config input) _ _
          (issue-GroundedBy config input input.issue_link refl) (comment-GroundedBy config input))
        (pull_request-GroundedBy config input))

-- Whatever is planned at the remote repository is about the issue and has its grounds, under a
-- configuration of the project. A remote issue is created only if that is enabled and none is linked;
-- a comment is posted only if a kind of note that is there is enabled, at the pull request if one is
-- linked and else at the linked issue; and a pull request is made only for a READY_TO_MERGE issue,
-- if that is enabled and none was merged, and from the issue's own branch, which is not blank.
pub plan-Grounded :
    (input : RemoteWorkflowInput) → All (Grounded input) (plan_issue_remote_workflow input).actions
unfolding plan_issue_remote_workflow
plan-Grounded input = configured-Grounded input input.config refl
