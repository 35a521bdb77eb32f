-- ===== src/Reconcile/Sound.antt =====
-- What git must have answered for a diagnosis that proposes to change something.
use auwsx.Common.{
  Bool, Bool-cases, List, Option, Result, Text, [], arith, codes, err, false, if◌then◌else◌, inl,
  inr, is_some, none, not, ok, refl, some, subst, text_eq, text_eq_iff, true, ◌&&◌, ◌||◌, ◌∷◌, ◌≡◌,
}
use auwsx.Common.Outcome.{Result, err, ok, ◌>>=◌}
use auwsx.Status.{IssueStatus, merging, ready_to_merge}
use auwsx.Model.{Issue}
use auwsx.LocalMerge.{Output}
use auwsx.Pipeline.{branch_for_issue}
use auwsx.Reconcile.{
  MergePreflight, ReconcileDiagnosis, ReconcileError, ReconcileIssueReport, apply_merge,
  branch_exists, branch_is_ancestor_of_head, dirty_branch_overlap, merge_conflict, merge_preflight,
  queue_agentic_reconcile, represented_in_main, safe_to_merge, stale_no_diff_branch, trees_equal,
}
use auwsx.Reconcile.Diagnosis.{
  after_ancestor, after_exists, after_overlap, after_trees, and_asks, awaits_merge, base_report,
  diagnose_branch, diagnose_issue, diagnose_rest, diagnose_unmerged, is_failed,
  is_merge_recovery_status, issue_command, without_branch,
}

abbrev Goes : (ReconcileIssueReport → Type 0) → Result ReconcileError ReconcileIssueReport → Type 0
Goes P (ok report) = P report
Goes P (err e) = Unit

bind-Goes :
    {A : Type 0} (P : ReconcileIssueReport → Type 0) (m : Result ReconcileError A)
    (f : A → Result ReconcileError ReconcileIssueReport)
    → ((a : A) → m ≡ ok a → Goes P (f a))
    → Goes P (m >>= f)
bind-Goes P (ok a) f h = h a refl
bind-Goes P (err e) f h = tt

recovery_of : (s : IssueStatus) → awaits_merge s ≡ true → is_merge_recovery_status s ≡ true
recovery_of ready_to_merge h = refl
recovery_of merging h = refl
recovery_of _ h = ground arith

module _ (git : List Text → Result ReconcileError Output) where
  -- the branch of the issue is the one that is managed here, and git knows it
  abbrev pub OwnBranch : Issue → Text → Type 0
  OwnBranch issue branch =
      (issue.branch ≡ some branch)
      × (branch ≡ branch_for_issue issue.id)
      × (branch_exists git branch ≡ ok true)

  abbrev pub Holds : Issue → Bool → ReconcileDiagnosis → Type 0
  Holds issue running safe_to_merge =
      (running ≡ false)
      × (awaits_merge issue.status ≡ true)
      × ((branch : Text) × OwnBranch issue branch
          × (dirty_branch_overlap git branch ≡ ok [])
          × ((trial : MergePreflight) × (merge_preflight git branch ≡ ok trial)
              × (trial.conflicts ≡ false)))
  Holds issue running represented_in_main =
      (running ≡ false)
      × (is_merge_recovery_status issue.status ≡ true)
      × ((branch : Text) × OwnBranch issue branch
          × (branch_is_ancestor_of_head git branch ≡ ok true))
  Holds issue running stale_no_diff_branch =
      (running ≡ false)
      × (is_merge_recovery_status issue.status ≡ true)
      × ((branch : Text) × OwnBranch issue branch
          × (trees_equal git (codes "HEAD") branch ≡ ok true))
  Holds issue running _ = Unit

  -- the report is about the issue, and its diagnosis has the grounds that it needs
  abbrev pub Fits : Issue → Bool → ReconcileIssueReport → Type 0
  Fits issue running report =
      (report.issue_id ≡ issue.id)
      × (report.status ≡ issue.status)
      × (report.branch ≡ issue.branch)
      × (report.worktree_path ≡ issue.worktree_path)
      × Holds issue running report.diagnosis

  asked :
      (b : Bool) (answer : Result ReconcileError Bool)
      → and_asks git b answer ≡ ok true
      → (b ≡ true) × (answer ≡ ok true)
  asked true answer e = (refl, e)
  asked false answer e = ground arith

  module _ (issue : Issue) (branch : Text) (own : issue.branch ≡ some branch)
      (known : branch_exists git branch ≡ ok true)
      (managed : is_merge_recovery_status issue.status ≡ true
        → branch ≡ branch_for_issue issue.id) where
    preflight-Fits :
        (trial : MergePreflight)
        → awaits_merge issue.status ≡ true
        → dirty_branch_overlap git branch ≡ ok []
        → merge_preflight git branch ≡ ok trial
        → (conflicts : Bool) → trial.conflicts ≡ conflicts
        → Fits issue false (
            if conflicts
            then base_report issue merge_conflict 95 queue_agentic_reconcile
                (some trial.summary)
                (issue_command (codes "apply-merge") issue [])
            else base_report issue safe_to_merge 90 apply_merge
                (some trial.summary)
                (issue_command (codes "merge") issue []))
    unfolding base_report
    preflight-Fits trial awaits clean e true c = (refl, refl, refl, refl, tt)
    preflight-Fits trial awaits clean e false c = (
      refl,
      refl,
      refl,
      refl,
      (
        refl,
        awaits,
        (branch, (own, managed (recovery_of issue.status awaits), known), clean, (trial, e, c)),
      ),
    )

    overlap-Fits :
        (paths : List Text)
        → awaits_merge issue.status ≡ true
        → dirty_branch_overlap git branch ≡ ok paths
        → Goes (Fits issue false) (after_overlap git issue branch paths)
    unfolding after_overlap base_report
    overlap-Fits (path ∷ paths) awaits e = (refl, refl, refl, refl, tt)
    overlap-Fits [] awaits e =
        bind-Goes (Fits issue false) (merge_preflight git branch) _
          (λ trial found. preflight-Fits trial awaits e found trial.conflicts refl)

    rest-Fits : Fits issue false (diagnose_rest git issue)
    unfolding diagnose_rest base_report
    rest-Fits = elim (Bool-cases (is_failed issue.status && is_some issue.worktree_path)) [
      | inl yes_failed ↦ simp yes_failed (refl, refl, refl, refl, tt)
      | inr not_failed ↦ simp not_failed (refl, refl, refl, refl, tt)
    ]

    unmerged-Fits : Goes (Fits issue false) (diagnose_unmerged git issue branch)
    unfolding diagnose_unmerged
    unmerged-Fits = elim (Bool-cases (awaits_merge issue.status)) [
      | inr off ↦ simp off rest-Fits
      | inl on ↦ simp on (
          bind-Goes (Fits issue false) (dirty_branch_overlap git branch) _
            (λ paths e. overlap-Fits paths on e))
    ]

    trees-Fits :
        (same : Bool)
        → and_asks git
            (is_merge_recovery_status issue.status)
            (trees_equal git (codes "HEAD") branch)
          ≡ ok same
        → Goes (Fits issue false) (after_trees git issue branch same)
    unfolding after_trees base_report
    trees-Fits false e = unmerged-Fits
    trees-Fits true e =
        let both =
          asked (is_merge_recovery_status issue.status) (trees_equal git (codes "HEAD") branch) e in
        (refl, refl, refl, refl, (refl, both.0, (branch, (own, managed both.0, known), both.1)))

    ancestor-Fits :
        (inside : Bool)
        → and_asks git
            (is_merge_recovery_status issue.status)
            (branch_is_ancestor_of_head git branch)
          ≡ ok inside
        → Goes (Fits issue false) (after_ancestor git issue branch inside)
    unfolding after_ancestor base_report
    ancestor-Fits false e = bind-Goes (Fits issue false) _ _ (λ same found. trees-Fits same found)
    ancestor-Fits true e =
        let both =
          asked (is_merge_recovery_status issue.status) (branch_is_ancestor_of_head git branch) e in
        (refl, refl, refl, refl, (refl, both.0, (branch, (own, managed both.0, known), both.1)))

  guarded :
      (same recovery failed_too : Bool) {A : Type 0}
      → (not same && (recovery || failed_too)) ≡ false
      → (same ≡ true → A)
      → recovery ≡ true
      → A
  guarded true recovery failed_too e f h = f refl
  guarded false true failed_too e f h = ground arith
  guarded false false failed_too e f h = ground arith

  exists-Fits :
      (issue : Issue) (branch : Text)
      → issue.branch ≡ some branch
      → (exists : Bool) → branch_exists git branch ≡ ok exists
      → (is_merge_recovery_status issue.status ≡ true → branch ≡ branch_for_issue issue.id)
      → Goes (Fits issue false) (after_exists git issue branch exists)
  unfolding after_exists base_report
  exists-Fits issue branch own false e managed = (refl, refl, refl, refl, tt)
  exists-Fits issue branch own true e managed =
      bind-Goes (Fits issue false) _ _
        (λ inside found. ancestor-Fits issue branch own e managed inside found)

  branch-Fits :
      (issue : Issue) (branch : Option Text)
      → issue.branch ≡ branch
      → Goes (Fits issue false) (diagnose_branch git issue branch)
  unfolding diagnose_branch without_branch base_report
  branch-Fits issue none e = elim (Bool-cases (is_merge_recovery_status issue.status)) [
    | inl on ↦ simp on (refl, refl, refl, refl, tt)
    | inr off ↦ elim (Bool-cases (is_failed issue.status && not (is_some issue.worktree_path))) [
      | inl bare ↦ simp (off, bare) (refl, refl, refl, refl, tt)
      | inr other ↦ simp (off, other) (refl, refl, refl, refl, tt)
    ]
  ]
  branch-Fits issue (some branch) e =
      elim (Bool-cases (
        not (text_eq branch (branch_for_issue issue.id))
        && (is_merge_recovery_status issue.status || is_failed issue.status))) [
          | inl foreign ↦ simp foreign (refl, refl, refl, refl, tt)
          | inr native ↦ simp native (
              bind-Goes (Fits issue false) (branch_exists git branch) _ (λ exists found.
                exists-Fits issue branch e exists found (
                  guarded (text_eq branch (branch_for_issue issue.id))
                    (is_merge_recovery_status issue.status) (is_failed issue.status) native
                    (text_eq_iff branch (branch_for_issue issue.id)).0)))
        ]

  issue-Fits :
      (issue : Issue) (running : Bool)
      → Goes (Fits issue running) (diagnose_issue git issue running)
  unfolding diagnose_issue base_report
  issue-Fits issue true = (refl, refl, refl, refl, tt)
  issue-Fits issue false = branch-Fits issue issue.branch refl

  -- A diagnosis without an error is about the issue. A merge is called safe only for an issue that no
  -- agent runs, that waits to be merged and whose branch is the managed one and known to git, where no
  -- dirty file is changed by the branch and the trial merge has no conflict. An issue is called
  -- represented or without a difference only if no agent runs it, it is in merge recovery, the branch is
  -- the managed one and known to git, and git says that HEAD has the branch, or the same tree.
  pub diagnose_issue-Fits :
      (issue : Issue) (running : Bool) (report : ReconcileIssueReport)
      → diagnose_issue git issue running ≡ ok report
      → Fits issue running report
  diagnose_issue-Fits issue running report e =
      subst (Goes (Fits issue running)) e (issue-Fits issue running)
