-- ===== src/Reconcile/Proposals.antt =====
-- Which actions that an agent proposes are applied.
use auwsx.Common.{
  All, All-at, Bool, Bool-cases, List, Option, Result, Text, ap, arith, false, find, inl, inr,
  is_some, none, ok, or_fail, refl, some, sym, text_eq, text_eq_iff, true, ℕ, ◌==◌, ◌||◌, ◌∙◌, ◌≡◌,
  ◌⊎◌,
}
use auwsx.Common.Outcome.{Result, guard, ok, or_fail, ◌>>=◌, ◌>>◌}
use auwsx.Status.{IssueStatus, failed, is_terminal}
use auwsx.Model.{Issue}
use auwsx.LocalMerge.{Output}
use auwsx.Pipeline.{branch_for_issue}
use auwsx.Reconcile.{
  ReconcileActionKind, ReconcileDiagnosis, ReconcileError, ReconcileIssueReport, absent_from_report,
  apply_merge, cleanup_worktree, mark_done, needs_failed, needs_managed_branch, needs_represented,
  needs_safe, needs_terminal, needs_worktree, represented_in_main, retry_issue, safe_to_merge,
  stale_no_diff_branch,
}
use auwsx.Reconcile.Diagnosis.{
  check_action, diagnose_issue, is_branch, is_failed, is_represented, is_safe,
  validate_agent_action,
}
use auwsx.Store.Table.{find-Memᴰ}
use auwsx.Reconcile.Sound.{Fits, Holds, diagnose_issue-Fits}

cleaned :
    (branch path : Option Text) (over : Bool) (expected : Text)
    → (guard (is_branch branch expected) needs_managed_branch
        >> (guard (is_some path) needs_worktree >> guard over needs_terminal))
      ≡ ok tt
    → (branch ≡ some expected) × (is_some path ≡ true) × (over ≡ true)
unfolding is_branch
cleaned none path over expected e = ground arith
cleaned (some branch) none over expected e = elim (Bool-cases (text_eq branch expected)) [
  | inl same ↦ let no_path = rw same at e in ground arith
  | inr other ↦ let no_branch = rw other at e in ground arith
]
cleaned (some branch) (some path) false expected e = elim (Bool-cases (text_eq branch expected)) [
  | inl same ↦ let no_end = rw same at e in ground arith
  | inr other ↦ let no_branch = rw other at e in ground arith
]
cleaned (some branch) (some path) true expected e = elim (Bool-cases (text_eq branch expected)) [
  | inl same ↦ (ap some ((text_eq_iff branch expected).0 same), refl, refl)
  | inr other ↦ let no_branch = rw other at e in ground arith
]

module _ (git : List Text → Result ReconcileError Output) where
  abbrev pub Demands : ReconcileActionKind → Issue → Bool → Type 0
  Demands mark_done issue running =
      Holds git issue running represented_in_main ⊎ Holds git issue running stale_no_diff_branch
  Demands apply_merge issue running = Holds git issue running safe_to_merge
  Demands retry_issue issue running = is_failed issue.status ≡ true
  Demands cleanup_worktree issue running =
      (issue.branch ≡ some (branch_for_issue issue.id))
      × (is_some issue.worktree_path ≡ true)
      × ((is_terminal issue.status || is_failed issue.status) ≡ true)
  Demands _ issue running = true ≡ false

  abbrev pub Diagnosed : ReconcileIssueReport → Type 0
  Diagnosed report =
      (issue : Issue) × (running : Bool) × (diagnose_issue git issue running ≡ ok report)

  represented-Holds :
      (issue : Issue) (running : Bool) (d : ReconcileDiagnosis)
      → Holds git issue running d
      → guard (is_represented d) needs_represented ≡ ok tt
      → Demands mark_done issue running
  represented-Holds issue running represented_in_main h e = inl h
  represented-Holds issue running stale_no_diff_branch h e = inr h
  represented-Holds issue running _ h e = ground arith

  safe-Holds :
      (issue : Issue) (running : Bool) (d : ReconcileDiagnosis)
      → Holds git issue running d
      → guard (is_safe d) needs_safe ≡ ok tt
      → Demands apply_merge issue running
  safe-Holds issue running safe_to_merge h e = h
  safe-Holds issue running _ h e = ground arith

  retry-Demands : (s : IssueStatus) → guard (is_failed s) needs_failed ≡ ok tt → is_failed s ≡ true
  retry-Demands failed e = refl
  retry-Demands _ e = ground arith

  check_action-Demands :
      (issue : Issue) (running : Bool) (report : ReconcileIssueReport) (id : ℕ)
      (action : ReconcileActionKind)
      → Fits git issue running report
      → issue.id ≡ id
      → check_action report id action ≡ ok tt
      → Demands action issue running
  unfolding check_action
  check_action-Demands issue running report id mark_done fits is_id e =
      represented-Holds issue running report.diagnosis fits.4 e
  check_action-Demands issue running report id apply_merge fits is_id e =
      safe-Holds issue running report.diagnosis fits.4 e
  check_action-Demands issue running report id retry_issue fits is_id e =
      ap is_failed (sym fits.1) ∙ retry-Demands report.status e
  check_action-Demands issue running report id cleanup_worktree fits is_id e =
      let c =
        cleaned report.branch report.worktree_path
          (is_terminal report.status || is_failed report.status) (branch_for_issue id) e in
      (
        sym fits.2 ∙ c.0 ∙ ap (λ n. some (branch_for_issue n)) (sym is_id),
        ap is_some (sym fits.3) ∙ c.1,
        ap (λ s. is_terminal s || is_failed s) (sym fits.1) ∙ c.2,
      )
  check_action-Demands issue running report id _ fits is_id e = ground arith

  -- The first entry of the report with this id is a diagnosis of an issue for which the action is safe.
  abbrev pub IsGrounded : List ReconcileIssueReport → ℕ → ReconcileActionKind → Type 0
  IsGrounded issues id action =
      (report : ReconcileIssueReport) × (find (λ (r : ReconcileIssueReport). r.issue_id == id)
          issues
        ≡ some report)
      × ((issue : Issue) × (running : Bool) × (issue.id ≡ id)
          × (diagnose_issue git issue running ≡ ok report)
          × Demands action issue running)

  reported-Demands :
      (issues : List ReconcileIssueReport) (id : ℕ) (action : ReconcileActionKind)
      (found : Option ReconcileIssueReport)
      → find (λ (r : ReconcileIssueReport). r.issue_id == id) issues ≡ found
      → All Diagnosed issues
      → (or_fail found (absent_from_report id) >>= λ report. check_action report id action) ≡ ok tt
      → IsGrounded issues id action
  reported-Demands issues id action none at every e = ground arith
  reported-Demands issues id action (some report) at every e =
      let (mem, same) = find-Memᴰ (λ (r : ReconcileIssueReport). r.issue_id == id) issues at in
      let (issue, running, made) = All-at Diagnosed issues every mem in
      let fits = diagnose_issue-Fits git issue running report made in
      let is_id : issue.id ≡ id = sym fits.0 ∙ ground arith in
      let demands = check_action-Demands issue running report id action fits is_id e in
      (report, at, (issue, running, is_id, made, demands))

  -- If every entry of the report is a diagnosis by git, an action that passes the validation is safe
  -- for the issue of the first entry with the id that it names, as that issue was when it was diagnosed:
  -- marking it done or merging it rests on the diagnosis that allows this; its worktree is removed only
  -- if it was terminal or FAILED, on its managed branch and with a worktree; it is retried only if it
  -- was FAILED; and no other action passes.
  pub validate_agent_action-Demands :
      (issues : List ReconcileIssueReport) (id : ℕ) (action : ReconcileActionKind)
      → All Diagnosed issues
      → validate_agent_action issues id action ≡ ok tt
      → IsGrounded issues id action
  unfolding validate_agent_action
  validate_agent_action-Demands issues id action every e =
      reported-Demands issues id action
        (find (λ (r : ReconcileIssueReport). r.issue_id == id) issues) refl every e
