-- ===== src/Reconcile.antt =====
-- crates/auwsx-core/src/reconcile.rs: what is found of an issue's branch, and which actions of an agent
-- may be applied. A diagnosis only reads the repository, so `git` is here a function of the arguments.
-- The `HashSet`s of paths are lists in the order of git's lines.
pub mod Diagnosis
pub mod Proposals
pub mod Sound
use auwsx.Common.{
  Bool, List, Option, Result, Text, [], any, codes, false, filter, if◌then◌else◌, is_empty, is_some,
  lines, map, none, not, ok, or_else, some, text_eq, trim, true, unwrap_or, ℕ, ◌++◌, ◌||◌, ◌∷◌,
}
use auwsx.Common.Outcome.{Result, guard, ok, ◌>>=◌, ◌>>◌}
use auwsx.Common.Decimal.{strip_prefix}
use auwsx.Status.{IssueStatus}
use auwsx.LocalMerge.{Output, first_of, join}

pub data ReconcileDiagnosis : Type 0 where
  safe_to_merge represented_in_main stale_no_diff_branch merge_conflict : ReconcileDiagnosis
  dirty_main_blocked restore_dirty_blocked missing_branch missing_worktree : ReconcileDiagnosis
  orphan_worktree failed_with_worktree now_running unknown : ReconcileDiagnosis

pub data ReconcileActionKind : Type 0 where
  nothing_to_do mark_done cleanup_worktree apply_merge prune_orphan_worktree : ReconcileActionKind
  retry_issue manual_required queue_agentic_reconcile : ReconcileActionKind

pub record ReconcileIssueReport : Type 0 where
  pub issue_id : ℕ
  pub status : IssueStatus
  pub branch : Option Text
  pub worktree_path : Option Text
  pub diagnosis : ReconcileDiagnosis
  pub confidence : ℕ
  pub proposed_action : ReconcileActionKind
  pub blocking_reason : Option Text
  pub manual_command : Option Text

pub data ReconcileError : Type 0 where
  -- git could not be started
  spawning_git : ReconcileError
  git_status_failed git_diff_failed : ReconcileError
  absent_from_report : ℕ → ReconcileError
  needs_represented needs_managed_branch needs_worktree needs_terminal : ReconcileError
  needs_failed needs_safe not_applyable : ReconcileError

unfoldable pub command_text : Output → Text
command_text output = output.stdout ++ codes "\n" ++ output.stderr

-- `Vec::is_empty`
abbrev pub is_none_left : List Text → Bool
is_none_left [] = true
is_none_left (row ∷ rows) = false

unfoldable pub summarize : Text → Text → Text
unfolding join filter lines trim
summarize text fallback =
    let rows = first_of 8 (filter (λ line. not (is_empty line)) (map trim (lines text))) in
    if is_none_left rows then fallback else join (codes "; ") rows

-- `str::contains`
unfoldable pub contains_text : Text → Text → Bool
unfolding strip_prefix
contains_text part [] = is_empty part
contains_text part (c ∷ s) =
    let rest = contains_text part s in is_some (strip_prefix part (c ∷ s)) || rest

-- `rsplit_once`, of which the caller keeps what follows
unfoldable pub after_last : Text → Text → Option Text
unfolding strip_prefix
after_last part [] = none
after_last part (c ∷ s) = or_else (after_last part s) (strip_prefix part (c ∷ s))

-- the first three characters of a line are ASCII, so that bytes and characters agree there
unfoldable pub parse_status_path : Text → Option Text
unfolding trim after_last
parse_status_path (x ∷ y ∷ space ∷ c ∷ rest) =
    let path = trim (c ∷ rest) in
    if is_empty path then none else some (unwrap_or (after_last (codes " -> ") path) path)
parse_status_path _ = none

unfoldable pub status_paths : List Text → List Text
unfolding parse_status_path
status_paths [] = []
status_paths (line ∷ rows) = elim (parse_status_path line) [
  | none ↦ status_paths rows
  | some path ↦ path ∷ status_paths rows
]

pub record MergePreflight : Type 0 where
  pub conflicts : Bool
  pub summary : Text

module _ (git : List Text → Result ReconcileError Output) where
  unfoldable pub merge_preflight : Text → Result ReconcileError MergePreflight
  unfolding command_text contains_text summarize
  merge_preflight branch = do
    output ← git (codes "merge-tree" ∷ codes "HEAD" ∷ branch ∷ [])
    let text = command_text output
    let conflicts =
        not output.success
        || contains_text (codes "CONFLICT") text
        || contains_text (codes "<<<<<<<") text
        || contains_text (codes "changed in both") text
    ok (record {
      conflicts = conflicts;
      summary =
          summarize text
            (if conflicts then codes "merge preflight conflict" else codes "merge preflight clean");
    })

  unfoldable pub branch_exists : Text → Result ReconcileError Bool
  branch_exists branch = do
    output ← git (
        codes "show-ref"
        ∷ codes "--verify"
        ∷ codes "--quiet"
        ∷ (codes "refs/heads/" ++ branch)
        ∷ [])
    ok output.success

  unfoldable pub branch_is_ancestor_of_head : Text → Result ReconcileError Bool
  branch_is_ancestor_of_head branch = do
    output ← git (codes "merge-base" ∷ codes "--is-ancestor" ∷ branch ∷ codes "HEAD" ∷ [])
    ok output.success

  unfoldable pub trees_equal : Text → Text → Result ReconcileError Bool
  trees_equal left right = do
    output ← git (codes "diff" ∷ codes "--quiet" ∷ left ∷ right ∷ [])
    ok output.success

  unfoldable pub dirty_paths : Result ReconcileError (List Text)
  unfolding status_paths lines
  dirty_paths = do
    output ← git (codes "status" ∷ codes "--porcelain=v1" ∷ codes "--untracked-files=all" ∷ [])
    guard output.success git_status_failed
    ok (status_paths (lines output.stdout))

  unfoldable pub branch_changed_paths : Text → Result ReconcileError (List Text)
  unfolding filter trim lines
  branch_changed_paths branch = do
    output ← git (codes "diff" ∷ codes "--name-only" ∷ codes "HEAD" ∷ branch ∷ [])
    guard output.success git_diff_failed
    ok (filter (λ line. not (is_empty line)) (map trim (lines output.stdout)))

  unfoldable pub overlap_with : Text → List Text → Result ReconcileError (List Text)
  unfolding branch_changed_paths filter any text_eq
  overlap_with branch [] = ok []
  overlap_with branch (path ∷ rest) = do
    changed ← branch_changed_paths branch
    ok (filter (λ p. any (λ other. text_eq other p) changed) (path ∷ rest))

  unfoldable pub dirty_branch_overlap : Text → Result ReconcileError (List Text)
  unfolding dirty_paths overlap_with
  dirty_branch_overlap branch = dirty_paths >>= overlap_with branch
