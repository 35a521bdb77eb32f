-- ===== src/LocalMerge.antt =====
-- crates/auwsx-core/src/local_merge.rs: merging the branch of an issue into the primary worktree, whose
-- uncommitted changes are stashed before and restored after. Git is a parameter: what a command with
-- these arguments gives and leaves, where the repository is the state.
pub mod Stash
use auwsx.Common.{
  Bool, List, Option, Result, Text, [], codes, err, filter, if◌then◌else◌, is_empty, lines, map,
  none, not, ok, some, suc, trim, zero, ℕ, ◌++◌, ◌==◌, ◌∷◌,
}
use auwsx.Common.Decimal.{print_decimal}
use auwsx.Store.Exec.{Exec, ensure, pure, ◌>>=◌, ◌>>◌}

pub data LocalMergeStage : Type 0 where
  preflight snapshot merge restore_dirty_state : LocalMergeStage

pub record LocalMergeResult : Type 0 where
  pub issue_id : ℕ
  pub branch : Text
  pub dirty_snapshot : Option Text
  pub merge_commit : Option Text

pub record LocalMergeBlocked : Type 0 where
  pub stage : LocalMergeStage
  pub message : Text
  pub dirty_snapshot : Option Text

pub data LocalMergeOutcome : Type 0 where
  merged : LocalMergeResult → LocalMergeOutcome
  blocked : LocalMergeBlocked → LocalMergeOutcome

pub data MergeError : Type 0 where
  bad_issue_id : MergeError
  branch_required : MergeError
  -- git could not be started
  spawn_failed : MergeError
  command_failed : Text → MergeError

-- `std::process::Output`, with the exit status as it prints
pub record Output : Type 0 where
  pub success : Bool
  pub stdout : Text
  pub stderr : Text
  pub status : Text

unfoldable pub stage_name : LocalMergeStage → Text
stage_name preflight = codes "Preflight"
stage_name snapshot = codes "Snapshot"
stage_name merge = codes "Merge"
stage_name restore_dirty_state = codes "RestoreDirtyState"

-- `join`
unfoldable pub join : Text → List Text → Text
join separator [] = []
join separator (piece ∷ []) = piece
join separator (piece ∷ next ∷ rest) = piece ++ separator ++ join separator (next ∷ rest)

abbrev pub first_of : ℕ → List Text → List Text
first_of zero pieces = []
first_of (suc n) [] = []
first_of (suc n) (piece ∷ pieces) = piece ∷ first_of n pieces

abbrev summary_or : LocalMergeStage → Output → Text → Text
unfolding stage_name
summary_or stage output [] = stage_name stage ++ codes " exited with " ++ output.status
summary_or stage output (c ∷ cleaned) = c ∷ cleaned

unfoldable pub command_summary : LocalMergeStage → Output → Text
unfolding summary_or join filter lines trim
command_summary stage output = summary_or stage output (
    join (codes "; ") (
      first_of 12 (
        filter (λ line. not (is_empty line))
          (map trim (lines (output.stdout ++ codes "\n" ++ output.stderr))))))

unfoldable pub stash_name : ℕ → ℕ → Text
unfolding print_decimal
stash_name issue_id millis =
    codes "auwsx-pre-merge-" ++ print_decimal issue_id ++ codes "-" ++ print_decimal millis

abbrev pub status_args : List Text
status_args = codes "status" ∷ codes "--porcelain=v1" ∷ codes "--untracked-files=all" ∷ []

abbrev pub push_args : Text → List Text
push_args name = codes "stash" ∷ codes "push" ∷ codes "--include-untracked" ∷ codes "-m" ∷ name ∷ []

abbrev pub pop_args : List Text
pop_args = codes "stash" ∷ codes "pop" ∷ codes "stash@{0}" ∷ []

abbrev pub head_args : List Text
head_args = codes "rev-parse" ∷ codes "HEAD" ∷ []

abbrev pub merge_args : Text → ℕ → List Text
merge_args branch issue_id =
    codes "merge"
    ∷ codes "--no-ff"
    ∷ branch
    ∷ codes "-m"
    ∷ (codes "merge issue " ++ print_decimal issue_id)
    ∷ []

-- `GitRun::summary`
unfoldable pub run_summary : LocalMergeStage → List Text → Output → Text
unfolding command_summary join
run_summary stage args output =
    codes "git " ++ join (codes " ") args ++ codes " failed: " ++ command_summary stage output

pub data SnapshotOutcome : Type 0 where
  clean_after_snapshot : SnapshotOutcome
  snapshot_blocked : Text → SnapshotOutcome

module _ {Repo : Type 0} (git : List Text → Exec Repo MergeError Output) where
  unfoldable pub is_worktree_clean : Exec Repo MergeError Bool
  unfolding command_summary trim
  is_worktree_clean = do
    output ← git status_args
    ensure output.success (command_failed (command_summary preflight output))
    pure (is_empty (trim output.stdout))

  unfoldable pub current_head : Exec Repo MergeError Text
  unfolding command_summary trim
  current_head = do
    output ← git head_args
    ensure output.success (command_failed (command_summary preflight output))
    pure (trim output.stdout)

  -- `current_head(repo_path).ok()`
  abbrev pub ok_of : Result MergeError Text → Option Text
  ok_of (ok head) = some head
  ok_of (err e) = none

  abbrev pub head_or_none : Exec Repo MergeError (Option Text)
  unfolding current_head
  head_or_none repo = let (r, repo') = current_head repo in (ok (ok_of r), repo')

  abbrev pub after_push : Text → Output → Exec Repo MergeError SnapshotOutcome
  unfolding is_worktree_clean run_summary
  after_push name output =
      if not output.success
      then pure (snapshot_blocked (run_summary snapshot (push_args name) output))
      else (is_worktree_clean >>= λ clean. pure (
          if clean
          then clean_after_snapshot
          else snapshot_blocked (codes "primary worktree remained dirty after safety stash")))

  unfoldable pub snapshot_dirty_state : Text → Exec Repo MergeError SnapshotOutcome
  unfolding after_push
  snapshot_dirty_state name = git (push_args name) >>= after_push name

  unfoldable pub finish_merge : ℕ → Text → Option Text → Exec Repo MergeError LocalMergeOutcome
  unfolding head_or_none
  finish_merge issue_id branch name = do
    head ← head_or_none
    pure (
        merged (record {
          issue_id = issue_id;
          branch = branch;
          dirty_snapshot = name;
          merge_commit = head;
        }))

  abbrev pub block :
      LocalMergeStage → List Text → Output → Option Text → Exec Repo MergeError LocalMergeOutcome
  unfolding run_summary
  block stage args output name = pure (
      blocked
        (record { stage = stage; message = run_summary stage args output; dirty_snapshot = name }))

  -- below the merge, by the snapshot that has to be restored
  unfoldable pub restore : ℕ → Text → Option Text → Exec Repo MergeError LocalMergeOutcome
  unfolding finish_merge block
  restore issue_id branch none = finish_merge issue_id branch none
  restore issue_id branch (some name) = do
    output ← git pop_args
    (if output.success
        then finish_merge issue_id branch (some name)
        else block restore_dirty_state pop_args output (some name))

  unfoldable pub merge_and_restore : ℕ → Text → Option Text → Exec Repo MergeError LocalMergeOutcome
  unfolding restore block
  merge_and_restore issue_id branch name = do
    output ← git (merge_args branch issue_id)
    (if output.success
        then restore issue_id branch name
        else block merge (merge_args branch issue_id) output name)

  abbrev pub after_snapshot :
      ℕ → Text → Text → SnapshotOutcome → Exec Repo MergeError LocalMergeOutcome
  unfolding merge_and_restore
  after_snapshot issue_id branch name clean_after_snapshot =
      merge_and_restore issue_id branch (some name)
  after_snapshot issue_id branch name (snapshot_blocked message) =
      pure (blocked (record { stage = snapshot; message = message; dirty_snapshot = some name }))

  -- the milliseconds name the stash
  unfoldable pub merge_issue_branch : ℕ → Text → ℕ → Exec Repo MergeError LocalMergeOutcome
  unfolding is_worktree_clean snapshot_dirty_state merge_and_restore stash_name trim
  merge_issue_branch issue_id branch millis = do
    ensure (not (issue_id == 0)) bad_issue_id
    ensure (not (is_empty (trim branch))) branch_required
    clean ← is_worktree_clean
    (if clean
        then merge_and_restore issue_id branch none
        else (snapshot_dirty_state (stash_name issue_id millis)
            >>= after_snapshot issue_id branch (stash_name issue_id millis)))
