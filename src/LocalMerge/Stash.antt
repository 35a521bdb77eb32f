-- ===== src/LocalMerge/Stash.antt =====
-- What a merge leaves on the stash of the primary worktree.
use auwsx.Common.{
  Bool, List, Option, Result, Text, [], codes, err, false, if◌then◌else◌, is_some, none, ok, some,
  true, ℕ, ◌++◌, ◌∷◌, ◌≡◌, ◌⊎◌,
}
use auwsx.Store.Exec.{Exec, continue, pure}
use auwsx.LocalMerge.{
  LocalMergeOutcome, LocalMergeStage, MergeError, Output, SnapshotOutcome, blocked,
  clean_after_snapshot, head_args, is_worktree_clean, merge, merge_args, merged, preflight,
  restore_dirty_state, snapshot, snapshot_blocked, status_args,
}

-- the entry of a snapshot, if there is one
abbrev pub named : Option Text → List Text
named none = []
named (some name) = name ∷ []

abbrev older : List Text → List Text
older [] = []
older (newest ∷ entries) = entries

abbrev pub Popped : Bool → List Text → List Text → Type 0
Popped true before after = (newest : Text) × (before ≡ newest ∷ after)
Popped false before after = after ≡ before

-- the messages of the entries on the stash, the newest first
module _ {Repo : Type 0} (stash : Repo → List Text) where
  -- a command that ran took the newest entry off the stash, or failed and left the stash as it was
  abbrev pub PopsNewest : List Text → Result MergeError Output × Repo → Type 0
  PopsNewest before (ok output, repo) = Popped output.success before (stash repo)
  PopsNewest before (err e, repo) = Unit

  -- a command that ran added an entry with this message, or none, and one that failed added none
  abbrev pub PushesOne : Text → List Text → Result MergeError Output × Repo → Type 0
  PushesOne name before (ok output, repo) =
      (stash repo ≡ before) ⊎ ((output.success ≡ true) × (stash repo ≡ name ∷ before))
  PushesOne name before (err e, repo) = Unit

  -- What git documents of the commands. `status`, `rev-parse` and `merge` leave the stash alone, `pop`
  -- takes the entry that it applied, which for `stash@{0}` is the newest, or none if it fails; a `push`
  -- adds an entry with its message, or none where there was nothing to stash or it failed, and one
  -- that turns a dirty worktree into a clean one has added it.
  pub record StashLaws (git : List Text → Exec Repo MergeError Output) : Type 0 where
    pub status_keeps : (repo : Repo) → stash (git status_args repo).1 ≡ stash repo
    pub head_keeps : (repo : Repo) → stash (git head_args repo).1 ≡ stash repo
    pub merge_keeps :
        (branch : Text) (issue_id : ℕ) (repo : Repo)
        → stash (git (merge_args branch issue_id) repo).1 ≡ stash repo
    pub pop_takes :
        (repo : Repo)
        → PopsNewest (stash repo) (git (codes "stash" ∷ codes "pop" ∷ codes "stash@{0}" ∷ []) repo)
    pub push_makes :
        (name : Text) (repo : Repo)
        → PushesOne name (stash repo) (
            git
              (codes "stash" ∷ codes "push" ∷ codes "--include-untracked" ∷ codes "-m" ∷ name ∷ [])
              repo)
    pub push_adds :
        (name : Text) (before dirty pushed after : Repo) (output : Output)
        → is_worktree_clean git before ≡ (ok false, dirty)
        → git
            (codes "stash" ∷ codes "push" ∷ codes "--include-untracked" ∷ codes "-m" ∷ name ∷ [])
            dirty
          ≡ (ok output, pushed)
        → output.success ≡ true
        → is_worktree_clean git pushed ≡ (ok true, after)
        → stash pushed ≡ name ∷ stash before

  abbrev BlockedLeaves : List Text → LocalMergeStage → Option Text → List Text → Type 0
  BlockedLeaves before preflight name after = ⊥
  BlockedLeaves before snapshot name after =
      (is_some name ≡ true) × ((after ≡ before) ⊎ (after ≡ named name ++ before))
  BlockedLeaves before merge name after = after ≡ named name ++ before
  BlockedLeaves before restore_dirty_state name after =
      (is_some name ≡ true) × (after ≡ named name ++ before)

  -- the stash after a merge that started with these entries on it
  abbrev pub Leaves : List Text → Result MergeError LocalMergeOutcome × Repo → Type 0
  Leaves before (ok (merged result), repo) = stash repo ≡ before
  Leaves before (ok (blocked b), repo) = BlockedLeaves before b.stage b.dirty_snapshot (stash repo)
  Leaves before (err e, repo) = Unit

  module _ (git : List Text → Exec Repo MergeError Output) (laws : StashLaws git) where
    module _ (d : List Text) (issue_id : ℕ) (branch name : Text) (before dirty : Repo)
        (start : stash before ≡ d)
        (was_dirty : is_worktree_clean git before ≡ (ok false, dirty)) where
      abbrev recheck : Result MergeError Bool → Repo → Result MergeError SnapshotOutcome × Repo
      recheck r after =
          continue r
            (λ clean. pure (
              if clean
              then clean_after_snapshot
              else snapshot_blocked (codes "primary worktree remained dirty after safety stash")))
            after
