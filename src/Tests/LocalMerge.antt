-- ===== src/Tests/LocalMerge.antt =====
-- A repository with a stash, and a merge of a dirty worktree.
use auwsx.Common.{Bool, List, Text, [], codes, err, false, if◌then◌else◌, ok, text_eq, true, ◌∷◌}
use auwsx.Store.Exec.{Exec}
use auwsx.LocalMerge.{MergeError, Output, spawn_failed}

-- the entries on the stash, and whether the worktree is dirty
abbrev Toy : Type 0
Toy = List Text × Bool

abbrev says : Bool → Text → Output
says fine text = record {
  success = fine;
  stdout = text;
  stderr = [];
  status = codes "exit status: 0";
}

abbrev toy_pop : Exec Toy MergeError Output
toy_pop ([], dirty) = (ok (says false []), ([], dirty))
toy_pop (newest ∷ entries, dirty) = (ok (says true []), (entries, true))

-- the message of `push --include-untracked -m`
abbrev message : List Text → Text
message (a ∷ b ∷ name ∷ rest) = name
message _ = []

abbrev toy_stash : Text → List Text → Exec Toy MergeError Output
unfolding text_eq
toy_stash verb args (entries, dirty) =
    if text_eq verb (codes "push")
    then (ok (says true []), (message args ∷ entries, false))
    else toy_pop (entries, dirty)

abbrev toy_run : Text → Text → List Text → Exec Toy MergeError Output
unfolding text_eq toy_stash
toy_run command verb args (n, dirty) =
    if text_eq command (codes "stash")
    then toy_stash verb args (n, dirty)
    else (ok (says true (if dirty then codes " M a.txt" else [])), (n, dirty))

abbrev toy_git : List Text → Exec Toy MergeError Output
unfolding toy_run
toy_git [] repo = (err spawn_failed, repo)
toy_git (command ∷ []) repo = toy_run command [] [] repo
toy_git (command ∷ verb ∷ rest) repo = toy_run command verb rest repo

abbrev toy_entries : Toy → List Text
toy_entries repo = repo.0
