-- ===== src/Store/Subtasks.antt =====
-- crates/auwsx-core/src/db/subtasks.rs: the checklist of an issue. The foreign key makes an insert for
-- an issue that does not exist fail.
use auwsx.Common.{
  Bool, List, Text, [], err, false, filter, if◌then◌else◌, map, none, ok, some, true, ℕ, ◌++◌, ◌==◌,
  ◌∷◌,
}
use auwsx.Store.Table.{count_where, order_by, update_where}
use auwsx.Store.Rows.{Db, Op, Rowids, Subtask, has_issue_id, issue_not_found, subtask_not_found}

abbrev pub has_subtask_id : ℕ → Subtask → Bool
has_subtask_id id subtask = subtask.id == id

unfoldable pub new_subtask : ℕ → ℕ → ℕ → Text → ℕ → Subtask
new_subtask id issue_id ord text now = record {
  id = id;
  issue_id = issue_id;
  ord = ord;
  text = text;
  is_done = false;
  created_at = now;
  done_at = none;
}

unfoldable pub add_subtask_row : Rowids → ℕ → ℕ → Text → ℕ → Op ℕ
unfolding count_where new_subtask
add_subtask_row rowids issue_id ord text now db =
    let id = rowids.next (map (λ (t : Subtask). t.id) db.subtasks) in
    if count_where (has_issue_id issue_id) db.issues == 0
    then (err (issue_not_found issue_id), db)
    else (ok id, record db { subtasks = db.subtasks ++ new_subtask id issue_id ord text now ∷ [] })

unfoldable pub list_subtasks_by_issue : ℕ → Db → List Subtask
unfolding filter order_by
list_subtasks_by_issue issue_id db =
    order_by (λ t. t.ord)
      (order_by (λ t. t.id) (filter (λ (t : Subtask). t.issue_id == issue_id) db.subtasks))

-- `UPDATE … WHERE id = ?` and `ensure_found`
unfoldable pub update_subtasks : ℕ → (Subtask → Subtask) → Op (Unit {0})
unfolding count_where update_where
update_subtasks id f db =
    if count_where (has_subtask_id id) db.subtasks == 0
    then (err (subtask_not_found id), db)
    else (ok tt, record db { subtasks = update_where (has_subtask_id id) f db.subtasks })

unfoldable pub mark_done : ℕ → ℕ → Op (Unit {0})
unfolding update_subtasks
mark_done id now = update_subtasks id (λ t. record t { is_done = true; done_at = some now })

unfoldable pub mark_undone : ℕ → Op (Unit {0})
unfolding update_subtasks
mark_undone id = update_subtasks id (λ t. record t { is_done = false; done_at = none })
