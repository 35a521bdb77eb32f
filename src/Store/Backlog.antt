-- ===== src/Store/Backlog.antt =====
-- crates/auwsx-core/src/backlog.rs: backlog items, their admission gate, and the one-to-one triage.
pub mod Gate
use mathlib.Core.List.{reverse}
use auwsx.Common.{
  Bool, List, Option, Text, [], err, filter, find, if◌then◌else◌, is_none, is_some, map, none, ok,
  or_fail, some, ℕ, ◌&&◌, ◌++◌, ◌==◌, ◌∷◌,
}
use auwsx.Store.Exec.{pure, raise, ◌>>=◌, ◌>>◌}
use auwsx.Store.Table.{count_where, delete_where, order_by, update_where}
use auwsx.Store.Rows.{
  Approval, BacklogItem, Db, Op, Rowids, Source, approval_eq, approved, default_approval, dismissed,
  has_item_id, is_consumed_by, item_dismissed, item_not_found, pending,
}
use auwsx.Store.Issues.{create_issue}

abbrev pub new_item : ℕ → ℕ → Text → Source → Option ℕ → ℕ → BacklogItem
unfolding default_approval
new_item id project_id text source origin_routine_id now = record {
  id = id;
  project_id = project_id;
  text = text;
  source = source;
  approval = default_approval source;
  origin_routine_id = origin_routine_id;
  consumed_issue_id = none;
  created_at = now;
  resolved_at = none;
}

unfoldable pub get_item : ℕ → Db → Option BacklogItem
unfolding find
get_item id db = find (has_item_id id) db.backlog

-- `project_id = ? AND approval = ? AND consumed_issue_id IS NULL`
abbrev pub is_live_with : ℕ → Approval → BacklogItem → Bool
unfolding approval_eq
is_live_with project_id approval item =
    (item.project_id == project_id)
    && (approval_eq item.approval approval && is_none item.consumed_issue_id)

unfoldable pub list_items_by_project : ℕ → Db → List BacklogItem
unfolding filter order_by
list_items_by_project project_id db = reverse (
    order_by (λ item. item.id)
      (filter (λ item. (item.project_id == project_id) && is_none item.consumed_issue_id)
        db.backlog))

unfoldable pub list_by_approval : ℕ → Approval → Db → List BacklogItem
unfolding filter order_by
list_by_approval project_id approval db =
    order_by (λ item. item.id) (filter (is_live_with project_id approval) db.backlog)

unfoldable pub count_by_approval : ℕ → Approval → Db → ℕ
unfolding count_where approval_eq
count_by_approval project_id approval db =
    count_where
      (λ (item : BacklogItem).
        (item.project_id == project_id) && approval_eq item.approval approval)
      db.backlog

unfoldable pub count_unconsumed_by_approval : ℕ → Approval → Db → ℕ
unfolding count_where
count_unconsumed_by_approval project_id approval db =
    count_where (is_live_with project_id approval) db.backlog

-- the shape of every `UPDATE backlog_items SET … WHERE p` that `ensure_found` follows
unfoldable pub update_items : (BacklogItem → Bool) → (BacklogItem → BacklogItem) → ℕ → Op (Unit {0})
unfolding count_where update_where
update_items p f id db =
    if count_where p db.backlog == 0
    then (err (item_not_found id), db)
    else (ok tt, record db { backlog = update_where p f db.backlog })

unfoldable pub set_approval : ℕ → Approval → ℕ → Op (Unit {0})
unfolding update_items
set_approval id approval now =
    update_items (has_item_id id)
      (λ item. record item { approval = approval; resolved_at = some now }) id

unfoldable pub approve : ℕ → ℕ → Op (Unit {0})
unfolding set_approval
approve id now = set_approval id approved now

unfoldable pub dismiss : ℕ → ℕ → Op (Unit {0})
unfolding set_approval
dismiss id now = set_approval id dismissed now

unfoldable pub edit_text : ℕ → Text → Op (Unit {0})
unfolding update_items
edit_text id text = update_items (has_item_id id) (λ item. record item { text = text }) id

-- `WHERE id = ? AND consumed_issue_id IS NULL`
abbrev pub is_unconsumed : ℕ → BacklogItem → Bool
is_unconsumed id item = (item.id == id) && is_none item.consumed_issue_id

abbrev pub consume_item : ℕ → ℕ → BacklogItem → BacklogItem
consume_item issue_id now item = record item {
  consumed_issue_id = some issue_id;
  resolved_at = some now;
}

unfoldable pub mark_consumed : ℕ → ℕ → ℕ → Op (Unit {0})
unfolding update_items
mark_consumed id issue_id now = update_items (is_unconsumed id) (consume_item issue_id now) id

unfoldable pub dismiss_consumed_by_issue : ℕ → ℕ → Op ℕ
unfolding count_where update_where
dismiss_consumed_by_issue issue_id now db = (
  ok (
      count_where (λ (item : BacklogItem). is_consumed_by issue_id item.consumed_issue_id)
        db.backlog),
  record db {
    backlog =
        update_where (λ (item : BacklogItem). is_consumed_by issue_id item.consumed_issue_id)
          (λ (item : BacklogItem). record item { approval = dismissed; resolved_at = some now })
          db.backlog;
  },
)

unfoldable pub remove_item : ℕ → Op (Unit {0})
unfolding count_where delete_where
remove_item id db =
    if count_where (has_item_id id) db.backlog == 0
    then (err (item_not_found id), db)
    else (ok tt, record db { backlog = delete_where (has_item_id id) db.backlog })

-- `if item.approval == Approval::Pending { approve(…)? }`
unfoldable pub approve_if_pending : BacklogItem → ℕ → Op (Unit {0})
unfolding approval_eq approve
approve_if_pending item now db =
    if approval_eq item.approval pending then approve item.id now db else (ok tt, db)

module _ (rowids : Rowids) where
  unfoldable pub add_item : ℕ → Text → Source → Option ℕ → ℕ → Op ℕ
  add_item project_id text source origin_routine_id now db =
      let id = rowids.next (map (λ (item : BacklogItem). item.id) db.backlog) in
      (
        ok id,
        record db {
          backlog = db.backlog ++ new_item id project_id text source origin_routine_id now ∷ [];
        },
      )

  -- one round of the loop of `run_triage_detailed`: the item becomes an issue of its own
  unfoldable pub triage_item : ℕ → ℕ → BacklogItem → Op ℕ
  unfolding create_issue mark_consumed
  triage_item project_id now item = do
    issue_id ← create_issue rowids project_id item.text none now
    mark_consumed item.id issue_id now
    pure issue_id

  -- the loop, over the items that were listed before it
  unfoldable pub triage_items : ℕ → ℕ → List BacklogItem → Op (List (ℕ × ℕ))
  unfolding triage_item
  triage_items project_id now [] db = (ok [], db)
  triage_items project_id now (item ∷ items) db =
      let rest = triage_items project_id now items in
      if is_some item.consumed_issue_id
      then rest db
      else (triage_item project_id now item >>= λ issue_id.
            rest >>= λ created. pure ((item.id, issue_id) ∷ created))
          db

  -- the pairs of `TriagedBacklog`: the item, the issue
  unfoldable pub run_triage_detailed : ℕ → ℕ → Op (List (ℕ × ℕ))
  unfolding list_by_approval triage_items
  run_triage_detailed project_id now db =
      triage_items project_id now (list_by_approval project_id approved db) db

  unfoldable pub run_triage : ℕ → ℕ → Op (List ℕ)
  unfolding run_triage_detailed
  run_triage project_id now =
      run_triage_detailed project_id now >>= λ created. pure (map (λ (p : ℕ × ℕ). p.1) created)

  -- `promote_one` below the check for dismissal, by the issue that the item has
  unfoldable pub promote_open : BacklogItem → ℕ → Option ℕ → Op ℕ
  unfolding approve_if_pending triage_item
  promote_open item now (some issue_id) = pure issue_id
  promote_open item now none = approve_if_pending item now >> triage_item item.project_id now item

  -- `promote_one` below the lookup
  unfoldable pub promote_found : BacklogItem → ℕ → Op ℕ
  unfolding approval_eq promote_open
  promote_found item now =
      if approval_eq item.approval dismissed
      then raise (item_dismissed item.id)
      else promote_open item now item.consumed_issue_id

  unfoldable pub promote_one : ℕ → ℕ → Op ℕ
  unfolding get_item promote_found
  promote_one item_id now = do
    item ← λ db. (or_fail (get_item item_id db) (item_not_found item_id), db)
    promote_found item now
