-- ===== src/Store/Routing/Admission.antt =====
-- The admission gate under routing: no pending item becomes an issue.
use auwsx.Common.{Bool-cases, Memᴰ, Option, Option-cases, Text, find, inl, inr, none, some, ℕ, ◌==◌}
use auwsx.Store.Exec.{>>=-keeps, pure, transaction-keeps, ◌>>◌}
use auwsx.Store.Table.{count_where, find-Memᴰ}
use auwsx.Store.Rows.{BacklogItem, Db, Rowids, approval_eq, dismissed, has_item_id}
use auwsx.Store.Issues.{create_issue}
use auwsx.Store.Backlog.{approve_if_pending, get_item, is_unconsumed}
use auwsx.Store.Backlog.Gate.{
  GateHolds, HasPassed, HasUniqueItems, approve_if_pending-passes, consume-GateHolds,
}
use auwsx.Store.Routing.{
  consume_once, create_and_consume, create_issue_from_item, description_for, route_found_now,
  route_one_now, route_open_now, title_for,
}

consume_once-GateHolds :
    (id issue_id now : ℕ) (db : Db)
    → HasPassed id db.backlog
    → GateHolds db.backlog
    → GateHolds (consume_once id issue_id now db).1.backlog
unfolding consume_once
consume_once-GateHolds id issue_id now db passed h =
    elim (Bool-cases (count_where (is_unconsumed id) db.backlog == 0)) [
      | inl e ↦ rw e h
      | inr e ↦ rw e (consume-GateHolds id issue_id now db.backlog passed h)
    ]

module _ (rowids : Rowids) (item : BacklogItem) (now : ℕ) where
  create_and_consume-GateHolds :
      (title : Text) (description : Option Text) (db : Db)
      → HasPassed item.id db.backlog
      → GateHolds db.backlog
      → GateHolds (create_and_consume rowids item title description now db).1.backlog
  unfolding create_and_consume create_issue
  create_and_consume-GateHolds title description db passed h =
      let create = create_issue rowids item.project_id title description now in
      >>=-keeps (λ (v : Db). GateHolds v.backlog) create
        (λ issue_id. consume_once item.id issue_id now >> pure issue_id) db h
        (λ issue_id.
          let kept = consume_once-GateHolds item.id issue_id now (create db).1 passed h in
          >>=-keeps (λ (v : Db). GateHolds v.backlog) (consume_once item.id issue_id now)
            (λ _. pure issue_id) (create db).1 kept (λ _. kept))

  create_issue_from_item-GateHolds :
      (title description : Option Text) (db : Db)
      → HasPassed item.id db.backlog
      → GateHolds db.backlog
      → GateHolds (create_issue_from_item rowids item title description now db).1.backlog
  unfolding create_issue_from_item
  create_issue_from_item-GateHolds title description db passed h =
      transaction-keeps (λ (v : Db). GateHolds v.backlog)
        (create_and_consume rowids item (title_for item title)
          (description_for item (title_for item title) description) now)
        db h
        (create_and_consume-GateHolds (title_for item title)
          (description_for item (title_for item title) description) db passed h)

  module _ (db : Db) (unique : HasUniqueItems db.backlog) (m : Memᴰ item db.backlog)
      (h : GateHolds db.backlog) where
    route_open_now-GateHolds :
        (consumed : Option ℕ) → GateHolds (route_open_now rowids item now consumed db).1.backlog
    unfolding route_open_now
    route_open_now-GateHolds (some issue_id) = h
    route_open_now-GateHolds none =
        let passes = approve_if_pending-passes item now db unique m h in
        >>=-keeps (λ (v : Db). GateHolds v.backlog) (approve_if_pending item now)
          (λ _. create_issue_from_item rowids item none none now) db passes.0
          (λ _.
            create_issue_from_item-GateHolds none none (approve_if_pending item now db).1 passes.1
              passes.0)

    route_found_now-GateHolds : GateHolds (route_found_now rowids now item db).1.backlog
    unfolding route_found_now
    route_found_now-GateHolds = elim (Bool-cases (approval_eq item.approval dismissed)) [
      | inl e ↦ rw e h
      | inr e ↦ rw e (route_open_now-GateHolds item.consumed_issue_id)
    ]

-- If the ids of the backlog rows are unique, routing any item at once keeps the gate: a row that has
-- an issue is never pending. An error on the way is no exception.
pub route-GateHolds :
    (rowids : Rowids) (item_id now : ℕ) (db : Db)
    → HasUniqueItems db.backlog
    → GateHolds db.backlog
    → GateHolds (route_one_now rowids item_id now db).1.backlog
unfolding route_one_now get_item
route-GateHolds rowids item_id now db unique h =
    elim (Option-cases (find (has_item_id item_id) db.backlog)) [
      | inl e ↦ rw e h
      | inr (item, e) ↦ rw e (
          route_found_now-GateHolds rowids item now db unique
            (find-Memᴰ (has_item_id item_id) db.backlog e).0 h)
    ]
