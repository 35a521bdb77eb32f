-- ===== src/Store/Routing/Once.antt =====
-- An item of the backlog is routed at most once.
use auwsx.Common.{
  Bool-cases, List, Option, Text, [], arith, false, inl, inr, is_ok, none, refl, some, subst, sym,
  true, ℕ, ◌==◌, ◌∷◌, ◌≡◌,
}
use auwsx.Status.{IssueStatus, accepts_queue_message}
use auwsx.Model.{Issue}
use auwsx.Store.Exec.{transaction-keeps}
use auwsx.Store.Table.{count_where, update_where}
use auwsx.Store.Rows.{BacklogItem, Db, Op, Rowids}
use auwsx.Store.Issues.{create_issue}
use auwsx.Store.Steering.{insert_steering}
use auwsx.Store.Backlog.{consume_item, is_unconsumed}
use auwsx.Store.Routing.{
  attach_body, attach_checked, attach_found, attach_item_to_issue, consume_once, create_and_consume,
  create_issue_from_item, find_in_project,
}
use auwsx.Store.Routing.Attach.{
  IsUsedUp, attach_item_to_issue-ok, attach_item_to_issue-used, create_issue_from_item-ok,
  create_issue_from_item-used,
}

-- an attempt to route an item: into a new issue, or as a message of an issue
pub data Attempt : Type 0 where
  as_issue : Option Text → Option Text → Attempt
  as_message : ℕ → Text → Attempt

abbrev pub attempt : Rowids → BacklogItem → ℕ → Attempt → Op ℕ
attempt rowids item now (as_issue title description) =
    create_issue_from_item rowids item title description now
attempt rowids item now (as_message issue_id note) =
    attach_item_to_issue rowids item issue_id note now

attempt-ok :
    (rowids : Rowids) (item : BacklogItem) (now : ℕ) (a : Attempt) (db : Db)
    → is_ok (attempt rowids item now a db).0 ≡ true
    → IsUsedUp item.id (attempt rowids item now a db).1
attempt-ok rowids item now (as_issue title description) db h =
    create_issue_from_item-ok rowids item now title description db h
attempt-ok rowids item now (as_message issue_id note) db h =
    attach_item_to_issue-ok rowids item now issue_id note db h

attempt-used :
    (rowids : Rowids) (item : BacklogItem) (now : ℕ) (a : Attempt) (db : Db)
    → IsUsedUp item.id db
    → (is_ok (attempt rowids item now a db).0 ≡ false) × ((attempt rowids item now a db).1 ≡ db)
attempt-used rowids item now (as_issue title description) db h =
    rw (create_issue_from_item-used rowids item now title description db h) (refl, refl)
attempt-used rowids item now (as_message issue_id note) db h =
    attach_item_to_issue-used rowids item now issue_id note db h

-- Consuming one item leaves a used up item used up.
consumed-keeps :
    (item_id other issue_id now : ℕ) (rows : List BacklogItem)
    → count_where (is_unconsumed item_id) rows ≡ 0
    → count_where
        (is_unconsumed item_id)
        (update_where (is_unconsumed other) (consume_item issue_id now) rows)
      ≡ 0
unfolding count_where update_where
consumed-keeps item_id other issue_id now [] h = refl
consumed-keeps item_id other issue_id now (r ∷ rows) h =
    ground (arith, h, consumed-keeps item_id other issue_id now rows)

module _ (rowids : Rowids) (id now : ℕ) (item : BacklogItem) where
  consume_once-keeps :
      (issue_id : ℕ) (db : Db)
      → IsUsedUp id db
      → IsUsedUp id (consume_once item.id issue_id now db).1
  unfolding consume_once
  consume_once-keeps issue_id db h =
      elim (Bool-cases (count_where (is_unconsumed item.id) db.backlog == 0)) [
        | inl e ↦ rw e h
        | inr e ↦ rw e (consumed-keeps id item.id issue_id now db.backlog h)
      ]

  create_issue_from_item-keeps :
      (title description : Option Text) (db : Db)
      → IsUsedUp id db
      → IsUsedUp id (create_issue_from_item rowids item title description now db).1
  unfolding create_issue_from_item create_and_consume create_issue consume_once
  create_issue_from_item-keeps title description db h =
      elim (Bool-cases (count_where (is_unconsumed item.id) db.backlog == 0)) [
        | inl e ↦ rw e h
        | inr e ↦ rw e (consumed-keeps id item.id _ now db.backlog h)
      ]

  attach_checked-keeps :
      (issue_id : ℕ) (status : IssueStatus) (note : Text) (db : Db)
      → IsUsedUp id db
      → IsUsedUp id (attach_checked rowids item issue_id status note now db).1
  unfolding attach_checked insert_steering consume_once
  attach_checked-keeps issue_id status note db h =
      elim (Bool-cases (count_where (is_unconsumed item.id) db.backlog == 0)) [
        | inl e ↦ rw e h
        | inr e ↦ rw e (consumed-keeps id item.id issue_id now db.backlog h)
      ]

  attach_found-keeps :
      (issue_id : ℕ) (note : Text) (found : Option Issue) (db : Db)
      → IsUsedUp id db
      → IsUsedUp id (attach_found rowids item issue_id note now found db).1
  unfolding attach_found
  attach_found-keeps issue_id note none db h = h
  attach_found-keeps issue_id note (some issue) db h =
      elim (Bool-cases (accepts_queue_message issue.status)) [
        | inl e ↦ rw e (attach_checked-keeps issue_id issue.status note db h)
        | inr e ↦ rw e h
      ]

  attempt-keeps :
      (a : Attempt) (db : Db) → IsUsedUp id db → IsUsedUp id (attempt rowids item now a db).1
  unfolding attach_item_to_issue attach_body
  attempt-keeps (as_issue title description) db h =
      create_issue_from_item-keeps title description db h
  attempt-keeps (as_message issue_id note) db h =
      transaction-keeps (IsUsedUp id) (attach_body rowids item issue_id note now) db h
        (attach_found-keeps issue_id note (find_in_project issue_id item.project_id db) db h)

-- attempts one after the other, each on an item at a time, whether they succeed or not
abbrev pub attempts : Rowids → List (BacklogItem × ℕ × Attempt) → Db → Db
attempts rowids [] db = db
attempts rowids ((item, now, a) ∷ rest) db = attempts rowids rest (attempt rowids item now a db).1

attempts-keeps :
    (rowids : Rowids) (id : ℕ) (rest : List (BacklogItem × ℕ × Attempt)) (db : Db)
    → IsUsedUp id db
    → IsUsedUp id (attempts rowids rest db)
attempts-keeps rowids id [] db h = h
attempts-keeps rowids id ((item, now, a) ∷ rest) db h =
    attempts-keeps rowids id rest (attempt rowids item now a db).1
      (attempt-keeps rowids id now item a db h)

-- Once an attempt to route an item has succeeded, by a new issue or as a message, and after any
-- further attempts on any items, a new attempt on it of either kind fails and changes nothing, also
-- one that read the row of the item before. No other write of the backlog is between them: removing
-- the issue, for one, makes the item free again.
pub route-once :
    (rowids : Rowids) (item : BacklogItem) (now later : ℕ) (first second : Attempt)
    (between : List (BacklogItem × ℕ × Attempt)) (stale : BacklogItem) (db : Db)
    → stale.id ≡ item.id
    → is_ok (attempt rowids item now first db).0 ≡ true
    → let db' = attempts rowids between (attempt rowids item now first db).1 in
      (is_ok (attempt rowids stale later second db').0 ≡ false)
      × ((attempt rowids stale later second db').1 ≡ db')
route-once rowids item now later first second between stale db same h =
    let used =
      attempts-keeps rowids item.id between (attempt rowids item now first db).1
        (attempt-ok rowids item now first db h) in
    attempt-used rowids stale later second
      (attempts rowids between (attempt rowids item now first db).1)
      (subst (λ i. IsUsedUp i (attempts rowids between (attempt rowids item now first db).1))
        (sym same) used)
