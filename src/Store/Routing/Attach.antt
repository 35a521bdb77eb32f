-- ===== src/Store/Routing/Attach.antt =====
-- What the two transactions of routing.rs may do to an issue and to the backlog.
use auwsx.Common.{
  Bool-cases, List, Option, Text, [], arith, err, false, inl, inr, is_ok, map, none, refl, some,
  subst, sym, true, ℕ, ◌==◌, ◌∷◌, ◌≡◌, ◌⊎◌,
}
use auwsx.Status.{
  IssueStatus, accepts_queue_message, auditing, fixing, is_legal_transition, new, plan_blocked,
  plan_ready, planning, ready_to_merge, reviewing, working,
}
use auwsx.Model.{Issue}
use auwsx.Store.Exec.{transaction-err, transaction-ok}
use auwsx.Store.Table.{count_where, update_where}
use auwsx.Store.Rows.{BacklogItem, Db, Rowids, item_consumed}
use auwsx.Store.Issues.{create_issue}
use auwsx.Store.Steering.{insert_steering}
use auwsx.Store.Backlog.{consume_item, is_unconsumed}
use auwsx.Store.Routing.{
  attach_body, attach_checked, attach_found, attach_item_to_issue, consume_once, create_and_consume,
  create_issue_from_item, find_in_project, status_after_attach,
}

-- From a status that accepts messages, the status that an attached message gives accepts them too,
-- and is the same status or one that the transition matrix lists as a move from it.
pub attach-legal :
    (s : IssueStatus)
    → accepts_queue_message s ≡ true
    → (accepts_queue_message (status_after_attach s) ≡ true)
      × ((status_after_attach s ≡ s) ⊎ (is_legal_transition s (status_after_attach s) ≡ true))
unfolding accepts_queue_message status_after_attach is_legal_transition
attach-legal new h = (refl, inl refl)
attach-legal planning h = (refl, inl refl)
attach-legal plan_ready h = (refl, inr refl)
attach-legal plan_blocked h = (refl, inr refl)
attach-legal working h = (refl, inl refl)
attach-legal reviewing h = (refl, inl refl)
attach-legal fixing h = (refl, inl refl)
attach-legal auditing h = (refl, inl refl)
attach-legal ready_to_merge h = (refl, inr refl)
attach-legal _ h = absurd (ground arith)

-- Nothing is left to consume for the item.
abbrev pub IsUsedUp : ℕ → Db → Type 0
IsUsedUp item_id db = count_where (is_unconsumed item_id) db.backlog ≡ 0

consumed-count :
    (item_id issue_id now : ℕ) (rows : List BacklogItem)
    → count_where
        (is_unconsumed item_id)
        (update_where (is_unconsumed item_id) (consume_item issue_id now) rows)
      ≡ 0
unfolding count_where update_where
consumed-count item_id issue_id now [] = refl
consumed-count item_id issue_id now (r ∷ rows) =
    ground (arith, consumed-count item_id issue_id now rows)

module _ (item_id issue_id now : ℕ) (db : Db) where
  consume_once-used :
      IsUsedUp item_id db → consume_once item_id issue_id now db ≡ (err (item_consumed item_id), db)
  unfolding consume_once
  consume_once-used h = rw h refl

  consume_once-ok :
      is_ok (consume_once item_id issue_id now db).0 ≡ true
      → IsUsedUp item_id (consume_once item_id issue_id now db).1
  unfolding consume_once
  consume_once-ok h = elim (Bool-cases (count_where (is_unconsumed item_id) db.backlog == 0)) [
    | inl e ↦ absurd (let clash : false ≡ true = rw e at h in ground arith)
    | inr e ↦ rw e (consumed-count item_id issue_id now db.backlog)
  ]

module _ (rowids : Rowids) (item : BacklogItem) (now : ℕ) where
  pub create_issue_from_item-used :
      (title description : Option Text) (db : Db)
      → IsUsedUp item.id db
      → create_issue_from_item rowids item title description now db
        ≡ (err (item_consumed item.id), db)
  unfolding create_issue_from_item create_and_consume create_issue
  create_issue_from_item-used title description db h = rw h refl

  pub create_issue_from_item-ok :
      (title description : Option Text) (db : Db)
      → is_ok (create_issue_from_item rowids item title description now db).0 ≡ true
      → IsUsedUp item.id (create_issue_from_item rowids item title description now db).1
  unfolding create_issue_from_item create_and_consume create_issue
  create_issue_from_item-ok title description db h =
      elim (Bool-cases (count_where (is_unconsumed item.id) db.backlog == 0)) [
        | inl e ↦ absurd (let clash : false ≡ true = rw e at h in ground arith)
        | inr e ↦ rw e (
            consumed-count item.id (rowids.next (map (λ (issue : Issue). issue.id) db.issues)) now
              db.backlog)
      ]

  attach_checked-used :
      (issue_id : ℕ) (status : IssueStatus) (note : Text) (db : Db)
      → IsUsedUp item.id db
      → is_ok (attach_checked rowids item issue_id status note now db).0 ≡ false
  unfolding attach_checked insert_steering
  attach_checked-used issue_id status note db h = rw h refl

  attach_found-used :
      (issue_id : ℕ) (note : Text) (found : Option Issue) (db : Db)
      → IsUsedUp item.id db
      → is_ok (attach_found rowids item issue_id note now found db).0 ≡ false
  unfolding attach_found
  attach_found-used issue_id note none db h = refl
  attach_found-used issue_id note (some issue) db h =
      elim (Bool-cases (accepts_queue_message issue.status)) [
        | inl e ↦ rw e (attach_checked-used issue_id issue.status note db h)
        | inr e ↦ rw e refl
      ]

  attach_checked-ok :
      (issue_id : ℕ) (status : IssueStatus) (note : Text) (db : Db)
      → is_ok (attach_checked rowids item issue_id status note now db).0 ≡ true
      → IsUsedUp item.id (attach_checked rowids item issue_id status note now db).1
  unfolding attach_checked insert_steering
  attach_checked-ok issue_id status note db h =
      elim (Bool-cases (count_where (is_unconsumed item.id) db.backlog == 0)) [
        | inl e ↦ absurd (let clash : false ≡ true = rw e at h in ground arith)
        | inr e ↦ rw e (consumed-count item.id issue_id now db.backlog)
      ]

  attach_found-ok :
      (issue_id : ℕ) (note : Text) (found : Option Issue) (db : Db)
      → is_ok (attach_found rowids item issue_id note now found db).0 ≡ true
      → IsUsedUp item.id (attach_found rowids item issue_id note now found db).1
  unfolding attach_found
  attach_found-ok issue_id note none db h = absurd (ground arith)
  attach_found-ok issue_id note (some issue) db h =
      elim (Bool-cases (accepts_queue_message issue.status)) [
        | inl e ↦ rw e (attach_checked-ok issue_id issue.status note db (rw e at h))
        | inr e ↦ absurd (let clash : false ≡ true = rw e at h in ground arith)
      ]

  pub attach_item_to_issue-used :
      (issue_id : ℕ) (note : Text) (db : Db)
      → IsUsedUp item.id db
      → (is_ok (attach_item_to_issue rowids item issue_id note now db).0 ≡ false)
        × ((attach_item_to_issue rowids item issue_id note now db).1 ≡ db)
  unfolding attach_item_to_issue attach_body
  attach_item_to_issue-used issue_id note db h =
      transaction-err (attach_body rowids item issue_id note now) db
        (attach_found-used issue_id note (find_in_project issue_id item.project_id db) db h)

  pub attach_item_to_issue-ok :
      (issue_id : ℕ) (note : Text) (db : Db)
      → is_ok (attach_item_to_issue rowids item issue_id note now db).0 ≡ true
      → IsUsedUp item.id (attach_item_to_issue rowids item issue_id note now db).1
  unfolding attach_item_to_issue attach_body
  attach_item_to_issue-ok issue_id note db h =
      let (body_ok, same) = transaction-ok (attach_body rowids item issue_id note now) db h in
      subst (IsUsedUp item.id) (sym same)
        (attach_found-ok issue_id note (find_in_project issue_id item.project_id db) db body_ok)
