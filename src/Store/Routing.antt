-- ===== src/Store/Routing.antt =====
-- crates/auwsx-core/src/routing.rs: approved backlog becomes an issue or a queue message of one, in one
-- transaction, and the lock that keeps two routers of a project apart.
pub mod Locks
pub mod Attach
pub mod Once
pub mod Admission
use auwsx.Common.{
  Bool, List, Option, Text, [], any, codes, err, false, filter, find, if◌then◌else◌, is_empty,
  is_some, leb, length, lines, ltb, none, ok, or_else, or_fail, some, suc, text_eq, trim, true,
  unwrap_or, zero, ℕ, ◌&&◌, ◌++◌, ◌+◌, ◌-◌, ◌==◌, ◌∷◌,
}
use auwsx.Status.{
  IssueStatus, accepts_queue_message, plan_blocked, plan_ready, planning, ready_to_merge, working,
}
use auwsx.Model.{Issue}
use auwsx.Store.Exec.{modify, pure, raise, transaction, ◌>>=◌, ◌>>◌}
use auwsx.Store.Table.{count_where, delete_where, update_where}
use auwsx.Store.Rows.{
  BacklogItem, Db, Op, RouteLock, Rowids, approval_eq, approved, candidate_not_found,
  candidate_refuses, consolidation, dismissed, has_issue_id, item_consumed, item_dismissed,
  item_not_found,
}
use auwsx.Store.Issues.{create_issue, list_issues_by_project}
use auwsx.Store.Steering.{insert_steering}
use auwsx.Store.Backlog.{
  approve_if_pending, consume_item, get_item, is_unconsumed, list_by_approval,
}

abbrev pub route_lock_stale_ms : ℕ
route_lock_stale_ms = 600000

-- `saturating_sub` on the times, which are not negative, is a cut-off that no lock stands before
unfoldable pub acquire_project_route_lock : ℕ → ℕ → Op Bool
unfolding any delete_where
acquire_project_route_lock project_id now db =
    let fresh =
      delete_where (λ (l : RouteLock). ltb (l.acquired_at + route_lock_stale_ms) now) db.locks in
    if any (λ (l : RouteLock). l.project_id == project_id) fresh
    then (ok false, record db { locks = fresh })
    else (
      ok true,
      record db { locks = fresh ++ record { project_id = project_id; acquired_at = now } ∷ [] },
    )

unfoldable pub release_project_route_lock : ℕ → Op (Unit {0})
unfolding delete_where
release_project_route_lock project_id db = (
  ok tt,
  record db { locks = delete_where (λ (l : RouteLock). l.project_id == project_id) db.locks },
)

unfoldable pub normalized_optional : Text → Option Text
unfolding trim
normalized_optional value = let t = trim value in if is_empty t then none else some t

-- `text.take(n)` on code points
unfoldable pub take_chars : ℕ → Text → Text
take_chars zero s = []
take_chars (suc n) [] = []
take_chars (suc n) (c ∷ s) = c ∷ take_chars n s

-- the first line that is not blank, trimmed
unfoldable pub first_line : List Text → Option Text
unfolding trim
first_line [] = none
first_line (l ∷ rest) =
    let later = first_line rest in if is_empty (trim l) then later else some (trim l)

abbrev pub max_title_chars : ℕ
max_title_chars = 96

unfoldable pub issue_title_from_backlog : Text → Text
unfolding first_line lines take_chars
issue_title_from_backlog text =
    let first = unwrap_or (first_line (lines text)) (codes "Untitled backlog") in
    if leb (length first) max_title_chars
    then first
    else take_chars (max_title_chars - 3) first ++ codes "..."

abbrev and_then_normalized : Option Text → Option Text
and_then_normalized none = none
and_then_normalized (some t) = normalized_optional t

-- the title and the description that `create_issue_from_item` inserts
unfoldable pub title_for : BacklogItem → Option Text → Text
unfolding normalized_optional issue_title_from_backlog
title_for item title = unwrap_or (and_then_normalized title) (issue_title_from_backlog item.text)

unfoldable pub description_for : BacklogItem → Text → Option Text → Option Text
unfolding normalized_optional trim text_eq
description_for item title description =
    or_else (and_then_normalized description)
      (if text_eq (trim item.text) title then none else some (trim item.text))

-- the guarded `UPDATE backlog_items` that ends both transactions
unfoldable pub consume_once : ℕ → ℕ → ℕ → Op (Unit {0})
unfolding count_where update_where
consume_once item_id issue_id now db =
    if count_where (is_unconsumed item_id) db.backlog == 0
    then (err (item_consumed item_id), db)
    else (
      ok tt,
      record db {
        backlog = update_where (is_unconsumed item_id) (consume_item issue_id now) db.backlog;
      },
    )

-- the status that an issue gets with a message that is attached to it
unfoldable pub status_after_attach : IssueStatus → IssueStatus
status_after_attach ready_to_merge = working
status_after_attach plan_ready = planning
status_after_attach plan_blocked = planning
status_after_attach status = status

-- `SET status = ?, has_pending_steering = 1, wait_until = NULL, updated_at = ?`
abbrev pub requeue : IssueStatus → ℕ → Issue → Issue
requeue status now issue = record issue {
  status = status;
  has_pending_steering = true;
  wait_until = none;
  updated_at = now;
}

unfoldable pub candidate_issues : ℕ → Db → List Issue
unfolding filter list_issues_by_project accepts_queue_message
candidate_issues project_id db =
    filter (λ issue. accepts_queue_message issue.status) (list_issues_by_project project_id db)

-- `SELECT … FROM issues WHERE id = ? AND project_id = ?`
unfoldable pub find_in_project : ℕ → ℕ → Db → Option Issue
unfolding find
find_in_project issue_id project_id db =
    find (λ issue. (issue.id == issue_id) && (issue.project_id == project_id)) db.issues

module _ (rowids : Rowids) where
  -- the transaction of `create_issue_from_item`
  unfoldable pub create_and_consume : BacklogItem → Text → Option Text → ℕ → Op ℕ
  unfolding create_issue consume_once
  create_and_consume item title description now = do
    issue_id ← create_issue rowids item.project_id title description now
    consume_once item.id issue_id now
    pure issue_id

  unfoldable pub create_issue_from_item : BacklogItem → Option Text → Option Text → ℕ → Op ℕ
  unfolding title_for description_for create_and_consume
  create_issue_from_item item title description now =
      let title' = title_for item title in
      transaction (create_and_consume item title' (description_for item title' description) now)

  -- `attach_item_to_issue` below its two checks
  unfoldable pub attach_checked : BacklogItem → ℕ → IssueStatus → Text → ℕ → Op ℕ
  unfolding insert_steering update_where status_after_attach trim consume_once
  attach_checked item issue_id status note now = do
    message_id ← λ db.
        let (id, db') = insert_steering rowids issue_id consolidation (trim note) now db in
        (ok id, db')
    modify λ db. record db {
      issues =
          update_where (has_issue_id issue_id) (requeue (status_after_attach status) now) db.issues;
    }
    consume_once item.id issue_id now
    pure message_id

  unfoldable pub attach_found : BacklogItem → ℕ → Text → ℕ → Option Issue → Op ℕ
  unfolding accepts_queue_message attach_checked
  attach_found item issue_id note now none = raise (candidate_not_found issue_id)
  attach_found item issue_id note now (some issue) =
      if accepts_queue_message issue.status
      then attach_checked item issue_id issue.status note now
      else raise (candidate_refuses issue_id)

  -- the body of the transaction of `attach_item_to_issue`
  unfoldable pub attach_body : BacklogItem → ℕ → Text → ℕ → Op ℕ
  unfolding find_in_project attach_found
  attach_body item issue_id note now db =
      attach_found item issue_id note now (find_in_project issue_id item.project_id db) db

  unfoldable pub attach_item_to_issue : BacklogItem → ℕ → Text → ℕ → Op ℕ
  unfolding attach_body
  attach_item_to_issue item issue_id note now = transaction (attach_body item issue_id note now)

  -- `route_approved_project` below the listing
  unfoldable pub route_items : ℕ → List BacklogItem → Op (List (ℕ × ℕ))
  unfolding create_issue_from_item
  route_items now [] db = (ok [], db)
  route_items now (item ∷ items) db =
      let rest = route_items now items in
      if is_some item.consumed_issue_id
      then rest db
      else (create_issue_from_item item none none now >>= λ issue_id.
            rest >>= λ routed. pure ((item.id, issue_id) ∷ routed))
          db

  -- the items and the issues of the outcomes, which are all `CreatedIssue`
  unfoldable pub route_approved_project : ℕ → ℕ → Op (List (ℕ × ℕ))
  unfolding list_by_approval route_items
  route_approved_project project_id now db =
      route_items now (list_by_approval project_id approved db) db

  -- `route_one_now` below the check for dismissal, by the issue that the item has
  unfoldable pub route_open_now : BacklogItem → ℕ → Option ℕ → Op ℕ
  unfolding approve_if_pending create_issue_from_item
  route_open_now item now (some issue_id) = pure issue_id
  route_open_now item now none =
      approve_if_pending item now >> create_issue_from_item item none none now

  unfoldable pub route_found_now : ℕ → BacklogItem → Op ℕ
  unfolding approval_eq route_open_now
  route_found_now now item =
      if approval_eq item.approval dismissed
      then raise (item_dismissed item.id)
      else route_open_now item now item.consumed_issue_id

  unfoldable pub route_one_now : ℕ → ℕ → Op ℕ
  unfolding get_item route_found_now
  route_one_now item_id now = do
    item ← λ db. (or_fail (get_item item_id db) (item_not_found item_id), db)
    route_found_now now item
