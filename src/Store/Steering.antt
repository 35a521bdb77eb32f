-- ===== src/Store/Steering.antt =====
-- crates/auwsx-core/src/steering.rs: queue messages of an issue, and its re-trigger flag.
pub mod Flag
use auwsx.Common.{
  Bool, List, Text, [], err, false, filter, if◌then◌else◌, ltb, map, none, not, ok, or_fail, some,
  true, ℕ, ◌&&◌, ◌++◌, ◌==◌, ◌∷◌,
}
use auwsx.Status.{accepts_queue_message}
use auwsx.Store.Exec.{ensure, ◌>>=◌, ◌>>◌}
use auwsx.Store.Table.{count_where, delete_where, order_by, update_where}
use auwsx.Store.Rows.{
  Db, Op, Rowids, Steering, SteeringSource, has_issue_id, issue_not_found, pending,
  refuses_steering, steering_not_found,
}
use auwsx.Store.Issues.{get_issue}

-- `WHERE issue_id = ? AND consumed = 0`
abbrev pub is_pending_for : ℕ → Steering → Bool
is_pending_for issue_id s = (s.issue_id == issue_id) && not s.consumed

abbrev pub new_steering : ℕ → ℕ → SteeringSource → Text → ℕ → Steering
new_steering id issue_id source note now = record {
  id = id;
  issue_id = issue_id;
  source = source;
  note = note;
  consumed = false;
  created_at = now;
  consumed_at = none;
}

-- `UPDATE issues SET has_pending_steering = ?, updated_at = ? WHERE id = ?`, with no check of the
-- count
unfoldable pub write_flag : ℕ → Bool → ℕ → Db → Db
unfolding update_where
write_flag issue_id flag now db = record db {
  issues =
      update_where (has_issue_id issue_id)
        (λ issue. record issue { has_pending_steering = flag; updated_at = now }) db.issues;
}

unfoldable pub consume_row : ℕ → Steering → Steering
consume_row now s = record s { consumed = true; consumed_at = some now }

module _ (rowids : Rowids) where
  unfoldable pub insert_steering : ℕ → SteeringSource → Text → ℕ → Db → ℕ × Db
  insert_steering issue_id source note now db =
      let id = rowids.next (map (λ (s : Steering). s.id) db.steering) in
      (id, record db { steering = db.steering ++ new_steering id issue_id source note now ∷ [] })

  -- the body of `add` below the two checks, in one transaction
  unfoldable pub add_checked : ℕ → SteeringSource → Text → ℕ → Op ℕ
  unfolding insert_steering write_flag
  add_checked issue_id source note now db =
      let (id, db') = insert_steering issue_id source note now db in
      (ok id, write_flag issue_id true now db')

  unfoldable pub add_steering : ℕ → SteeringSource → Text → ℕ → Op ℕ
  unfolding get_issue accepts_queue_message add_checked
  add_steering issue_id source note now = do
    issue ← λ db. (or_fail (get_issue issue_id db) (issue_not_found issue_id), db)
    ensure (accepts_queue_message issue.status) (refuses_steering issue_id)
    add_checked issue_id source note now

unfoldable pub list_pending : ℕ → Db → List Steering
unfolding filter order_by
list_pending issue_id db = order_by (λ s. s.id) (filter (is_pending_for issue_id) db.steering)

unfoldable pub consume_all : ℕ → ℕ → Op (Unit {0})
unfolding update_where consume_row write_flag
consume_all issue_id now db = (
  ok tt,
  write_flag issue_id false now (record db {
    steering = update_where (is_pending_for issue_id) (consume_row now) db.steering;
  }),
)

-- the loop of `consume_ids`
unfoldable pub consume_each : ℕ → List ℕ → ℕ → List Steering → List Steering
unfolding update_where consume_row
consume_each issue_id [] now rows = rows
consume_each issue_id (id ∷ ids) now rows = consume_each issue_id ids now (
    update_where (λ (s : Steering). (s.id == id) && is_pending_for issue_id s) (consume_row now)
      rows)

unfoldable pub consume_ids : ℕ → List ℕ → ℕ → Op (Unit {0})
unfolding consume_each count_where write_flag
consume_ids issue_id [] now db = (ok tt, db)
consume_ids issue_id (id ∷ ids) now db =
    let rows = consume_each issue_id (id ∷ ids) now db.steering in
    let pending = count_where (is_pending_for issue_id) rows in
    (ok tt, write_flag issue_id (ltb 0 pending) now (record db { steering = rows }))

unfoldable pub remove_pending : ℕ → Op (Unit {0})
unfolding count_where delete_where
remove_pending id db =
    let p = λ (s : Steering). (s.id == id) && not s.consumed in
    if count_where p db.steering == 0
    then (err (steering_not_found id), db)
    else (ok tt, record db { steering = delete_where p db.steering })
