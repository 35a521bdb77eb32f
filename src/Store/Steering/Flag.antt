-- ===== src/Store/Steering/Flag.antt =====
-- The re-trigger flag `has_pending_steering` against the queue messages that it stands for.
use auwsx.Common.{
  ==_iff, All, Bool, Bool-cases, List, Option-cases, Text, [], arith, false, if◌then◌else◌, inl,
  inr, ltb, map, refl, true, ℕ, ◌&&◌, ◌++◌, ◌+◌, ◌==◌, ◌∙◌, ◌∷◌, ◌≡◌, ◌≢◌,
}
use auwsx.Status.{accepts_queue_message}
use auwsx.Model.{Issue}
use auwsx.Store.Table.{All-update, count_where, update_where}
use auwsx.Store.Rows.{Db, Rowids, Steering, SteeringSource, has_issue_id}
use auwsx.Store.Issues.{get_issue}
use auwsx.Store.Steering.{
  add_checked, add_steering, consume_all, consume_each, consume_ids, consume_row, insert_steering,
  is_pending_for, new_steering, write_flag,
}

-- how many messages of the issue wait
abbrev pub pending_count : Db → ℕ → ℕ
pending_count db issue_id = count_where (is_pending_for issue_id) db.steering

-- The flag of every issue says whether a message waits for it.
abbrev pub FlagsAreExact : Db → Type 0
FlagsAreExact db =
    All (λ (issue : Issue). issue.has_pending_steering ≡ ltb 0 (pending_count db issue.id))
      db.issues

-- Writing a flag that is exact for its issue, over rows that are unchanged for all others.
write_flag-exact :
    (issue_id : ℕ) (flag : Bool) (now : ℕ) (db db' : Db)
    → db'.issues ≡ db.issues
    → flag ≡ ltb 0 (pending_count db' issue_id)
    → ((j : ℕ) → j ≢ issue_id → pending_count db' j ≡ pending_count db j)
    → FlagsAreExact db
    → FlagsAreExact (write_flag issue_id flag now db')
unfolding write_flag
write_flag-exact issue_id flag now db db' same e other h = rw same (
    All-update (λ (issue : Issue). issue.has_pending_steering ≡ ltb 0 (pending_count db issue.id))
      (λ (issue : Issue). issue.has_pending_steering ≡ ltb 0 (pending_count db' issue.id))
      (has_issue_id issue_id)
      (λ issue. record issue { has_pending_steering = flag; updated_at = now }) db.issues
      (λ issue old hit. rw ((==_iff issue.id issue_id).0 hit) e)
      (λ issue old miss.
        rw (other issue.id (λ same_id. cc ((==_iff issue.id issue_id).1 same_id, miss))) old)
      h)

consume_all-counts :
    (issue_id j now : ℕ) (rows : List Steering)
    → count_where (is_pending_for j) (update_where (is_pending_for issue_id) (consume_row now) rows)
      ≡ (if j == issue_id then 0 else count_where (is_pending_for j) rows)
unfolding count_where update_where consume_row
consume_all-counts issue_id j now [] = ground arith
consume_all-counts issue_id j now (s ∷ rows) =
    ground (arith, consume_all-counts issue_id j now rows)

consume_one-counts :
    (id issue_id j now : ℕ) (rows : List Steering)
    → j ≢ issue_id
    → count_where (is_pending_for j) (
        update_where
          (λ (s : Steering). (s.id == id) && is_pending_for issue_id s)
          (consume_row now)
          rows)
      ≡ count_where (is_pending_for j) rows
unfolding count_where update_where consume_row
consume_one-counts id issue_id j now [] h = refl
consume_one-counts id issue_id j now (s ∷ rows) h =
    ground (arith, consume_one-counts id issue_id j now rows h)

consume_each-counts :
    (ids : List ℕ) (issue_id j now : ℕ) (rows : List Steering)
    → j ≢ issue_id
    → count_where (is_pending_for j) (consume_each issue_id ids now rows)
      ≡ count_where (is_pending_for j) rows
unfolding consume_each
consume_each-counts [] issue_id j now rows h = refl
consume_each-counts (id ∷ ids) issue_id j now rows h =
    consume_each-counts ids issue_id j now _ h ∙ consume_one-counts id issue_id j now rows h

count_where-append {ℓ} :
    {A : Type ℓ} (p : A → Bool) (xs ys : List A)
    → count_where p (xs ++ ys) ≡ count_where p xs + count_where p ys
unfolding count_where
count_where-append p [] ys = omega arith
count_where-append p (x ∷ xs) ys = omega (arith, count_where-append p xs ys)

insert_steering-counts :
    (rowids : Rowids) (issue_id j : ℕ) (source : SteeringSource) (note : Text) (now : ℕ) (db : Db)
    → pending_count (insert_steering rowids issue_id source note now db).1 j
      ≡ pending_count db j + (if issue_id == j then 1 else 0)
unfolding insert_steering count_where
insert_steering-counts rowids issue_id j source note now db =
    rw
      (count_where-append (is_pending_for j) db.steering (
        new_steering (rowids.next (map (λ (s : Steering). s.id) db.steering)) issue_id source note
          now
        ∷ []))
      (ground arith)

add_checked-FlagsAreExact :
    (rowids : Rowids) (issue_id : ℕ) (source : SteeringSource) (note : Text) (now : ℕ) (db : Db)
    → FlagsAreExact db
    → FlagsAreExact (add_checked rowids issue_id source note now db).1
unfolding add_checked insert_steering
add_checked-FlagsAreExact rowids issue_id source note now db h =
    let counts = λ (j : ℕ). insert_steering-counts rowids issue_id j source note now db in
    write_flag-exact issue_id true now db (insert_steering rowids issue_id source note now db).1
      refl (ground (arith, counts issue_id)) (λ j other. ground (arith, counts j)) h

add_steering-FlagsAreExact :
    (rowids : Rowids) (issue_id : ℕ) (source : SteeringSource) (note : Text) (now : ℕ) (db : Db)
    → FlagsAreExact db
    → FlagsAreExact (add_steering rowids issue_id source note now db).1
unfolding add_steering get_issue
add_steering-FlagsAreExact rowids issue_id source note now db h =
    elim (Option-cases (get_issue issue_id db)) [
      | inl none_e ↦ rw none_e h
      | inr (issue, some_e) ↦ elim (Bool-cases (accepts_queue_message issue.status)) [
        | inl e ↦ rw (some_e, e) (add_checked-FlagsAreExact rowids issue_id source note now db h)
        | inr e ↦ rw (some_e, e) h
      ]
    ]

consume_ids-FlagsAreExact :
    (issue_id : ℕ) (ids : List ℕ) (now : ℕ) (db : Db)
    → FlagsAreExact db
    → FlagsAreExact (consume_ids issue_id ids now db).1
unfolding consume_ids
consume_ids-FlagsAreExact issue_id [] now db h = h
consume_ids-FlagsAreExact issue_id (id ∷ ids) now db h =
    write_flag-exact issue_id _ now db
      (record db { steering = consume_each issue_id (id ∷ ids) now db.steering }) refl refl
      (λ j other. consume_each-counts (id ∷ ids) issue_id j now db.steering other) h

consume_all-FlagsAreExact :
    (issue_id now : ℕ) (db : Db) → FlagsAreExact db → FlagsAreExact (consume_all issue_id now db).1
unfolding consume_all
consume_all-FlagsAreExact issue_id now db h =
    let counts = λ (j : ℕ). consume_all-counts issue_id j now db.steering in
    write_flag-exact issue_id false now db
      (record db {
        steering = update_where (is_pending_for issue_id) (consume_row now) db.steering;
      })
      refl (ground (arith, counts issue_id)) (λ j other. ground (arith, counts j)) h

-- If the flag of every issue says whether a message waits for it, this is still so after adding a
-- message, after consuming a chosen few, and after consuming all, with or without an error.
pub steering-FlagsAreExact :
    (rowids : Rowids) (issue_id : ℕ) (source : SteeringSource) (note : Text) (ids : List ℕ)
    (now : ℕ) (db : Db)
    → FlagsAreExact db
    → FlagsAreExact (add_steering rowids issue_id source note now db).1
      × FlagsAreExact (consume_ids issue_id ids now db).1
      × FlagsAreExact (consume_all issue_id now db).1
steering-FlagsAreExact rowids issue_id source note ids now db h = (
  add_steering-FlagsAreExact rowids issue_id source note now db h,
  consume_ids-FlagsAreExact issue_id ids now db h,
  consume_all-FlagsAreExact issue_id now db h,
)
