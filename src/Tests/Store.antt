-- ===== src/Tests/Store.antt =====
-- The theorems on the store operations, at concrete inputs.
use auwsx.Common.{[], err, if◌then◌else◌, none, ok, refl, some, ◌∷◌, ◌≡◌}
use auwsx.Status.{is_legal_transition, reviewing}
use auwsx.Store.Rows.{by_human, illegal_transition, issue_not_found}
use auwsx.Store.Table.{count_where}
use auwsx.Store.Issues.{get_issue, transition}
use auwsx.Store.Issues.Status.{transition_lem, with_status}
use auwsx.Store.Steering.{add_steering, consume_all, consume_ids}
use auwsx.Store.Steering.Flag.{FlagsAreExact, steering-FlagsAreExact}
use auwsx.Tests.Fixtures.{demo_db, demo_rowids}

transition_lem_example : transition 7 reviewing 50 demo_db ≡ elim (get_issue 7 demo_db) [
  | none ↦ (err (issue_not_found 7), demo_db)
  | some issue ↦
      if is_legal_transition issue.status reviewing
      then (ok tt, record demo_db { issues = with_status 7 reviewing 50 demo_db.issues })
      else (err (illegal_transition issue.status reviewing), demo_db)
]
transition_lem_example = transition_lem 7 reviewing 50 demo_db

exact_flags : FlagsAreExact demo_db
unfolding count_where
exact_flags = (refl, (refl, tt))

steering-FlagsAreExact_example :
    FlagsAreExact (add_steering demo_rowids 7 by_human [] 50 demo_db).1
    × FlagsAreExact (consume_ids 7 (1 ∷ []) 50 demo_db).1
    × FlagsAreExact (consume_all 7 50 demo_db).1
steering-FlagsAreExact_example =
    steering-FlagsAreExact demo_rowids 7 by_human [] (1 ∷ []) 50 demo_db exact_flags
