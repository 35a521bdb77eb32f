-- ===== src/Store/Issues/Status.antt =====
-- Who may change the status of an issue, and what a status write leaves alone.
use auwsx.Common.{
  Bool-cases, List, [], arith, err, if◌then◌else◌, inl, inr, map, none, ok, refl, some, subst, ℕ,
  ◌==◌, ◌∷◌, ◌≡◌,
}
use auwsx.Status.{IssueStatus, is_legal_transition}
use auwsx.Store.Table.{find-count, update_where}
use auwsx.Store.Rows.{Db, has_issue_id, illegal_transition, issue_not_found}
use auwsx.Model.{Issue}
use auwsx.Store.Issues.{get_issue, set_status, transition}

pub transition-cases :
    (id : ℕ) (to : IssueStatus) (now : ℕ) (db : Db)
    → transition id to now db ≡ elim (get_issue id db) [
      | none ↦ (err (issue_not_found id), db)
      | some issue ↦
          if is_legal_transition issue.status to
          then (
            ok tt,
            record db { issues = update_where (has_issue_id id) (set_status to now) db.issues },
          )
          else (err (illegal_transition issue.status to), db)
    ]
unfolding transition get_issue
transition-cases id to now db = ground (arith, find-count (has_issue_id id) db.issues)

-- the row of one issue with another status and time of change, and every other row as it is
abbrev pub with_status : ℕ → IssueStatus → ℕ → List Issue → List Issue
with_status id to now issues =
    map (λ (x : Issue). if x.id == id then record x { status = to; updated_at = now } else x) issues

pub update-with_status :
    (id : ℕ) (to : IssueStatus) (now : ℕ) (issues : List Issue)
    → update_where (has_issue_id id) (set_status to now) issues ≡ with_status id to now issues
unfolding update_where set_status
update-with_status id to now [] = refl
update-with_status id to now (x ∷ rest) = elim (Bool-cases (x.id == id)) [
  | inl e ↦ simp (e, update-with_status id to now rest) refl
  | inr e ↦ simp (e, update-with_status id to now rest) refl
]

-- An autonomous status change does one of three things: it refuses an unknown id, it refuses a move
-- that the matrix does not list, naming it, and both leave the database as it was; or the move is
-- legal, and each row with that id keeps its fields but for the new status and the time of the change,
-- and every other row and every other table is as it was.
pub transition_lem :
    (id : ℕ) (to : IssueStatus) (now : ℕ) (db : Db)
    → transition id to now db ≡ elim (get_issue id db) [
      | none ↦ (err (issue_not_found id), db)
      | some issue ↦
          if is_legal_transition issue.status to
          then (ok tt, record db { issues = with_status id to now db.issues })
          else (err (illegal_transition issue.status to), db)
    ]
transition_lem id to now db =
    subst
      (λ issues. transition id to now db ≡ elim (get_issue id db) [
        | none ↦ (err (issue_not_found id), db)
        | some issue ↦
            if is_legal_transition issue.status to
            then (ok tt, record db { issues = issues })
            else (err (illegal_transition issue.status to), db)
      ])
      (update-with_status id to now db.issues) (transition-cases id to now db)
