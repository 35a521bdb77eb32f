-- ===== src/Store/Rows.antt =====
-- The state that the store functions share: the tables, the rows of backlog.rs, steering.rs,
-- db/subtasks.rs and db/findings.rs, the
-- errors, and what the code relies on for new row ids.
use auwsx.Common.{
  Bool, List, Option, Result, Text, contains, err, false, none, ok, some, true, ℕ, ◌==◌, ◌≡◌,
}
use auwsx.Status.{IssueStatus, TransitionError, illegal}
use auwsx.Model.{Issue}
use auwsx.Store.Exec.{Exec}

pub data Source : Type 0 where
  human agent routine inbox : Source

pub data Approval : Type 0 where
  pending approved dismissed : Approval

pub data SteeringSource : Type 0 where
  by_human consolidation : SteeringSource

pub record BacklogItem : Type 0 where
  pub id : ℕ
  pub project_id : ℕ
  pub text : Text
  pub source : Source
  pub approval : Approval
  pub origin_routine_id : Option ℕ
  pub consumed_issue_id : Option ℕ
  pub created_at : ℕ
  pub resolved_at : Option ℕ

pub record Steering : Type 0 where
  pub id : ℕ
  pub issue_id : ℕ
  pub source : SteeringSource
  pub note : Text
  pub consumed : Bool
  pub created_at : ℕ
  pub consumed_at : Option ℕ

pub data Severity : Type 0 where
  blocker major minor nit : Severity

pub data FindingStatus : Type 0 where
  open_finding accepted rejected dismissed_finding : FindingStatus

pub record Subtask : Type 0 where
  pub id : ℕ
  pub issue_id : ℕ
  pub ord : ℕ
  pub text : Text
  pub is_done : Bool
  pub created_at : ℕ
  pub done_at : Option ℕ

pub record Finding : Type 0 where
  pub id : ℕ
  pub issue_id : ℕ
  pub review_round : ℕ
  pub severity : Severity
  pub lens : Option Text
  pub title : Text
  pub detail : Option Text
  pub file_ref : Option Text
  pub status : FindingStatus
  pub adjudication : Option Text
  pub created_at : ℕ
  pub resolved_at : Option ℕ

-- a row of `project_route_locks`
pub record RouteLock : Type 0 where
  pub project_id : ℕ
  pub acquired_at : ℕ

pub record Db : Type 0 where
  pub issues : List Issue
  pub backlog : List BacklogItem
  pub steering : List Steering
  pub locks : List RouteLock
  pub subtasks : List Subtask
  pub findings : List Finding

pub data Error : Type 0 where
  issue_not_found : ℕ → Error
  illegal_transition : IssueStatus → IssueStatus → Error
  stale_proposal : ℕ → Error
  refuses_steering : ℕ → Error
  steering_not_found : ℕ → Error
  item_not_found : ℕ → Error
  item_dismissed : ℕ → Error
  item_consumed : ℕ → Error
  candidate_not_found : ℕ → Error
  candidate_refuses : ℕ → Error
  already_routing : ℕ → Error
  subtask_not_found : ℕ → Error
  finding_not_found : ℕ → Error

-- An operation on the tables.
abbrev pub Op : Type 0 → Type 0
Op A = Exec Db Error A

-- `?` on a `TransitionError`
abbrev pub from_transition : Result TransitionError (Unit {0}) → Result Error (Unit {0})
from_transition (ok u) = ok u
from_transition (err (illegal from to)) = err (illegal_transition from to)

-- SQLite picks the key of a row that is inserted without one: an `INTEGER PRIMARY KEY` that no row
-- of the table has.
pub record Rowids : Type 0 where
  pub next : List ℕ → ℕ
  pub next_fresh : (ids : List ℕ) → contains ids (next ids) ≡ false

-- `Source::default_approval`
unfoldable pub default_approval : Source → Approval
default_approval human = approved
default_approval inbox = approved
default_approval agent = pending
default_approval routine = pending

unfoldable pub approval_eq : Approval → Approval → Bool
approval_eq pending pending = true
approval_eq approved approved = true
approval_eq dismissed dismissed = true
approval_eq _ _ = false

-- `WHERE id = ?`, on each table
abbrev pub has_issue_id : ℕ → Issue → Bool
has_issue_id id issue = issue.id == id

abbrev pub has_item_id : ℕ → BacklogItem → Bool
has_item_id id item = item.id == id

-- `consumed_issue_id = ?`, which NULL does not meet
abbrev pub is_consumed_by : ℕ → Option ℕ → Bool
is_consumed_by id none = false
is_consumed_by id (some issue_id) = issue_id == id
