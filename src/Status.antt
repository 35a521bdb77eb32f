-- ===== src/Status.antt =====
-- crates/auwsx-core/src/state.rs: the issue state machine. The proofs are in the modules below.
pub mod Wire
pub mod Classes
pub mod Transitions
pub mod Milestones
use auwsx.Common.{
  Bool, List, Option, Result, String, [], err, false, if◌then◌else◌, ok, true, ℕ, ◌==◌, ◌∷◌,
}
use auwsx.Common.Words.{match_word}

pub data IssueStatus : Type 0 where
  new planning plan_ready plan_blocked working reviewing fixing review_blocked : IssueStatus
  auditing ready_to_merge merging resolving_conflict conflict_blocked : IssueStatus
  done failed abandoned : IssueStatus

-- `==` of the derived `PartialEq`, through the position of a status in the declaration
abbrev pub status_index : IssueStatus → ℕ
status_index new = 0
status_index planning = 1
status_index plan_ready = 2
status_index plan_blocked = 3
status_index working = 4
status_index reviewing = 5
status_index fixing = 6
status_index review_blocked = 7
status_index auditing = 8
status_index ready_to_merge = 9
status_index merging = 10
status_index resolving_conflict = 11
status_index conflict_blocked = 12
status_index done = 13
status_index failed = 14
status_index abandoned = 15

unfoldable pub status_eq : IssueStatus → IssueStatus → Bool
status_eq a b = status_index a == status_index b

pub data SchedulerClass : Type 0 where
  actionable human_gated terminal : SchedulerClass

pub data ProgressLane : Type 0 where
  plan in_progress finalizing done_lane : ProgressLane

unfoldable pub as_str : IssueStatus → String
as_str new = "NEW"
as_str planning = "PLANNING"
as_str plan_ready = "PLAN_READY"
as_str plan_blocked = "PLAN_BLOCKED"
as_str working = "WORKING"
as_str reviewing = "REVIEWING"
as_str fixing = "FIXING"
as_str review_blocked = "REVIEW_BLOCKED"
as_str auditing = "AUDITING"
as_str ready_to_merge = "READY_TO_MERGE"
as_str merging = "MERGING"
as_str resolving_conflict = "RESOLVING_CONFLICT"
as_str conflict_blocked = "CONFLICT_BLOCKED"
as_str done = "DONE"
as_str failed = "FAILED"
as_str abandoned = "ABANDONED"

-- the arms of the `match` in `from_str`
abbrev pub status_words : List (String × IssueStatus)
status_words =
    ("NEW", new)
    ∷ ("PLANNING", planning)
    ∷ ("PLAN_READY", plan_ready)
    ∷ ("PLAN_BLOCKED", plan_blocked)
    ∷ ("WORKING", working)
    ∷ ("REVIEWING", reviewing)
    ∷ ("FIXING", fixing)
    ∷ ("REVIEW_BLOCKED", review_blocked)
    ∷ ("AUDITING", auditing)
    ∷ ("READY_TO_MERGE", ready_to_merge)
    ∷ ("MERGING", merging)
    ∷ ("RESOLVING_CONFLICT", resolving_conflict)
    ∷ ("CONFLICT_BLOCKED", conflict_blocked)
    ∷ ("DONE", done)
    ∷ ("FAILED", failed)
    ∷ ("ABANDONED", abandoned)
    ∷ []

unfoldable pub from_str : String → Option IssueStatus
unfolding match_word
from_str s = match_word status_words s

unfoldable pub scheduler_class : IssueStatus → SchedulerClass
scheduler_class new = actionable
scheduler_class planning = actionable
scheduler_class working = actionable
scheduler_class reviewing = actionable
scheduler_class fixing = actionable
scheduler_class auditing = actionable
scheduler_class merging = actionable
scheduler_class resolving_conflict = actionable
scheduler_class plan_ready = human_gated
scheduler_class plan_blocked = human_gated
scheduler_class review_blocked = human_gated
scheduler_class ready_to_merge = human_gated
scheduler_class conflict_blocked = human_gated
scheduler_class done = terminal
scheduler_class failed = terminal
scheduler_class abandoned = terminal

abbrev class_eq : SchedulerClass → SchedulerClass → Bool
class_eq actionable actionable = true
class_eq human_gated human_gated = true
class_eq terminal terminal = true
class_eq _ _ = false

unfoldable pub is_actionable : IssueStatus → Bool
unfolding scheduler_class
is_actionable s = class_eq (scheduler_class s) actionable

unfoldable pub is_human_gated : IssueStatus → Bool
unfolding scheduler_class
is_human_gated s = class_eq (scheduler_class s) human_gated

unfoldable pub is_terminal : IssueStatus → Bool
unfolding scheduler_class
is_terminal s = class_eq (scheduler_class s) terminal

unfoldable pub is_soft_gated : IssueStatus → Bool
is_soft_gated plan_ready = true
is_soft_gated _ = false

unfoldable pub accepts_queue_message : IssueStatus → Bool
accepts_queue_message new = true
accepts_queue_message planning = true
accepts_queue_message plan_ready = true
accepts_queue_message plan_blocked = true
accepts_queue_message working = true
accepts_queue_message reviewing = true
accepts_queue_message fixing = true
accepts_queue_message auditing = true
accepts_queue_message ready_to_merge = true
accepts_queue_message _ = false

unfoldable pub progress_lane : IssueStatus → ProgressLane
progress_lane new = plan
progress_lane planning = plan
progress_lane plan_ready = plan
progress_lane plan_blocked = plan
progress_lane working = in_progress
progress_lane reviewing = in_progress
progress_lane fixing = in_progress
progress_lane review_blocked = in_progress
progress_lane auditing = in_progress
progress_lane ready_to_merge = finalizing
progress_lane merging = finalizing
progress_lane resolving_conflict = finalizing
progress_lane conflict_blocked = finalizing
progress_lane done = done_lane
progress_lane failed = done_lane
progress_lane abandoned = done_lane

unfoldable pub needs_attention : IssueStatus → Bool
needs_attention plan_ready = true
needs_attention plan_blocked = true
needs_attention review_blocked = true
needs_attention ready_to_merge = true
needs_attention conflict_blocked = true
needs_attention failed = true
needs_attention _ = false

unfoldable pub is_archive_status : IssueStatus → Bool
unfolding is_terminal
is_archive_status s = is_terminal s

-- The targets that `is_legal_transition` lists for each source. FAILED and ABANDONED are among the
-- targets of every source that has any.
unfoldable pub is_legal_transition : IssueStatus → IssueStatus → Bool
is_legal_transition new planning = true
is_legal_transition new failed = true
is_legal_transition new abandoned = true
is_legal_transition planning plan_ready = true
is_legal_transition planning plan_blocked = true
is_legal_transition planning failed = true
is_legal_transition planning abandoned = true
is_legal_transition plan_ready working = true
is_legal_transition plan_ready planning = true
is_legal_transition plan_ready failed = true
is_legal_transition plan_ready abandoned = true
is_legal_transition plan_blocked planning = true
is_legal_transition plan_blocked failed = true
is_legal_transition plan_blocked abandoned = true
is_legal_transition working reviewing = true
is_legal_transition working failed = true
is_legal_transition working abandoned = true
is_legal_transition reviewing fixing = true
is_legal_transition reviewing auditing = true
is_legal_transition reviewing review_blocked = true
is_legal_transition reviewing failed = true
is_legal_transition reviewing abandoned = true
is_legal_transition fixing reviewing = true
is_legal_transition fixing review_blocked = true
is_legal_transition fixing failed = true
is_legal_transition fixing abandoned = true
is_legal_transition review_blocked fixing = true
is_legal_transition review_blocked auditing = true
is_legal_transition review_blocked failed = true
is_legal_transition review_blocked abandoned = true
is_legal_transition auditing ready_to_merge = true
is_legal_transition auditing fixing = true
is_legal_transition auditing failed = true
is_legal_transition auditing abandoned = true
is_legal_transition ready_to_merge working = true
is_legal_transition ready_to_merge merging = true
is_legal_transition ready_to_merge failed = true
is_legal_transition ready_to_merge abandoned = true
is_legal_transition merging done = true
is_legal_transition merging resolving_conflict = true
is_legal_transition merging conflict_blocked = true
is_legal_transition merging failed = true
is_legal_transition merging abandoned = true
is_legal_transition resolving_conflict merging = true
is_legal_transition resolving_conflict conflict_blocked = true
is_legal_transition resolving_conflict failed = true
is_legal_transition resolving_conflict abandoned = true
is_legal_transition conflict_blocked merging = true
is_legal_transition conflict_blocked resolving_conflict = true
is_legal_transition conflict_blocked failed = true
is_legal_transition conflict_blocked abandoned = true
is_legal_transition _ _ = false

pub data TransitionError : Type 0 where
  illegal : IssueStatus → IssueStatus → TransitionError

unfoldable pub check_transition : IssueStatus → IssueStatus → Result TransitionError (Unit {0})
unfolding is_legal_transition
check_transition from to = if is_legal_transition from to then ok tt else err (illegal from to)
