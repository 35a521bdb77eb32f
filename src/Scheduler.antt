-- ===== src/Scheduler.antt =====
-- crates/auwsx-core/src/scheduler.rs: the pure scheduling decision `decide`, and the soft gates.
-- `pipeline::plan_phase`, which the scheduler and the operator controls share, stands here too.
pub mod Bounds
pub mod Order
pub mod Sound
pub mod Merging
use auwsx.Common.{
  Bool, List, Option, [], any, contains, false, if◌then◌else◌, is_some, leb, length, ltb, none,
  some, suc, true, ℕ, ◌&&◌, ◌++◌, ◌-◌, ◌∷◌,
}
use auwsx.Common.Int.{pos_part}
use auwsx.Status.{
  IssueStatus, abandoned, actionable, auditing, conflict_blocked, done, fixing, human_gated,
  merging, new, plan_ready, planning, ready_to_merge, resolving_conflict, reviewing,
  scheduler_class, status_eq, terminal, working,
}
use auwsx.Model.{
  CompletionPolicy, Issue, Project, Role, auto, is_local, manual, plan_role, review, soft, work,
}

pub data Decision : Type 0 where
  spawn : ℕ → Decision
  soft_gate : ℕ → Decision
  teardown : ℕ → Decision

abbrev soft_or_auto : CompletionPolicy → Bool
soft_or_auto manual = false
soft_or_auto soft = true
soft_or_auto auto = true

releasable : IssueStatus → Project → Bool
releasable plan_ready project = true
releasable ready_to_merge project =
    is_local project.merge_mode && soft_or_auto project.completion_policy
releasable _ project = false

unfoldable pub soft_releasable : Issue → Project → Bool
unfolding releasable
soft_releasable issue project = releasable issue.status project

abbrev past : Option ℕ → ℕ → Bool
past none now = true
past (some w) now = leb w now

unfoldable pub soft_gate_due : Issue → Project → ℕ → Bool
unfolding soft_releasable
soft_gate_due issue project now =
    if soft_releasable issue project then past issue.wait_until now else false

-- `ordered.sort_by_key(…)`: the standard library's sort is stable, and so is this one. The key of a
-- MERGING issue is (0, id), that of any other (1, its position).
unfoldable pub sort_key_le : ℕ × Issue → ℕ × Issue → Bool
unfolding status_eq
sort_key_le (i, a) (j, b) =
    if status_eq a.status merging
    then (if status_eq b.status merging then leb a.id b.id else true)
    else (if status_eq b.status merging then false else leb i j)

unfoldable pub insert_sorted : ℕ × Issue → List (ℕ × Issue) → List (ℕ × Issue)
unfolding sort_key_le
insert_sorted x [] = x ∷ []
insert_sorted x (y ∷ ys) =
    let rest = insert_sorted x ys in if sort_key_le x y then x ∷ y ∷ ys else y ∷ rest

unfoldable pub sort_by_key : List (ℕ × Issue) → List (ℕ × Issue)
unfolding insert_sorted
sort_by_key [] = []
sort_by_key (x ∷ xs) = insert_sorted x (sort_by_key xs)

unfoldable pub enumerate : ℕ → List Issue → List (ℕ × Issue)
enumerate i [] = []
enumerate i (issue ∷ issues) = (i, issue) ∷ enumerate (suc i) issues

unfoldable pub ordered : Project → List Issue → List (ℕ × Issue)
unfolding enumerate sort_by_key
ordered project issues =
    if is_local project.merge_mode then sort_by_key (enumerate 0 issues) else enumerate 0 issues

-- what the loop of `decide` reads and does not change
pub record Tick : Type 0 where
  pub project : Project
  pub running : List ℕ
  pub now : ℕ
  pub local_merge_blocked : Bool

-- what the loop changes
pub record Slots : Type 0 where
  pub slots : ℕ
  pub local_merge_slot_taken : Bool

-- the branch of an actionable issue that has no live agent
unfoldable pub decide_spawn : Tick → Slots → Issue → List Decision × Slots
unfolding status_eq
decide_spawn t s issue =
    if ltb 0 s.slots
    then (if is_local t.project.merge_mode && status_eq issue.status merging
        then (if t.local_merge_blocked
            then ([], s)
            else (if s.local_merge_slot_taken then ([], s) else (
              spawn issue.id ∷ [],
              record { slots = s.slots - 1; local_merge_slot_taken = true },
            )))
        else (spawn issue.id ∷ [], record s { slots = s.slots - 1 }))
    else ([], s)

abbrev clears_worktree : IssueStatus → Bool
clears_worktree done = true
clears_worktree abandoned = true
clears_worktree _ = false

-- one round of the loop: the decision that it pushes, if any, and what it leaves
unfoldable pub decide_one : Tick → Slots → Issue → List Decision × Slots
unfolding scheduler_class decide_spawn soft_gate_due
decide_one t s issue = elim (scheduler_class issue.status) [
  | actionable ↦ if contains t.running issue.id then ([], s) else decide_spawn t s issue
  | human_gated ↦ (if soft_gate_due issue t.project t.now then soft_gate issue.id ∷ [] else [], s)
  | terminal ↦ (
    if clears_worktree issue.status && is_some issue.worktree_path
        then teardown issue.id ∷ []
        else [],
    s,
  )
]

unfoldable pub decide_loop : Tick → Slots → List (ℕ × Issue) → List Decision
unfolding decide_one
decide_loop t s [] = []
decide_loop t s ((_, issue) ∷ rest) =
    let (out, s') = decide_one t s issue in out ++ decide_loop t s' rest

-- `running` is a set, kept as the list of its members.
unfoldable pub first_slots : List Issue → Project → List ℕ → Slots
unfolding any contains status_eq
first_slots issues project running = record {
  slots = pos_part project.max_concurrency - length running;
  local_merge_slot_taken =
      is_local project.merge_mode
      && any (λ issue. status_eq issue.status merging && contains running issue.id) issues;
}

unfoldable pub tick_of : List Issue → Project → List ℕ → ℕ → Tick
unfolding any status_eq
tick_of issues project running now = record {
  project = project;
  running = running;
  now = now;
  local_merge_blocked =
      is_local project.merge_mode && any (λ issue. status_eq issue.status conflict_blocked) issues;
}

unfoldable pub decide : List Issue → Project → List ℕ → ℕ → List Decision
decide issues project running now =
    decide_loop (tick_of issues project running now) (first_slots issues project running)
      (ordered project issues)

-- pipeline.rs
unfoldable pub plan_phase : IssueStatus → Option (Role × Bool)
plan_phase new = some (plan_role, true)
plan_phase planning = some (plan_role, true)
plan_phase working = some (work, true)
plan_phase fixing = some (work, true)
plan_phase auditing = some (work, true)
plan_phase resolving_conflict = some (work, true)
plan_phase merging = some (work, true)
plan_phase reviewing = some (review, true)
plan_phase _ = none
