-- ===== src/Tests/Core.antt =====
-- The theorems on the state machine and on the scheduling decision, at concrete inputs.
use Prim.Native.Nat.{min}
use auwsx.Common.{
  All, List, Memᴰ, Subseq, [], any, ap, arith, contains, false, if◌then◌else◌, is_some, length, not,
  refl, some, sym, true, ℕ, ◌&&◌, ◌-◌, ◌||◌, ◌↔◌, ◌∙◌, ◌∷◌, ◌≡◌, ◌≤◌, ◌⊎◌,
}
use auwsx.Common.Int.{pos, pos_part}
use auwsx.Status.{
  IssueStatus, abandoned, accepts_queue_message, as_str, auditing, conflict_blocked, done, failed,
  fixing, from_str, is_human_gated, is_legal_transition, is_soft_gated, is_terminal, merging,
  needs_attention, plan_ready, planning, ready_to_merge, reviewing, status_eq, working,
}
use auwsx.Status.Wire.{as_str-from_str}
use auwsx.Status.Classes.{attention-gates}
use auwsx.Status.Transitions.{terminal_or_live, ◌⟶*◌, ◌⟶◌}
use auwsx.Status.Milestones.{lifecycle_milestones}
use auwsx.Model.{Issue, local, pr}
use auwsx.Scheduler.{decide, soft_gate, soft_gate_due, teardown}
use auwsx.Scheduler.Bounds.{
  count_if, decide_concurrency, decide_work_conserving, is_idle, spawn_count,
}
use auwsx.Scheduler.Sound.{IsJustified, decide_complete, decide_sound}
use auwsx.Scheduler.Merging.{HasUniqueIds, decide_one_merge, is_merging_id, merge_spawns}
use auwsx.Tests.Fixtures.{demo_issue, demo_issues, demo_project}

as_str-from_str_example : (from_str "WORKING" ≡ some working) ↔ (as_str working ≡ "WORKING")
as_str-from_str_example = as_str-from_str "WORKING" working

attention-gates_example :
    (needs_attention failed ≡ (is_human_gated failed || status_eq failed failed))
    × ((is_soft_gated failed && not (is_human_gated failed)) ≡ false)
    × ((accepts_queue_message failed && is_terminal failed) ≡ false)
attention-gates_example = attention-gates failed

terminal_or_live_example :
    ((is_terminal working ≡ true) × ((t : IssueStatus) → is_legal_transition working t ≡ false))
    ⊎ ((is_terminal working ≡ false)
        × (working ⟶* done)
        × (working ⟶ failed)
        × (working ⟶ abandoned))
terminal_or_live_example = terminal_or_live working

abbrev straight_run : List IssueStatus
straight_run =
    planning ∷ plan_ready ∷ working ∷ reviewing ∷ fixing ∷ reviewing ∷ auditing ∷ ready_to_merge
    ∷ merging ∷ done ∷ []

lifecycle_milestones_example :
    Subseq
      (planning ∷ plan_ready ∷ working ∷ reviewing ∷ auditing ∷ ready_to_merge ∷ merging ∷ done
        ∷ [])
      straight_run
unfolding is_legal_transition
lifecycle_milestones_example = lifecycle_milestones straight_run refl refl

abbrev nine : List ℕ
nine = 9 ∷ []

decide_concurrency_example :
    spawn_count (decide demo_issues (demo_project pr) nine 50) ≤ pos_part (pos 3) - length nine
decide_concurrency_example = decide_concurrency demo_issues (demo_project pr) nine 50

decide_work_conserving_example :
    spawn_count (decide demo_issues (demo_project pr) nine 50)
    ≡ min (pos_part (pos 3) - length nine) (count_if (is_idle nine) demo_issues)
decide_work_conserving_example = decide_work_conserving demo_issues (demo_project pr) nine 50 refl

decide_sound_example :
    All
      (IsJustified demo_issues (demo_project local) [] 50)
      (decide demo_issues (demo_project local) [] 50)
decide_sound_example = decide_sound demo_issues (demo_project local) [] 50

decide_complete_example :
    (soft_gate_due (demo_issue 3 plan_ready) (demo_project local) 50 ≡ true
      → Memᴰ (soft_gate 3) (decide demo_issues (demo_project local) [] 50))
    × ((plan_ready ≡ done) ⊎ (plan_ready ≡ abandoned)
        → is_some (demo_issue 3 plan_ready).worktree_path ≡ true
        → Memᴰ (teardown 3) (decide demo_issues (demo_project local) [] 50))
decide_complete_example =
    decide_complete demo_issues (demo_project local) [] 50 (demo_issue 3 plan_ready)
      (Memᴰ.tail (Memᴰ.tail (Memᴰ.head refl)))

abbrev merging_pair : List Issue
merging_pair = demo_issue 1 merging ∷ demo_issue 2 merging ∷ []

unique_ids : HasUniqueIds merging_pair
unique_ids a b (Memᴰ.head e) (Memᴰ.head f) h = e ∙ sym f
unique_ids a b (Memᴰ.head e) (Memᴰ.tail (Memᴰ.head f)) h =
    absurd (omega (arith, h, ap (λ (x : Issue). x.id) e, ap (λ (x : Issue). x.id) f))
unique_ids a b (Memᴰ.tail (Memᴰ.head e)) (Memᴰ.head f) h =
    absurd (omega (arith, h, ap (λ (x : Issue). x.id) e, ap (λ (x : Issue). x.id) f))
unique_ids a b (Memᴰ.tail (Memᴰ.head e)) (Memᴰ.tail (Memᴰ.head f)) h = e ∙ sym f
unique_ids a b (Memᴰ.tail (Memᴰ.tail m)) _ h = elim m [ ]
unique_ids a b _ (Memᴰ.tail (Memᴰ.tail m)) h = elim m [ ]

decide_one_merge_example :
    merge_spawns (is_merging_id merging_pair) (decide merging_pair (demo_project local) [] 50) ≤ (
      if any (λ issue. status_eq issue.status conflict_blocked) merging_pair
      then 0
      else if any (λ issue. status_eq issue.status merging && contains [] issue.id) merging_pair
      then 0
      else 1)
decide_one_merge_example = decide_one_merge merging_pair (demo_project local) [] 50 unique_ids refl
