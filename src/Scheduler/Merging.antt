-- ===== src/Scheduler/Merging.antt =====
-- One local merge a tick: MERGING issues share the primary worktree of the repository.
use auwsx.Scheduler.Order.{All-ordered}
use auwsx.Common.{
  ==_iff, All, All-Memᴰ, Bool, Bool-cases, List, Memᴰ, [], any, any_at, ap, arith, contains, false,
  if◌then◌else◌, inl, inr, refl, sym, true, ℕ, ◌&&◌, ◌++◌, ◌+◌, ◌==◌, ◌∙◌, ◌∷◌, ◌≡◌, ◌≤◌,
}
use auwsx.Status.{conflict_blocked, merging, status_eq}
use auwsx.Model.{Issue, Project, is_local, local}
use auwsx.Scheduler.{
  Decision, Slots, Tick, decide, decide_loop, decide_one, first_slots, ordered, soft_gate, spawn,
  teardown, tick_of,
}

-- Ids are the primary key of the table.
abbrev pub HasUniqueIds : List Issue → Type 0
HasUniqueIds issues = (a b : Issue) → Memᴰ a issues → Memᴰ b issues → a.id ≡ b.id → a ≡ b

-- whether the issue of this id is MERGING
abbrev pub is_merging_id : List Issue → ℕ → Bool
is_merging_id issues id = any (λ issue. (issue.id == id) && status_eq issue.status merging) issues

-- how many agents a list of decisions starts for MERGING issues
abbrev pub merge_spawns : (ℕ → Bool) → List Decision → ℕ
merge_spawns q [] = 0
merge_spawns q (spawn id ∷ ds) = (if q id then 1 else 0) + merge_spawns q ds
merge_spawns q (soft_gate id ∷ ds) = merge_spawns q ds
merge_spawns q (teardown id ∷ ds) = merge_spawns q ds

merge_spawns-append :
    (q : ℕ → Bool) (ds es : List Decision)
    → merge_spawns q (ds ++ es) ≡ merge_spawns q ds + merge_spawns q es
merge_spawns-append q [] es = omega arith
merge_spawns-append q (spawn id ∷ ds) es = omega (arith, merge_spawns-append q ds es)
merge_spawns-append q (soft_gate id ∷ ds) es = merge_spawns-append q ds es
merge_spawns-append q (teardown id ∷ ds) es = merge_spawns-append q ds es

-- what the merge slot still allows
abbrev room : Tick → Slots → ℕ
room t s = if t.local_merge_blocked then 0 else if s.local_merge_slot_taken then 0 else 1

decide_one-room :
    (q : ℕ → Bool) (t : Tick) (s : Slots) (issue : Issue)
    → is_local t.project.merge_mode ≡ true
    → q issue.id ≡ status_eq issue.status merging
    → merge_spawns q (decide_one t s issue).0 + room t (decide_one t s issue).1 ≡ room t s
unfolding decide_one
decide_one-room q t s issue h e = ground arith

decide_loop-room :
    (q : ℕ → Bool) (t : Tick) (s : Slots) (rest : List (ℕ × Issue))
    → is_local t.project.merge_mode ≡ true
    → All (λ p. q p.1.id ≡ status_eq p.1.status merging) rest
    → merge_spawns q (decide_loop t s rest) ≤ room t s
unfolding decide_loop
decide_loop-room q t s [] h e = omega arith
decide_loop-room q t s ((i, issue) ∷ rest) h e = omega (
  arith,
  decide_one-room q t s issue h e.0,
  decide_loop-room q t (decide_one t s issue).1 rest h e.1,
  merge_spawns-append q (decide_one t s issue).0 (decide_loop t (decide_one t s issue).1 rest),
)

-- With unique ids, the id of an issue tells whether the issue is MERGING.
no_other_merging :
    (x issue : Issue)
    → (x.id ≡ issue.id → x ≡ issue)
    → status_eq issue.status merging ≡ false
    → ((x.id == issue.id) && status_eq x.status merging) ≡ false
no_other_merging x issue u e = elim (Bool-cases (x.id == issue.id)) [
  | inl same ↦
      let p = ap (λ (y : Issue). status_eq y.status merging) (u ((==_iff _ _).0 same)) in
      ground (arith, p, e, same)
  | inr other ↦ ground (arith, other)
]

is_merging_id-false :
    (xs : List Issue) (issue : Issue)
    → ((x : Issue) → Memᴰ x xs → x.id ≡ issue.id → x ≡ issue)
    → status_eq issue.status merging ≡ false
    → is_merging_id xs issue.id ≡ false
unfolding any
is_merging_id-false [] issue u e = refl
is_merging_id-false (x ∷ xs) issue u e = ground (
  arith,
  no_other_merging x issue (u x (Memᴰ.head refl)) e,
  is_merging_id-false xs issue (λ y m. u y (Memᴰ.tail m)) e,
)

is_merging_id-eq :
    (issues : List Issue) (issue : Issue)
    → HasUniqueIds issues
    → Memᴰ issue issues
    → is_merging_id issues issue.id ≡ status_eq issue.status merging
is_merging_id-eq issues issue u m = elim (Bool-cases (status_eq issue.status merging)) [
  | inl e ↦
      any_at (λ x. (x.id == issue.id) && status_eq x.status merging) issues m (ground (arith, e))
      ∙ sym e
  | inr e ↦ is_merging_id-false issues issue (λ x at same. u x issue at m same) e ∙ sym e
]

-- In local mode, and with unique ids, the decisions of one tick start at most one agent for a MERGING
-- issue, and none while an issue of the project is CONFLICT_BLOCKED or while a MERGING issue already
-- has a live agent. What an operator starts beside the ticks is not part of this.
pub decide_one_merge :
    (issues : List Issue) (project : Project) (running : List ℕ) (now : ℕ)
    → HasUniqueIds issues
    → project.merge_mode ≡ local
    → merge_spawns (is_merging_id issues) (decide issues project running now) ≤ (
        if any (λ issue. status_eq issue.status conflict_blocked) issues
        then 0
        else if any (λ issue. status_eq issue.status merging && contains running issue.id) issues
        then 0
        else 1)
unfolding decide tick_of first_slots
decide_one_merge issues project running now u h = ground (
  arith,
  h,
  decide_loop-room (is_merging_id issues) (tick_of issues project running now)
      (first_slots issues project running) (ordered project issues) (rw h refl)
      (All-ordered (λ issue. is_merging_id issues issue.id ≡ status_eq issue.status merging) project
        issues
        (All-Memᴰ (λ issue. is_merging_id issues issue.id ≡ status_eq issue.status merging) issues
          (λ issue m. is_merging_id-eq issues issue u m))),
)
