-- ===== src/Scheduler/Bounds.antt =====
-- How many agents one call of `decide` starts.
use Prim.Native.Nat.{min}
use auwsx.Common.{
  Bool, List, [], arith, contains, false, if◌then◌else◌, length, not, refl, suc, ℕ, ◌&&◌, ◌++◌, ◌+◌,
  ◌-◌, ◌∷◌, ◌≡◌, ◌≤◌,
}
use auwsx.Common.Int.{pos_part}
use auwsx.Model.{Issue, Project, is_local, pr}
use auwsx.Status.{is_actionable}
use auwsx.Scheduler.{
  Decision, Slots, Tick, decide, decide_loop, decide_one, enumerate, first_slots, ordered,
  soft_gate, spawn, teardown, tick_of,
}

-- how many spawns a list of decisions holds
abbrev pub spawn_count : List Decision → ℕ
spawn_count [] = 0
spawn_count (spawn id ∷ ds) = suc (spawn_count ds)
spawn_count (soft_gate id ∷ ds) = spawn_count ds
spawn_count (teardown id ∷ ds) = spawn_count ds

spawn_count-append :
    (ds es : List Decision) → spawn_count (ds ++ es) ≡ spawn_count ds + spawn_count es
spawn_count-append [] es = omega arith
spawn_count-append (spawn id ∷ ds) es = omega (arith, spawn_count-append ds es)
spawn_count-append (soft_gate id ∷ ds) es = spawn_count-append ds es
spawn_count-append (teardown id ∷ ds) es = spawn_count-append ds es

-- A round pays one slot for each agent that it starts.
decide_one-slots :
    (t : Tick) (s : Slots) (issue : Issue)
    → spawn_count (decide_one t s issue).0 + (decide_one t s issue).1.slots ≡ s.slots
unfolding decide_one
decide_one-slots t s issue = ground arith

decide_loop-slots :
    (t : Tick) (s : Slots) (rest : List (ℕ × Issue)) → spawn_count (decide_loop t s rest) ≤ s.slots
unfolding decide_loop
decide_loop-slots t s [] = omega arith
decide_loop-slots t s ((i, issue) ∷ rest) = omega (
  arith,
  decide_one-slots t s issue,
  decide_loop-slots t (decide_one t s issue).1 rest,
  spawn_count-append (decide_one t s issue).0 (decide_loop t (decide_one t s issue).1 rest),
)

-- `decide` starts at most as many agents as there are free slots, `max_concurrency` less those that
-- run already; it starts none if the setting is negative or the running agents fill it.
pub decide_concurrency :
    (issues : List Issue) (project : Project) (running : List ℕ) (now : ℕ)
    → spawn_count (decide issues project running now)
      ≤ pos_part project.max_concurrency - length running
unfolding decide first_slots
decide_concurrency issues project running now =
    decide_loop-slots (tick_of issues project running now) (first_slots issues project running)
      (ordered project issues)

-- an actionable issue with no live agent
abbrev pub is_idle : List ℕ → Issue → Bool
is_idle running issue = is_actionable issue.status && not (contains running issue.id)

abbrev pub count_if {ℓ} : {A : Type ℓ} → (A → Bool) → List A → ℕ
count_if p [] = 0
count_if p (x ∷ xs) = (if p x then 1 else 0) + count_if p xs

decide_one-pr :
    (t : Tick) (s : Slots) (issue : Issue)
    → is_local t.project.merge_mode ≡ false
    → spawn_count (decide_one t s issue).0 ≡ (if is_idle t.running issue then min s.slots 1 else 0)
unfolding decide_one is_actionable
decide_one-pr t s issue h = ground arith

decide_loop-pr :
    (t : Tick) (s : Slots) (i : ℕ) (issues : List Issue)
    → is_local t.project.merge_mode ≡ false
    → spawn_count (decide_loop t s (enumerate i issues))
      ≡ min s.slots (count_if (is_idle t.running) issues)
unfolding decide_loop enumerate
decide_loop-pr t s i [] h = omega arith
decide_loop-pr t s i (issue ∷ issues) h = ground (
  arith,
  decide_one-pr t s issue h,
  decide_one-slots t s issue,
  decide_loop-pr t (decide_one t s issue).1 (suc i) issues h,
  spawn_count-append (decide_one t s issue).0
      (decide_loop t (decide_one t s issue).1 (enumerate (suc i) issues)),
)

ordered-pr :
    (project : Project) (issues : List Issue)
    → project.merge_mode ≡ pr
    → ordered project issues ≡ enumerate 0 issues
unfolding ordered
ordered-pr project issues h = ground arith

-- In pull-request mode no slot stays empty while work waits: `decide` starts an agent for as many
-- actionable issues without one as there are free slots, or for all of them.
pub decide_work_conserving :
    (issues : List Issue) (project : Project) (running : List ℕ) (now : ℕ)
    → project.merge_mode ≡ pr
    → spawn_count (decide issues project running now)
      ≡ min (pos_part project.max_concurrency - length running) (count_if (is_idle running) issues)
unfolding decide tick_of first_slots
decide_work_conserving issues project running now h = rw (ordered-pr project issues h) (
    decide_loop-pr (tick_of issues project running now) (first_slots issues project running) 0
      issues (unfold tick_of in rw h refl))
