-- ===== src/Scheduler/Sound.antt =====
-- What a decision of `decide` rests on, and which decisions it always makes.
use mathlib.Core.List.Memᴰ
use auwsx.Common.{
  All, All-Memᴰ, All-append, All-map, List, Memᴰ, [], arith, contains, false, is_some, refl, subst,
  true, ℕ, ◌∷◌, ◌≡◌, ◌⊎◌,
}
use auwsx.Status.{abandoned, done}
use auwsx.Model.{Issue, Project}
use auwsx.Scheduler.{
  Decision, Slots, Tick, decide, decide_loop, decide_one, first_slots, ordered, plan_phase,
  soft_gate, soft_gate_due, spawn, teardown, tick_of,
}
use auwsx.Scheduler.Order.{All-ordered, mem-ordered}

-- the issue that a decision is about, and why it may be taken
abbrev pub Grounds : Project → List ℕ → ℕ → Issue → Decision → Type 0
Grounds project running now issue (spawn id) =
    (issue.id ≡ id)
    × (is_some (plan_phase issue.status) ≡ true)
    × (contains running issue.id ≡ false)
Grounds project running now issue (soft_gate id) =
    (issue.id ≡ id) × (soft_gate_due issue project now ≡ true)
Grounds project running now issue (teardown id) =
    (issue.id ≡ id)
    × ((issue.status ≡ done) ⊎ (issue.status ≡ abandoned))
    × (is_some issue.worktree_path ≡ true)

abbrev pub IsJustified : List Issue → Project → List ℕ → ℕ → Decision → Type 0
IsJustified issues project running now d =
    (issue : Issue) × Memᴰ issue issues × Grounds project running now issue d

decide_one-Grounds :
    (t : Tick) (s : Slots) (issue : Issue)
    → All (Grounds t.project t.running t.now issue) (decide_one t s issue).0
unfolding decide_one plan_phase
decide_one-Grounds t s issue = ground arith

decide_loop-IsJustified :
    (issues : List Issue) (t : Tick) (s : Slots) (rest : List (ℕ × Issue))
    → All (λ p. Memᴰ p.1 issues) rest
    → All (IsJustified issues t.project t.running t.now) (decide_loop t s rest)
unfolding decide_loop
decide_loop-IsJustified issues t s [] h = tt
decide_loop-IsJustified issues t s ((i, issue) ∷ rest) h =
    All-append (IsJustified issues t.project t.running t.now) (decide_one t s issue).0
      (decide_loop t (decide_one t s issue).1 rest)
      (All-map (Grounds t.project t.running t.now issue)
        (IsJustified issues t.project t.running t.now) (decide_one t s issue).0
        (λ d g. (issue, h.0, g)) (decide_one-Grounds t s issue))
      (decide_loop-IsJustified issues t (decide_one t s issue).1 rest h.1)

-- Every decision is about one of the issues, and has its grounds: an agent is started only for an
-- issue that has a phase to run and no live agent, a soft gate is serviced only when it is due, and
-- a worktree is torn down only if it is there and its issue is DONE or ABANDONED (not FAILED).
pub decide_sound :
    (issues : List Issue) (project : Project) (running : List ℕ) (now : ℕ)
    → All (IsJustified issues project running now) (decide issues project running now)
unfolding decide tick_of
decide_sound issues project running now =
    decide_loop-IsJustified issues (tick_of issues project running now)
      (first_slots issues project running) (ordered project issues)
      (All-ordered (λ issue. Memᴰ issue issues) project issues
        (All-Memᴰ (λ issue. Memᴰ issue issues) issues (λ x m. m)))

-- A decision that an issue calls for whatever the slots is made.
decide_loop-complete :
    (d : Decision) (t : Tick) (s : Slots) (i : ℕ) (issue : Issue) (rest : List (ℕ × Issue))
    → ((s' : Slots) → Memᴰ d (decide_one t s' issue).0)
    → Memᴰ (i, issue) rest
    → Memᴰ d (decide_loop t s rest)
unfolding decide_loop
decide_loop-complete d t s i issue [] f m = elim m [ ]
decide_loop-complete d t s i issue ((j, x) ∷ rest) f (Memᴰ.head e) =
    Memᴰ.append_left (decide_loop t (decide_one t s x).1 rest)
      (subst (λ (p : ℕ × Issue). Memᴰ d (decide_one t s p.1).0) e (f s))
decide_loop-complete d t s i issue ((j, x) ∷ rest) f (Memᴰ.tail m) =
    Memᴰ.append_right (decide_one t s x).0
      (decide_loop-complete d t (decide_one t s x).1 i issue rest f m)

decide_one-gate :
    (t : Tick) (s : Slots) (issue : Issue)
    → soft_gate_due issue t.project t.now ≡ true
    → (decide_one t s issue).0 ≡ soft_gate issue.id ∷ []
unfolding decide_one
decide_one-gate t s issue h = ground arith

decide_one-teardown :
    (t : Tick) (s : Slots) (issue : Issue)
    → (issue.status ≡ done) ⊎ (issue.status ≡ abandoned)
    → is_some issue.worktree_path ≡ true
    → (decide_one t s issue).0 ≡ teardown issue.id ∷ []
unfolding decide_one
decide_one-teardown t s issue h w = ground arith

module _ (issues : List Issue) (project : Project) (running : List ℕ) (now : ℕ) where
  complete :
      (d : Decision) (issue : Issue)
      → Memᴰ issue issues
      → ((s : Slots) → (decide_one (tick_of issues project running now) s issue).0 ≡ d ∷ [])
      → Memᴰ d (decide issues project running now)
  unfolding decide
  complete d issue m f =
      let (i, at) = mem-ordered project issues m in
      decide_loop-complete d (tick_of issues project running now)
        (first_slots issues project running) i issue (ordered project issues)
        (λ s. rw (f s) (Memᴰ.head refl)) at

  -- No free slot is needed for the gates and the clean-up: each issue whose soft gate is due gets its
  -- gate serviced, and each DONE or ABANDONED issue with a worktree gets it torn down, whatever
  -- else the tick decides.
  pub decide_complete :
      (issue : Issue)
      → Memᴰ issue issues
      → (soft_gate_due issue project now ≡ true
          → Memᴰ (soft_gate issue.id) (decide issues project running now))
        × ((issue.status ≡ done) ⊎ (issue.status ≡ abandoned)
            → is_some issue.worktree_path ≡ true
            → Memᴰ (teardown issue.id) (decide issues project running now))
  decide_complete issue m = (
    λ h.
        complete (soft_gate issue.id) issue m
          (λ s. decide_one-gate (tick_of issues project running now) s issue (unfold tick_of in h)),
    λ e w.
        complete (teardown issue.id) issue m
          (λ s. decide_one-teardown (tick_of issues project running now) s issue e w),
  )
