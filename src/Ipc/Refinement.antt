-- ===== src/Ipc/Refinement.antt =====
-- A replay, seen on the statuses alone, is a run of the state machine of the issue.
use auwsx.Common.{
  ==_iff, Bool, Bool-cases, List, Option, Result, Text, [], ap, arith, false, find, inl, inr,
  is_some, none, refl, some, ℕ, ◌==◌, ◌∙◌, ◌∷◌, ◌≡◌, ◌≢◌,
}
use auwsx.Status.{IssueStatus}
use auwsx.Status.Transitions.{here, move, step, ◌⟶*◌, ◌⟶◌}
use auwsx.Model.{Issue}
use auwsx.Store.Table.{count_where, find-count, update_none, update_where}
use auwsx.Store.Rows.{Rowids, has_issue_id}
use auwsx.Store.Issues.{get_issue}
use auwsx.LocalMerge.{LocalMergeOutcome, MergeError}
use auwsx.Control.Outbox.{Command, ControlSnapshot, Response}
use auwsx.Runtime.{Action, World}
use auwsx.Ipc.{replay}
use auwsx.Ipc.Replay.{replay-Within}
use auwsx.Ipc.Moves.{replay-holds}

-- the abstract state: which issues there are, and their statuses
abbrev pub status_of : Option Issue → Option IssueStatus
status_of none = none
status_of (some issue) = some issue.status

abbrev pub status_view : World → ℕ → Option IssueStatus
status_view w id = status_of (get_issue id w.db)

-- what a run of the state machine of one issue may do to a status
abbrev pub Runs : Option IssueStatus → Option IssueStatus → Type 0
Runs none none = Unit
Runs (some s) (some t) = s ⟶* t
Runs _ _ = ⊥

-- what it may do to the abstract state: this issue runs, the others stand still
abbrev pub RunsOnly : ℕ → (ℕ → Option IssueStatus) → (ℕ → Option IssueStatus) → Type 0
RunsOnly id before after =
    Runs (before id) (after id) × ((other : ℕ) → other ≢ id → after other ≡ before other)

append_move : (s t u : IssueStatus) → s ⟶* t → t ⟶ u → s ⟶* u
append_move s t u here m = step m here
append_move s t u (step first rest) m = step first (append_move _ t u rest m)

find-other :
    (id other : ℕ) (f : Issue → Issue) (xs : List Issue)
    → other ≢ id
    → ((x : Issue) → (f x).id ≡ x.id)
    → find (has_issue_id other) (update_where (has_issue_id id) f xs) ≡ find (has_issue_id other) xs
unfolding find update_where
find-other id other f [] differ keeps = refl
find-other id other f (x ∷ xs) differ keeps = elim (Bool-cases (has_issue_id id x)) [
  | inl e ↦
      let same = (==_iff x.id id).0 e in
      let not_other : (x.id == other) ≡ false = ground (arith, same, differ) in
      let not_other' : ((f x).id == other) ≡ false = ap (λ i. i == other) (keeps x) ∙ not_other in
      rw (e, not_other, not_other') (find-other id other f xs differ keeps)
  | inr e ↦ rw (e, find-other id other f xs differ keeps) refl
]

find-absent :
    (p : Issue → Bool) (f : Issue → Issue) (xs : List Issue)
    → find p xs ≡ none
    → find p (update_where p f xs) ≡ none
find-absent p f xs h =
    let absent = find-count p xs in
    let nothing : count_where p xs ≡ 0 =
      let q : is_some (find p xs) ≡ false = rw h refl in ground (arith, absent, q) in
    ap (find p) (update_none p f xs nothing) ∙ h

module _ (merge_outcome : Text → ℕ → Text → Result MergeError LocalMergeOutcome) (rowids : Rowids)
    (serve_other : ℕ → Action Response) (outbox : Option (List (ℕ × Command))) (id : ℕ)
    (seen : ControlSnapshot) (now : ℕ) (w : World) where
  after : World
  after = (replay merge_outcome rowids serve_other outbox id seen now w).1

  own-Runs :
      (found : Option Issue)
      → get_issue id w.db ≡ found
      → Runs (status_view w id) (status_view after id)
  unfolding after
  own-Runs none e =
      let absent : get_issue id after.db ≡ none =
        let (_, _, _, (_, _, _, _, _, (f, (keeps, issues)))) =
          replay-Within merge_outcome rowids serve_other outbox id seen now w in
        unfold get_issue in
        ap (find (has_issue_id id)) issues ∙ find-absent (has_issue_id id) f w.db.issues e in
      rw (e, absent) tt
  own-Runs (some x) e =
      let (y, (found_y, moved)) =
        replay-holds merge_outcome rowids serve_other (λ t. x.status ⟶* t)
          (λ s t run legal. append_move x.status s t run (move s t legal)) outbox id seen now w
          (x, (e, here)) in
      rw (e, found_y) moved

  other-stands : (other : ℕ) → other ≢ id → status_view after other ≡ status_view w other
  unfolding after get_issue
  other-stands other differ =
      let (_, _, _, (_, _, _, _, _, (f, (keeps, issues)))) =
        replay-Within merge_outcome rowids serve_other outbox id seen now w in
      ap status_of
        (ap (find (has_issue_id other)) issues ∙ find-other id other f w.db.issues differ keeps)

  -- A replay of an outbox refines the state machine of the statuses: the agent's own issue, if there
  -- is one, is afterwards in a status that legal moves lead to from the status before, it neither
  -- appears nor vanishes, and all other issues keep theirs, whatever the outbox holds.
  pub replay-RunsOnly :
      RunsOnly id
        (status_view w)
        (status_view (replay merge_outcome rowids serve_other outbox id seen now w).1)
  unfolding after
  replay-RunsOnly = (own-Runs (get_issue id w.db) refl, other-stands)
