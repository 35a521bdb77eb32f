-- ===== src/Control/Outbox/Batch.antt =====
-- What an agent can leave in its outbox, and which batches the daemon replays.
use auwsx.Common.{
  Bool, Bool-cases, List, Result, [], all, arith, err, false, if◌then◌else◌, inl, inr, is_ok,
  length, not, ok, refl, subst, suc, true, zero, ℕ, ◌&&◌, ◌++◌, ◌+◌, ◌==◌, ◌||◌, ◌∙◌, ◌∷◌, ◌≡◌, ◌⊎◌,
}
use auwsx.Common.Outcome.{Result, err, is_ok, ok, ◌>>=◌}
use auwsx.Status.{IssueStatus, is_legal_transition, merging, status_eq}
use auwsx.Control.Outbox.{
  Command, ControlSnapshot, ReplayError, Response, add_finding, add_subtask, allowed_finding_ids,
  allowed_subtask_ids, append_or_refuse, apply_issue_merge, cannot_force, check_status_command,
  expect_one, get_issue_command, handle_local_command, illegal_status, is_recordable_for_issue,
  list_findings, list_steering, list_subtasks, merge_not_merging, normalize, ok_response, ping,
  respond, set_issue_status, validate_loop, validate_replay_commands,
}

-- the commands that change the status of the issue
abbrev pub is_status_command : Command → Bool
is_status_command (set_issue_status id status force) = true
is_status_command (apply_issue_merge id) = true
is_status_command _ = false

abbrev pub status_count : List (ℕ × Command) → ℕ
status_count [] = 0
status_count ((line, cmd) ∷ rest) = (if is_status_command cmd then 1 else 0) + status_count rest

-- whether a status command is one that the issue may take from the status of the snapshot
abbrev pub is_allowed_from : IssueStatus → Command → Bool
is_allowed_from from (set_issue_status id status force) =
    not force && is_legal_transition from status
is_allowed_from from (apply_issue_merge id) = status_eq from merging
is_allowed_from from _ = true

abbrev pub fits : ℕ → IssueStatus → List ℕ → List ℕ → ℕ × Command → Bool
fits issue_id from subtasks findings (line, cmd) =
    is_recordable_for_issue cmd issue_id subtasks findings && is_allowed_from from cmd

check_status_command-cases :
    (line : ℕ) (from : IssueStatus) (cmd : Command)
    → ((check_status_command line from cmd ≡ ok (is_status_command cmd))
        × (is_allowed_from from cmd ≡ true))
      ⊎ (((e : ReplayError) × (check_status_command line from cmd ≡ err e))
          × (is_allowed_from from cmd ≡ false))
unfolding check_status_command
check_status_command-cases line from (set_issue_status id status true) =
    inr ((cannot_force line, refl), refl)
check_status_command-cases line from (set_issue_status id status false) =
    elim (Bool-cases (is_legal_transition from status)) [
      | inl e ↦ inl (rw e refl, e)
      | inr e ↦ inr ((illegal_status line from status, rw e refl), e)
    ]
check_status_command-cases line from (apply_issue_merge id) =
    elim (Bool-cases (status_eq from merging)) [
      | inl e ↦ inl (rw e refl, e)
      | inr e ↦ inr ((merge_not_merging line, rw e refl), e)
    ]
check_status_command-cases line from ping = inl (refl, refl)
check_status_command-cases line from _ = inl (refl, refl)

abbrev OkWith {ℓ} : {E : Type ℓ} → Result E ℕ → ℕ → Bool → Type 0
OkWith (ok n) m passes = (n ≡ m) × (passes ≡ true)
OkWith (err e) m passes = passes ≡ false

validate_loop-lem :
    (issue_id : ℕ) (from : IssueStatus) (subtasks findings : List ℕ) (cmds : List (ℕ × Command))
    (count : ℕ)
    → OkWith
        (validate_loop issue_id from subtasks findings cmds count)
        (count + status_count cmds)
        (all (fits issue_id from subtasks findings) cmds)
unfolding validate_loop all
validate_loop-lem issue_id from subtasks findings [] count = (omega arith, refl)
validate_loop-lem issue_id from subtasks findings ((line, cmd) ∷ rest) count =
    elim (Bool-cases (is_recordable_for_issue cmd issue_id subtasks findings)) [
      | inr e ↦ rw e refl
      | inl e ↦ elim (check_status_command-cases line from cmd) [
        | inr ((_, failed_e), refused) ↦ rw (e, failed_e, refused) refl
        | inl (ok_e, allowed) ↦ elim (Bool-cases (is_status_command cmd)) [
          | inl s ↦
              rw (e, ok_e, allowed, s)
                (subst
                  (λ n.
                    OkWith (validate_loop issue_id from subtasks findings rest (suc count)) n
                      (all (fits issue_id from subtasks findings) rest))
                  (omega arith)
                  (validate_loop-lem issue_id from subtasks findings rest (suc count)))
          | inr s ↦
              rw (e, ok_e, allowed, s)
                (subst
                  (λ n.
                    OkWith (validate_loop issue_id from subtasks findings rest count) n
                      (all (fits issue_id from subtasks findings) rest))
                  (omega arith) (validate_loop-lem issue_id from subtasks findings rest count))
        ]
      ]
    ]

finish :
    (c : ℕ × Command) (rest : List (ℕ × Command)) (r : Result ReplayError ℕ) (m : ℕ) (b : Bool)
    → OkWith r m b
    → is_ok (r >>= expect_one (c ∷ rest)) ≡ (b && m == 1)
finish c rest (err e) m b h = rw h refl
finish c rest (ok zero) m b h = rw (← h.0, h.1) refl
finish c rest (ok (suc zero)) m b h = rw (← h.0, h.1) refl
finish c rest (ok (suc (suc n))) m b h = rw h.1 (rw (← h.0) (ground arith))

-- A batch is replayed exactly if it is empty, or every command of it is recordable for the issue and
-- allowed from the status of the snapshot, unforced, and exactly one of them changes the status.
pub validate-batch :
    (commands : List (ℕ × Command)) (issue_id : ℕ) (snapshot : ControlSnapshot)
    (subtasks findings : List ℕ)
    → is_ok (validate_replay_commands commands issue_id snapshot subtasks findings) ≡ (
        all (fits issue_id snapshot.issue.status subtasks findings) commands
        && (length commands == 0 || status_count commands == 1))
unfolding validate_replay_commands validate_loop all
validate-batch [] issue_id snapshot subtasks findings = refl
validate-batch (c ∷ rest) issue_id snapshot subtasks findings =
    finish c rest (validate_loop issue_id snapshot.issue.status subtasks findings (c ∷ rest) 0)
      (status_count (c ∷ rest))
      (all (fits issue_id snapshot.issue.status subtasks findings) (c ∷ rest))
      (subst
        (λ n.
          OkWith (validate_loop issue_id snapshot.issue.status subtasks findings (c ∷ rest) 0) n
            (all (fits issue_id snapshot.issue.status subtasks findings) (c ∷ rest)))
        (omega arith)
        (validate_loop-lem issue_id snapshot.issue.status subtasks findings (c ∷ rest) 0))
    ∙ ground arith

-- what a response may have done to the outbox
abbrev pub Recorded : ℕ → ControlSnapshot → List Command → Response × List Command → Type 0
Recorded issue_id snapshot outbox r =
    (r.1 ≡ outbox)
    ⊎ ((c : Command) × (r ≡ (ok_response, outbox ++ c ∷ []))
        × (is_recordable_for_issue c issue_id (allowed_subtask_ids snapshot)
              (allowed_finding_ids snapshot)
            ≡ true))

append_or_refuse-Recorded :
    (issue_id : ℕ) (snapshot : ControlSnapshot) (cmd : Command) (outbox : List Command)
    → Recorded issue_id snapshot outbox (append_or_refuse issue_id snapshot cmd outbox)
unfolding append_or_refuse
append_or_refuse-Recorded issue_id snapshot cmd outbox =
    elim (Bool-cases (
      is_recordable_for_issue cmd issue_id (allowed_subtask_ids snapshot)
        (allowed_finding_ids snapshot))) [
          | inl e ↦ inr (cmd, rw e refl, e)
          | inr e ↦ inl (rw e refl)
        ]

-- an arm that is for this issue only: it reads, or it records a recordable command
only_here :
    (issue_id id : ℕ) (snapshot : ControlSnapshot) (cmd : Command) (outbox : List Command)
    (r : Response × List Command)
    → ((id == issue_id) ≡ true → Recorded issue_id snapshot outbox r)
    → Recorded issue_id snapshot outbox
        (if id == issue_id then r else append_or_refuse issue_id snapshot cmd outbox)
only_here issue_id id snapshot cmd outbox r here = elim (Bool-cases (id == issue_id)) [
  | inl e ↦ rw e (here e)
  | inr e ↦ rw e (append_or_refuse-Recorded issue_id snapshot cmd outbox)
]

respond-Recorded :
    (issue_id : ℕ) (snapshot : ControlSnapshot) (cmd : Command) (outbox : List Command)
    → Recorded issue_id snapshot outbox (respond issue_id snapshot cmd outbox)
unfolding respond is_recordable_for_issue
respond-Recorded issue_id snapshot ping outbox = inl refl
respond-Recorded issue_id snapshot (get_issue_command id) outbox =
    only_here issue_id id snapshot (get_issue_command id) outbox _ (λ _. inl refl)
respond-Recorded issue_id snapshot (list_subtasks id) outbox =
    only_here issue_id id snapshot (list_subtasks id) outbox _ (λ _. inl refl)
respond-Recorded issue_id snapshot (list_findings id open_only) outbox =
    only_here issue_id id snapshot (list_findings id open_only) outbox _ (λ _. inl refl)
respond-Recorded issue_id snapshot (list_steering id pending_only) outbox =
    only_here issue_id id snapshot (list_steering id pending_only) outbox _ (λ _. inl refl)
respond-Recorded issue_id snapshot (add_subtask id ord text) outbox =
    only_here issue_id id snapshot (add_subtask id ord text) outbox _
      (λ e. inr (add_subtask id ord text, refl, e))
respond-Recorded issue_id snapshot (set_issue_status id status force) outbox =
    only_here issue_id id snapshot (set_issue_status id status force) outbox _
      (λ e. inr (set_issue_status id status force, refl, e))
respond-Recorded issue_id snapshot (apply_issue_merge id) outbox =
    only_here issue_id id snapshot (apply_issue_merge id) outbox _
      (λ e. inr (apply_issue_merge id, refl, e))
respond-Recorded issue_id snapshot (add_finding id round severity lens title detail file_ref)
      outbox =
    only_here issue_id id snapshot (add_finding id round severity lens title detail file_ref) outbox
      _ (λ e. inr (add_finding id round severity lens title detail file_ref, refl, e))
respond-Recorded issue_id snapshot cmd outbox =
    append_or_refuse-Recorded issue_id snapshot cmd outbox

-- Whatever an agent runs, its outbox stays as it was, or one command is appended that is recordable
-- for the issue, and then the answer is Ok.
pub handle_local_command-Recorded :
    (issue_id : ℕ) (snapshot : ControlSnapshot) (cmd : Command) (outbox : List Command)
    → Recorded issue_id snapshot outbox (handle_local_command issue_id snapshot cmd outbox)
unfolding handle_local_command
handle_local_command-Recorded issue_id snapshot cmd outbox =
    respond-Recorded issue_id snapshot (normalize snapshot cmd) outbox
