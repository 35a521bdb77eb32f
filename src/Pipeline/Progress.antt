-- ===== src/Pipeline/Progress.antt =====
-- The status that a phase leaves its issue in.
use mathlib.Core.Option.{some-injective}
use auwsx.Common.{
  &&-true, ==_iff, Bool, Bool-cases, List, Option, Result, String, Text, [], ap, arith, codes,
  eq_iff, false, if◌then◌else◌, inl, inr, is_some, none, ok, refl, some, str_eq, subst, sym, true,
  ℕ, ◌&&◌, ◌++◌, ◌==◌, ◌||◌, ◌∙◌, ◌∷◌, ◌≡◌, ◌≢◌,
}
use auwsx.Common.Int.{ℤ}
use auwsx.Status.{
  IssueStatus, abandoned, as_str, auditing, conflict_blocked, done, failed, fixing, is_actionable,
  is_legal_transition, merging, new, plan_blocked, plan_ready, planning, ready_to_merge,
  resolving_conflict, review_blocked, reviewing, status_eq, status_index, working,
}
use auwsx.Status.Wire.{as_str-from_str}
use auwsx.Model.{AgentRun, ExitKind, Issue, Role}
use auwsx.Store.Exec.{>>=-keeps, >>=-pure, continue, ◌>>=◌}
use auwsx.Store.Table.{count_where, find-update}
use auwsx.Store.Rows.{Db, Error, has_issue_id, issue_not_found}
use auwsx.Store.Issues.{get_issue, set_status, transition, update_issues, update_reports}
use auwsx.Store.Steering.{consume_ids, write_flag}
use auwsx.Runtime.{Action, RuntimeError, World, finish_run, has_run_id, on_db}
use auwsx.Pipeline.Runs.{set_phase_report, update_run}
use auwsx.Ipc.Moves.{StatusHolds, transition-get}
use auwsx.Pipeline.Closing.{ready-legal}
use auwsx.Pipeline.Finish.{
  AgentOutcome, Ports, Times, close_phase, finish_phase, mark_issue_failed, record_reports,
  report_phase, requeue_and_close, requeue_found, requeue_pending, settle, settle_status,
  settle_unchanged,
}

-- The status that a phase ends in, from the status that it started in, the status that its agent left,
-- and whether messages wait for the issue: an agent that left the status alone has failed, and an issue
-- that is ready to merge goes back to WORKING for its messages.
abbrev pub phase_result : IssueStatus → IssueStatus → Bool → IssueStatus
phase_result before left waiting =
    if status_eq left before
    then failed
    else (if waiting && status_eq left ready_to_merge then working else left)

-- the flag of the issue
abbrev pub is_waiting : ℕ → Db → Bool
is_waiting id db = elim (get_issue id db) [ none ↦ false | some x ↦ x.has_pending_steering ]

actionable-fails : (s : IssueStatus) → is_actionable s ≡ true → is_legal_transition s failed ≡ true
unfolding is_actionable is_legal_transition
actionable-fails done h = absurd (ground arith)
actionable-fails failed h = absurd (ground arith)
actionable-fails abandoned h = absurd (ground arith)
actionable-fails _ h = refl

as_str-injective : (a b : IssueStatus) → as_str a ≡ as_str b → a ≡ b
as_str-injective a b e =
    let parsed = (as_str-from_str (as_str b) a).1 e in
    let same = (as_str-from_str (as_str b) b).1 refl in some-injective a b (sym parsed ∙ same)

at_index : ℕ → IssueStatus
at_index n =
    if n == 0
    then new
    else (if n == 1
        then planning
        else (if n == 2
            then plan_ready
            else (if n == 3
                then plan_blocked
                else (if n == 4
                    then working
                    else (if n == 5
                        then reviewing
                        else (if n == 6
                            then fixing
                            else (if n == 7
                                then review_blocked
                                else (if n == 8
                                    then auditing
                                    else (if n == 9
                                        then ready_to_merge
                                        else (if n == 10
                                            then merging
                                            else (if n == 11
                                                then resolving_conflict
                                                else (if n == 12
                                                    then conflict_blocked
                                                    else (if n == 13
                                                        then done
                                                        else (if n == 14
                                                            then failed
                                                            else (abandoned)))))))))))))))

at_index-status_index : (s : IssueStatus) → at_index (status_index s) ≡ s
unfolding at_index
at_index-status_index new = refl
at_index-status_index planning = refl
at_index-status_index plan_ready = refl
at_index-status_index plan_blocked = refl
at_index-status_index working = refl
at_index-status_index reviewing = refl
at_index-status_index fixing = refl
at_index-status_index review_blocked = refl
at_index-status_index auditing = refl
at_index-status_index ready_to_merge = refl
at_index-status_index merging = refl
at_index-status_index resolving_conflict = refl
at_index-status_index conflict_blocked = refl
at_index-status_index done = refl
at_index-status_index failed = refl
at_index-status_index abandoned = refl

status_eq_same : (a b : IssueStatus) → status_eq a b ≡ true → a ≡ b
unfolding status_eq
status_eq_same a b e =
    let same : status_index a ≡ status_index b = (==_iff (status_index a) (status_index b)).0 e in
    sym (at_index-status_index a) ∙ ap at_index same ∙ at_index-status_index b

status_eq_refl : (a b : IssueStatus) → a ≡ b → status_eq a b ≡ true
unfolding status_eq
status_eq_refl a b e = (==_iff (status_index a) (status_index b)).1 (ap (λ s. status_index s) e)

-- the settled status, where it is no error, and what holds of the tables then
abbrev Settles :
    (World → Type 0) → Result RuntimeError (Option String × Option Text) × World → Type 0
Settles P p =
    (settled : Option String × Option Text) × (after : World) × (p ≡ (ok settled, after)) × P after

settle-same :
    (issue : Issue) (outcome : AgentOutcome) (now : ℕ) (w : World) (x : Issue)
    → is_actionable issue.status ≡ true
    → get_issue issue.id w.db ≡ some x
    → x.status ≡ issue.status
    → Settles (StatusHolds (λ s. s ≡ failed) issue.id) (settle_status issue outcome now w)
unfolding settle_status settle_unchanged mark_issue_failed
settle-same issue outcome now w x runnable found same =
    let e = (eq_iff (as_str x.status) (as_str issue.status)).1 (ap (λ s. as_str s) same) in
    rw (found, e)
      (
        _,
        _,
        refl,
        (
          set_status failed now x,
          (
            transition-get issue.id failed now w x found
                (rw same (actionable-fails issue.status runnable)),
            unfold set_status in refl,
          ),
        ),
      )

settle-other :
    (issue : Issue) (outcome : AgentOutcome) (now : ℕ) (w : World) (x : Issue)
    → get_issue issue.id w.db ≡ some x
    → x.status ≢ issue.status
    → Settles (λ after. after ≡ w) (settle_status issue outcome now w)
unfolding settle_status settle_unchanged
settle-other issue outcome now w x found differ =
    elim (Bool-cases (str_eq (as_str x.status) (as_str issue.status))) [
      | inl e ↦ absurd (
          differ (
            as_str-injective x.status issue.status
              ((eq_iff (as_str x.status) (as_str issue.status)).0 e)))
      | inr e ↦ rw (found, e) (_, _, refl, refl)
    ]

failed_stays :
    (b : Bool) → (if b && status_eq failed ready_to_merge then working else failed) ≡ failed
unfolding status_eq
failed_stays true = refl
failed_stays false = refl

update_run-keeps :
    (P : IssueStatus → Type 0) (run_id id : ℕ) (f : AgentRun → AgentRun) (w : World)
    → StatusHolds P id w
    → StatusHolds P id (update_run run_id f w).1
unfolding update_run
update_run-keeps P run_id id f w h =
    elim (Bool-cases (count_where (has_run_id run_id) w.runs == 0)) [
      | inl e ↦ rw e h
      | inr e ↦ rw e h
    ]

finish-keeps :
    (P : IssueStatus → Type 0) (run_id id : ℕ) (after : Option String) (code : Option ℤ)
    (kind : ExitKind) (now : ℕ) (reason : Option Text) (w : World)
    → StatusHolds P id w
    → StatusHolds P id (finish_run run_id after code kind now reason w).1
unfolding finish_run
finish-keeps P run_id id after code kind now reason w h =
    elim (Bool-cases (count_where (has_run_id run_id) w.runs == 0)) [
      | inl e ↦ rw e h
      | inr e ↦ rw e h
    ]

update_issues-keeps :
    (P : IssueStatus → Type 0) (id : ℕ) (f : Issue → Issue) (e : Error) (w : World)
    → ((x : Issue) → (f x).id ≡ x.id)
    → ((x : Issue) → (f x).status ≡ x.status)
    → StatusHolds P id w
    → StatusHolds P id (on_db (update_issues (has_issue_id id) f e) w).1
unfolding update_issues get_issue
update_issues-keeps P id f e w same_id same_status (x, (found, h)) =
    elim (Bool-cases (count_where (has_issue_id id) w.db.issues == 0)) [
      | inl c ↦ rw c (x, (found, h))
      | inr c ↦ rw c (
        f x,
        (
          find-update (has_issue_id id) f w.db.issues (λ y hit. ap (λ i. i == id) (same_id y) ∙ hit)
              found,
          subst P (sym (same_status x)) h,
        ),
      )
    ]

consume-keeps :
    (P : IssueStatus → Type 0) (id : ℕ) (ids : List ℕ) (now : ℕ) (w : World)
    → StatusHolds P id w
    → StatusHolds P id (settle (on_db (consume_ids id ids now)) w).1
unfolding consume_ids write_flag get_issue
consume-keeps P id [] now w h = h
consume-keeps P id (message ∷ ids) now w (x, (found, h)) =
    (_, (find-update (has_issue_id id) _ w.db.issues (λ y hit. hit) found, h))

reports-keeps :
    (ports : Ports) (times : Times) (P : IssueStatus → Type 0) (id : ℕ) (cwd : Text) (w : World)
    → StatusHolds P id w
    → StatusHolds P id (record_reports ports times id cwd w).1
unfolding record_reports update_reports
reports-keeps ports times P id cwd w h =
    elim (Bool-cases (
      is_some (ports.read_issue_report (cwd ++ codes "/.auwsx/plan.md"))
      || is_some (ports.read_issue_report (cwd ++ codes "/.auwsx/progress.md"))
      || is_some (ports.read_issue_report (cwd ++ codes "/.auwsx/human-verify.md")))) [
        | inl e ↦ rw e (update_issues-keeps P id _ (issue_not_found id) w (λ x. refl) (λ x. refl) h)
        | inr e ↦ rw e h
      ]

abbrev requeued : Issue → IssueStatus
requeued x =
    if x.has_pending_steering && status_eq x.status ready_to_merge then working else x.status

requeue-Holds :
    (id now : ℕ) (word : Option String) (w : World) (x : Issue)
    → get_issue id w.db ≡ some x
    → StatusHolds (λ s. s ≡ requeued x) id (requeue_pending id now word w).1
unfolding requeue_pending requeue_found
requeue-Holds id now word w x found =
    elim (Bool-cases (x.has_pending_steering && status_eq x.status ready_to_merge)) [
      | inl e ↦
          let (_, ready) = &&-true x.has_pending_steering (status_eq x.status ready_to_merge) e in
          let (_, same_state) =
            >>=-pure (λ (u : Unit {0}). some (as_str working)) (on_db (transition id working now))
              w in
          rw (found, e)
            (subst (StatusHolds (λ s. s ≡ working) id) (sym same_state) (
              set_status working now x,
              (
                transition-get id working now w x found (ready-legal x.status ready),
                unfold set_status in refl,
              ),
            ))
      | inr e ↦ rw (found, e) (x, (found, refl))
    ]

module _ (ports : Ports) (times : Times) (issue : Issue) (role : Role) (cwd : Text)
    (run_id : ℕ) where
  close-keeps :
      (P : IssueStatus → Type 0) (outcome : AgentOutcome) (word : Option String)
      (reason : Option Text) (w : World)
      → StatusHolds P issue.id w
      → StatusHolds P issue.id
          (close_phase ports times issue role cwd run_id outcome word reason w).1
  unfolding close_phase report_phase set_phase_report
  close-keeps P outcome word reason w h =
      let report = report_phase ports times issue role cwd run_id outcome reason in
      let reports = record_reports ports times issue.id cwd in
      let close : Unit {0} → Action (Unit {0}) =
        λ u. finish_run run_id word outcome.exit_code outcome.exit_kind times.finished_at reason in
      let h1 = update_run-keeps P run_id issue.id _ w h in
      let w1 = (report w).1 in
      let h2 = reports-keeps ports times P issue.id cwd w1 h1 in
      >>=-keeps (StatusHolds P issue.id) report (λ u. reports >>= close) w h1
        (λ u. >>=-keeps (StatusHolds P issue.id) reports close w1 h2 (λ v.
          finish-keeps P run_id issue.id word outcome.exit_code outcome.exit_kind times.finished_at
            reason (reports w1).1 h2))

  abbrev consumed : List ℕ → World → World
  consumed ids w = (settle (on_db (consume_ids issue.id ids times.consumed_at)) w).1

  requeue_and_close-Holds :
      (ids : List ℕ) (outcome : AgentOutcome) (settled : Option String × Option Text) (w : World)
      (x : Issue)
      → get_issue issue.id (consumed ids w).db ≡ some x
      → StatusHolds
          (λ s. s ≡ requeued x)
          issue.id
          (requeue_and_close ports times issue role cwd run_id ids outcome settled w).1
  unfolding requeue_and_close
  requeue_and_close-Holds ids outcome settled w x found =
      let P : IssueStatus → Type 0 = λ s. s ≡ requeued x in
      let requeue = requeue_pending issue.id times.requeued_at settled.0 in
      let w1 = consumed ids w in
      let h2 = requeue-Holds issue.id times.requeued_at settled.0 w1 x found in
      >>=-keeps (StatusHolds P issue.id) requeue
        (λ word. close_phase ports times issue role cwd run_id outcome word settled.1) w1 h2
        (λ word. close-keeps P outcome word settled.1 (requeue w1).1 h2)

  closed-Holds :
      (ids : List ℕ) (outcome : AgentOutcome) (settled : Option String × Option Text) (w : World)
      (left : IssueStatus)
      → StatusHolds (λ s. s ≡ left) issue.id w
      → (b : Bool) → (b ≡ is_waiting issue.id (consumed ids w).db)
      → StatusHolds
          (λ s. s ≡ (if b && status_eq left ready_to_merge then working else left))
          issue.id
          (requeue_and_close ports times issue role cwd run_id ids outcome settled w).1
  closed-Holds ids outcome settled w left h b waits =
      let (y, (found, is_left)) =
        consume-keeps (λ s. s ≡ left) issue.id ids times.consumed_at w h in
      let flag : b ≡ y.has_pending_steering =
        waits
        ∙ ap (λ (o : Option Issue). elim o [ none ↦ false | some z ↦ z.has_pending_steering ])
            found in
      let same : requeued y ≡ (if b && status_eq left ready_to_merge then working else left) =
        ap (λ t. if y.has_pending_steering && status_eq t ready_to_merge then working else t)
          is_left
        ∙ ap (λ c. if c && status_eq left ready_to_merge then working else left) (sym flag) in
      subst
        (λ t.
          StatusHolds (λ s. s ≡ t) issue.id
            (requeue_and_close ports times issue role cwd run_id ids outcome settled w).1)
        same (requeue_and_close-Holds ids outcome settled w y found)

  -- After the agent of a phase has run and its outbox was replayed, an issue that is still there is, if
  -- the phase started in an actionable status, in exactly this status: FAILED, if the agent left it in
  -- the status that the phase started in; else WORKING, if it was left in READY_TO_MERGE and messages
  -- wait for it once those that the agent was given are consumed; and else as the agent left it.
  pub finish_phase-IsResult :
      (ids : List ℕ) (outcome : AgentOutcome) (w : World) (x : Issue)
      → is_actionable issue.status ≡ true
      → get_issue issue.id w.db ≡ some x
      → StatusHolds
          (λ s.
            s
            ≡ phase_result issue.status x.status
                (is_waiting issue.id (consume_ids issue.id ids times.consumed_at w.db).1))
          issue.id
          (finish_phase ports times issue role cwd run_id ids outcome w).1
  unfolding finish_phase
  finish_phase-IsResult ids outcome w x runnable found =
      let waiting = is_waiting issue.id (consume_ids issue.id ids times.consumed_at w.db).1 in
      let result = phase_result issue.status x.status waiting in
      let rest = requeue_and_close ports times issue role cwd run_id ids outcome in
      let Holds : Result RuntimeError (Option String × Option Text) × World → Type 0 =
        λ p. StatusHolds (λ s. s ≡ result) issue.id (continue p.0 rest p.1).1 in
      elim (Bool-cases (status_eq x.status issue.status)) [
        | inl e ↦
            let (settled, after, is, h) =
              settle-same issue outcome times.unchanged_at w x runnable found
                (status_eq_same x.status issue.status e) in
            let flag = is_waiting issue.id (consumed ids after).db in
            let is_result : (if flag && status_eq failed ready_to_merge then working else failed)
                ≡ result =
              failed_stays flag ∙ rw e refl in
            subst Holds (sym is) (
              subst (λ t. StatusHolds (λ s. s ≡ t) issue.id (rest settled after).1) is_result
                (closed-Holds ids outcome settled after failed h flag refl))
        | inr e ↦
            let (settled, after, is, stands) =
              settle-other issue outcome times.unchanged_at w x found (λ same. absurd (
                let clash : true ≡ false = sym (status_eq_refl x.status issue.status same) ∙ e in
                ground arith)) in
            let is_result : (if waiting && status_eq x.status ready_to_merge
                  then working
                  else x.status)
                ≡ result =
              rw e refl in
            subst Holds (sym (is ∙ ap (λ v. (ok settled, v)) stands)) (
              subst (λ t. StatusHolds (λ s. s ≡ t) issue.id (rest settled w).1) is_result
                (closed-Holds ids outcome settled w x.status (x, (found, refl)) waiting refl))
      ]
