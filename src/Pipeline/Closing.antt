-- ===== src/Pipeline/Closing.antt =====
-- A phase whose agent was started closes its run.
use auwsx.Common.{
  &&-true, All, All-Memᴰ, Bool, Bool-cases, List, Option, Result, String, Text, [], any, ap, arith,
  codes, err, false, inl, inr, is_ok, is_some, map, none, not, ok, refl, some, subst, sym, true, ℕ,
  ◌&&◌, ◌++◌, ◌==◌, ◌||◌, ◌∙◌, ◌∷◌, ◌≡◌,
}
use auwsx.Common.Int.{ℤ}
use auwsx.Status.{
  IssueStatus, as_str, failed, is_legal_transition, ready_to_merge, status_eq, working,
}
use auwsx.Model.{AgentRun, ExitKind, Issue, Role, error}
use auwsx.Store.Exec.{
  >>=-Goes, >>=-after, >>=-keeps, >>=-pure, Goes, ensure, lift, raise, ◌>>=◌, ◌>>◌,
}
use auwsx.Store.Table.{All-update, count-update, count_where}
use auwsx.Store.Rows.{Rowids, Steering, has_issue_id}
use auwsx.Store.Issues.{get_issue, transition, update_issues, update_reports}
use auwsx.Store.Issues.Status.{transition-cases}
use auwsx.Store.Steering.{consume_ids, write_flag}
use auwsx.Control.Outbox.{ControlSnapshot, allowed_finding_ids, allowed_subtask_ids}
use auwsx.Runtime.{
  Action, RuntimeError, World, close_run, executor_failed, finish_run, has_run_id, on_db,
  replay_refused,
}
use auwsx.Ipc.{replay}
use auwsx.Ipc.Within.{Within, on_db-Within, transition-OpWithin}
use auwsx.Ipc.Replay.{replay-Within}
use auwsx.Pipeline.Runs.{set_phase_report, set_pid, update_run}
use auwsx.Pipeline.Finish.{
  AgentOutcome, AgentSpec, Ports, Times, check_responses, close_failed, close_phase, executor_note,
  finish_phase, is_refusal, mark_issue_failed, ran, record_pid, record_reports, replay_and_finish,
  replay_outbox, replayed, report_phase, requeue_and_close, requeue_found, requeue_pending,
  run_agent, settle, settle_status, settle_unchanged, status_word,
}

-- the run and the issue still have their rows
abbrev pub HasRows : ℕ → ℕ → World → Type 0
HasRows run_id issue_id w =
    ((count_where (has_run_id run_id) w.runs == 0) ≡ false)
    × ((count_where (has_issue_id issue_id) w.db.issues == 0) ≡ false)

-- the run is no longer open
abbrev pub RunClosed : ℕ → World → Type 0
RunClosed run_id w =
    All (λ (run : AgentRun). has_run_id run_id run ≡ true → is_some run.exited_at ≡ true) w.runs

Within-HasRows :
    (subtasks findings : List ℕ) (run_id id : ℕ) (before after : World)
    → Within subtasks findings id before after
    → HasRows run_id id before
    → HasRows run_id id after
Within-HasRows subtasks findings run_id id before after
      (_, runs, _, (_, _, _, _, _, (f, (keeps, issues)))) (has_run, has_issue) =
    (
      rw runs has_run,
      rw issues (
          ap (λ n. n == 0)
            (count-update (has_issue_id id) (has_issue_id id) f before.db.issues
              (λ x. ap (λ i. i == id) (keeps x)))
          ∙ has_issue),
    )

update_run-Goes :
    (run_id id : ℕ) (f : AgentRun → AgentRun) (w : World)
    → ((run : AgentRun) → (f run).id ≡ run.id)
    → HasRows run_id id w
    → Goes (HasRows run_id id) (update_run run_id f) w
unfolding update_run
update_run-Goes run_id id f w keeps (has_run, has_issue) = rw has_run (
  refl,
  (
    ap (λ n. n == 0)
          (count-update (has_run_id run_id) (has_run_id run_id) f w.runs
            (λ run. ap (λ i. i == run_id) (keeps run)))
        ∙ has_run,
    has_issue,
  ),
)

finish-Goes :
    (run_id id : ℕ) (after : Option String) (code : Option ℤ) (kind : ExitKind) (now : ℕ)
    (reason : Option Text) (w : World)
    → HasRows run_id id w
    → Goes (RunClosed run_id) (finish_run run_id after code kind now reason) w
unfolding finish_run close_run
finish-Goes run_id id after code kind now reason w (has_run, has_issue) = rw has_run (
  refl,
  All-update (λ run. Unit)
      (λ (run : AgentRun). has_run_id run_id run ≡ true → is_some run.exited_at ≡ true)
      (has_run_id run_id) (close_run after code kind now reason) w.runs (λ run h hit selected. refl)
      (λ run h miss hit. absurd (cc)) (All-Memᴰ _ w.runs (λ run m. tt)),
)

fail-HasRows :
    (run_id id : ℕ) (to : IssueStatus) (now : ℕ) (w : World)
    → HasRows run_id id w
    → HasRows run_id id (on_db (transition id to now) w).1
fail-HasRows run_id id to now w h =
    Within-HasRows [] [] run_id id w (on_db (transition id to now) w).1
      (on_db-Within [] [] id (transition id to now) w (transition-OpWithin [] [] id to now)) h

settle-HasRows :
    (run_id : ℕ) (issue : Issue) (outcome : AgentOutcome) (now : ℕ) (word : Option String)
    (same : Bool) (w : World)
    → HasRows run_id issue.id w
    → Goes (HasRows run_id issue.id) (settle_unchanged issue outcome now word same) w
unfolding settle_unchanged mark_issue_failed
settle-HasRows run_id issue outcome now word true w h =
    (refl, fail-HasRows run_id issue.id failed now w h)
settle-HasRows run_id issue outcome now word false w h = (refl, h)

status-HasRows :
    (run_id : ℕ) (issue : Issue) (outcome : AgentOutcome) (now : ℕ) (w : World)
    → HasRows run_id issue.id w
    → Goes (HasRows run_id issue.id) (settle_status issue outcome now) w
unfolding settle_status
status-HasRows run_id issue outcome now w h = settle-HasRows run_id issue outcome now _ _ w h

consume-HasRows :
    (run_id id : ℕ) (ids : List ℕ) (now : ℕ) (w : World)
    → HasRows run_id id w
    → Goes (HasRows run_id id) (settle (on_db (consume_ids id ids now))) w
unfolding consume_ids write_flag
consume-HasRows run_id id [] now w h = (refl, h)
consume-HasRows run_id id (message ∷ ids) now w (has_run, has_issue) = (
  refl,
  (
    has_run,
    ap (λ n. n == 0) (count-update (has_issue_id id) (has_issue_id id) _ w.db.issues (λ x. refl))
        ∙ has_issue,
  ),
)

pub ready-legal :
    (s : IssueStatus) → status_eq s ready_to_merge ≡ true → is_legal_transition s working ≡ true
unfolding status_eq is_legal_transition
ready-legal ready_to_merge h = refl
ready-legal _ h = absurd (ground arith)

-- the move of a waiting issue back to WORKING is legal
requeue_legal :
    (id now : ℕ) (w : World) (current : Issue)
    → get_issue id w.db ≡ some current
    → status_eq current.status ready_to_merge ≡ true
    → is_ok (on_db (transition id working now) w).0 ≡ true
requeue_legal id now w current found ready =
    rw (transition-cases id working now w.db, found, ready-legal current.status ready) refl

requeue-HasRows :
    (run_id id now : ℕ) (word : Option String) (w : World) (found : Option Issue)
    → get_issue id w.db ≡ found
    → HasRows run_id id w
    → Goes (HasRows run_id id) (requeue_found id now word found) w
unfolding requeue_found
requeue-HasRows run_id id now word w none e h = (refl, h)
requeue-HasRows run_id id now word w (some current) e h =
    elim (Bool-cases (current.has_pending_steering && status_eq current.status ready_to_merge)) [
      | inl both ↦
          let (_, ready) =
            &&-true current.has_pending_steering (status_eq current.status ready_to_merge) both in
          let (same_ok, same_state) =
            >>=-pure (λ (u : Unit {0}). some (as_str working)) (on_db (transition id working now))
              w in
          rw both (
            same_ok ∙ requeue_legal id now w current e ready,
            subst (HasRows run_id id) (sym same_state) (fail-HasRows run_id id working now w h),
          )
      | inr other ↦ rw other (refl, h)
    ]

reports-HasRows :
    (ports : Ports) (times : Times) (run_id id : ℕ) (cwd : Text) (w : World)
    → HasRows run_id id w
    → Goes (HasRows run_id id) (record_reports ports times id cwd) w
unfolding record_reports update_reports update_issues
reports-HasRows ports times run_id id cwd w (has_run, has_issue) =
    elim (Bool-cases (
      is_some (ports.read_issue_report (cwd ++ codes "/.auwsx/plan.md"))
      || is_some (ports.read_issue_report (cwd ++ codes "/.auwsx/progress.md"))
      || is_some (ports.read_issue_report (cwd ++ codes "/.auwsx/human-verify.md")))) [
        | inl e ↦
            rw (e, has_issue)
              (
                refl,
                (
                  has_run,
                  ap (λ n. n == 0)
                        (count-update (has_issue_id id) (has_issue_id id) _ w.db.issues (λ x. refl))
                      ∙ has_issue,
                ),
              )
        | inr e ↦ rw e (refl, (has_run, has_issue))
      ]

close_failed-RunClosed :
    (run_id id : ℕ) (code : Option ℤ) (describe : Result RuntimeError (Unit {0}) → Text)
    (e : RuntimeError) (now : ℕ) (w : World)
    → HasRows run_id id w
    → RunClosed run_id (close_failed run_id id code describe e now w).1
unfolding close_failed
close_failed-RunClosed run_id id code describe e now w h =
    let r = (on_db (transition id failed now) w).0 in
    let w' = (on_db (transition id failed now) w).1 in
    let word = status_word (get_issue id w'.db) in
    let (_, closed) =
      finish-Goes run_id id word code error now (some (describe r)) w'
        (fail-HasRows run_id id failed now w h) in
    let closing : Action (Unit {0}) = finish_run run_id word code error now (some (describe r)) in
    let pass_on : Unit {0} → Action (Unit {0}) = λ u. lift r in
    let stop_with : Unit {0} → Action (Unit {0}) = λ u. raise e in
    >>=-keeps (RunClosed run_id) (closing >>= pass_on) stop_with w'
      (>>=-keeps (RunClosed run_id) closing pass_on w' closed (λ u. closed))
      (λ u. >>=-keeps (RunClosed run_id) closing pass_on w' closed (λ v. closed))

module _ (ports : Ports) (times : Times) (issue : Issue) (role : Role) (cwd : Text)
    (run_id : ℕ) where
  close_phase-Goes :
      (outcome : AgentOutcome) (word : Option String) (reason : Option Text) (w : World)
      → HasRows run_id issue.id w
      → Goes
          (RunClosed run_id)
          (close_phase ports times issue role cwd run_id outcome word reason)
          w
  unfolding close_phase report_phase set_phase_report
  close_phase-Goes outcome word reason w h =
      let close =
        finish_run run_id word outcome.exit_code outcome.exit_kind times.finished_at reason in
      >>=-Goes (HasRows run_id issue.id) (RunClosed run_id)
        (report_phase ports times issue role cwd run_id outcome reason)
        (λ u. record_reports ports times issue.id cwd >> close) w
        (update_run-Goes run_id issue.id _ w (λ run. refl) h)
        (λ u w1 h1.
          >>=-Goes (HasRows run_id issue.id) (RunClosed run_id)
            (record_reports ports times issue.id cwd) (λ v. close) w1
            (reports-HasRows ports times run_id issue.id cwd w1 h1)
            (λ v w2 h2.
              finish-Goes run_id issue.id word outcome.exit_code outcome.exit_kind times.finished_at
                reason w2 h2))

  requeue_and_close-Goes :
      (ids : List ℕ) (outcome : AgentOutcome) (settled : Option String × Option Text) (w : World)
      → HasRows run_id issue.id w
      → Goes
          (RunClosed run_id)
          (requeue_and_close ports times issue role cwd run_id ids outcome settled)
          w
  unfolding requeue_and_close requeue_pending
  requeue_and_close-Goes ids outcome settled w h =
      let close : Option String → Action (Unit {0}) =
        λ word. close_phase ports times issue role cwd run_id outcome word settled.1 in
      >>=-Goes (HasRows run_id issue.id) (RunClosed run_id)
        (settle (on_db (consume_ids issue.id ids times.consumed_at)))
        (λ u. requeue_pending issue.id times.requeued_at settled.0 >>= close) w
        (consume-HasRows run_id issue.id ids times.consumed_at w h)
        (λ u w1 h1.
          >>=-Goes (HasRows run_id issue.id) (RunClosed run_id)
            (requeue_pending issue.id times.requeued_at settled.0) close w1
            (requeue-HasRows run_id issue.id times.requeued_at settled.0 w1
              (get_issue issue.id w1.db) refl h1)
            (λ word w2 h2. close_phase-Goes outcome word settled.1 w2 h2))

  -- The part of a phase below the replay always ends well, and closes the run.
  finish_phase-Goes :
      (ids : List ℕ) (outcome : AgentOutcome) (w : World)
      → HasRows run_id issue.id w
      → Goes (RunClosed run_id) (finish_phase ports times issue role cwd run_id ids outcome) w
  unfolding finish_phase
  finish_phase-Goes ids outcome w h =
      >>=-Goes (HasRows run_id issue.id) (RunClosed run_id)
        (settle_status issue outcome times.unchanged_at)
        (requeue_and_close ports times issue role cwd run_id ids outcome) w
        (status-HasRows run_id issue outcome times.unchanged_at w h)
        (λ settled w1 h1. requeue_and_close-Goes ids outcome settled w1 h1)

  replayed-RunClosed :
      (ids : List ℕ) (outcome : AgentOutcome) (r : Result RuntimeError (Unit {0})) (w : World)
      → HasRows run_id issue.id w
      → RunClosed run_id (replayed ports times issue role cwd run_id ids outcome r w).1
  unfolding replayed
  replayed-RunClosed ids outcome (ok u) w h = (finish_phase-Goes ids outcome w h).1
  replayed-RunClosed ids outcome (err e) w h =
      close_failed-RunClosed run_id issue.id outcome.exit_code (λ r. ports.describe e) e
        times.failed_at w h

  pid-HasRows :
      (pid : Option ℕ) (w : World)
      → HasRows run_id issue.id w
      → Goes (HasRows run_id issue.id) (record_pid ports times run_id pid) w
  unfolding record_pid set_pid
  pid-HasRows none w h = (refl, h)
  pid-HasRows (some pid) w h = update_run-Goes run_id issue.id _ w (λ run. refl) h

  ensure-HasRows :
      (b : Bool) (e : RuntimeError) (w : World)
      → HasRows run_id issue.id w
      → HasRows run_id issue.id (ensure b e w).1
  ensure-HasRows true e w h = h
  ensure-HasRows false e w h = h

  module _ (rowids : Rowids) (seen : ControlSnapshot) where
    replay-HasRows :
        (w : World)
        → HasRows run_id issue.id w
        → HasRows run_id issue.id (replay_outbox ports times rowids issue.id seen cwd w).1
    unfolding replay_outbox check_responses
    replay-HasRows w h =
        let after =
          Within-HasRows (allowed_subtask_ids seen) (allowed_finding_ids seen) run_id issue.id w
            (replay ports.merge_outcome rowids ports.serve_other (ports.outbox cwd) issue.id seen
              times.replayed_at w).1
            (replay-Within ports.merge_outcome rowids ports.serve_other (ports.outbox cwd) issue.id
              seen times.replayed_at w)
            h in
        let served =
          replay ports.merge_outcome rowids ports.serve_other (ports.outbox cwd) issue.id seen
            times.replayed_at in
        >>=-keeps (HasRows run_id issue.id) served check_responses w after (λ responses.
          ensure-HasRows (not (any is_refusal responses)) replay_refused (served w).1 after)

    ran-RunClosed :
        (r : Result Text AgentOutcome) (w : World)
        → HasRows run_id issue.id w
        → RunClosed run_id (ran ports times rowids issue role cwd seen run_id r w).1
    unfolding ran replay_and_finish
    ran-RunClosed (err text) w h =
        close_failed-RunClosed run_id issue.id none (executor_note ports.describe text)
          (executor_failed text) times.failed_at w h
    ran-RunClosed (ok outcome) w h =
        >>=-after (HasRows run_id issue.id) (RunClosed run_id)
          (record_pid ports times run_id outcome.pid)
          (λ u. replay_and_finish ports times rowids issue role cwd seen run_id outcome) w
          (pid-HasRows outcome.pid w h)
          (λ u w1 h1.
            replayed-RunClosed (map (λ (s : Steering). s.id) seen.steering) outcome
              (replay_outbox ports times rowids issue.id seen cwd w1).0
              (replay_outbox ports times rowids issue.id seen cwd w1).1 (replay-HasRows w1 h1))

    -- Once the agent of a phase was started, its run is closed, however the agent ends and whatever
    -- is in its outbox, if the rows of the run and of the issue are still there when the agent ends.
    pub run_agent-RunClosed :
        (spec : AgentSpec) (w : World)
        → HasRows run_id issue.id (ports.executor spec w).1
        → RunClosed run_id (run_agent ports times rowids issue role cwd seen run_id spec w).1
    unfolding run_agent
    run_agent-RunClosed spec w h =
        ran-RunClosed (ports.executor spec w).0 (ports.executor spec w).1 h
