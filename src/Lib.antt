-- ===== src/Lib.antt =====
-- A model of auwsx, a local daemon that drives coding agents through an issue pipeline, and the
-- theorems that make its core correct. All paths are below crates/auwsx-core/src.
--
-- The program. A project has backlog items and issues. A backlog item passes an admission gate and
-- is routed: it becomes a NEW issue or a queue message of an issue that is under way. The scheduler
-- ticks a project: the pure `decide` picks the issues to start an agent for, the soft gates to
-- service and the worktrees to tear down. An agent works in a worktree and leaves control commands
-- in an outbox, which the daemon checks and replays. Everything that lasts is in SQLite tables.
--
-- The parts and their files:
--   Common      shared names, Boolean tests, lists, texts, signed integers, results.
--   Status      state.rs: `IssueStatus`, its classes and words, `is_legal_transition`. Below it
--               Wire (words), Classes (predicates), Transitions (reachability), Milestones (runs).
--   Model       the rows `Issue` (db/issues.rs), `Project` (db/projects.rs), `AgentRun` and `Role`
--               (db/agent_runs.rs), `ExitKind` (agent/mod.rs), and the words of their columns.
--   Scheduler   scheduler.rs: `decide`, `soft_releasable`, `soft_gate_due`; pipeline.rs:
--               `plan_phase`. The loop of `decide` is `decide_loop`, its body `decide_one`. Below it
--               Bounds, Merging, Sound (and the lemmas of Order on the sort).
--   Cron        schedule.rs: `Field` and `CronSpec`. `next_after` is `first_candidate` and `next_from`,
--               whose loop is `scan`, over the fixed number of minutes of the code. Below it Fields
--               and Steps (reading a step field) and Scan (the search).
--   Schedule    schedule.rs: the rest, from the typed text to `is_due` and `next_due_ms`. Below it Due
--               and Days (the shorthand for days).
--   Store       the tables `Db` and the functions that write them. Exec is `Result` with a state,
--               Table the SQL statements, Rows the rows, Issues db/issues.rs, Steering steering.rs,
--               Backlog backlog.rs, Routing routing.rs, Subtasks
--               db/subtasks.rs, Findings db/findings.rs. `transaction` is `begin` to `commit`.
--   LocalMerge  local_merge.rs: `merge_issue_branch` over the commands of git. Below it Stash.
--   Control     Outbox is control_outbox.rs with the commands of ipc.rs that an agent may use, Plans
--               is issue_control.rs.
--   Runtime     scheduler.rs: the methods of `Scheduler` that service gates, release, start, retry,
--               abandon and remove issues, and recover interrupted runs; `finish` and the lists of
--               db/agent_runs.rs.
--   Ipc         ipc.rs: `dispatch_inner` on the commands of an issue agent, `apply_issue_merge`
--               (`apply_merge`); control_outbox.rs: `replay`. Below it Notes, Within, Replay (what a
--               replay may touch), Moves and Refinement (what it does to statuses).
--   Pipeline    pipeline.rs: `execute` up to the spawn; Finish is the rest of it, Runs the writes of
--               db/agent_runs.rs. What git, the files and the agent do in a phase is the record
--               `Ports`, the readings of the clock are `Times`. Below it Closing
--               and Progress.
--   Reconcile   reconcile.rs: `diagnose_issue`, cut at its calls of git, and `validate_agent_action`, both
--               in Diagnosis; the calls are in Reconcile. Below it Sound and Proposals.
--   RemotePlan  remote_plan.rs: `plan_issue_remote_workflow`, whose three parts are joined in place of a
--               plan that is pushed to; the rows are those of db/remote.rs. Below it Sound, Inbound (which
--               comments start work) and Commands.
--   Tests       concrete inputs (Fixtures) and the theorems applied to them.
--
-- How the state is modelled. A function that runs statements takes the tables and gives a result and
-- the tables, also after an error, since what was written before the error stays. A table is the
-- list of its rows, in the order of insertion. Ids, counters and epoch milliseconds are native
-- numbers; settings that the code tests for a sign are integers. The times are far from the ends of
-- `i64`, so its overflow is not modelled. A text is the list of its code points. The error values
-- keep the kind of an error and what it names, not its text. Loops are structural recursion on the
-- list that the code loops over. Fuel is used where the code loops on numbers: the cron search has the
-- bound of the code, a step loop one round more than the highest value of the field, and a decimal of
-- a machine integer has at most 20 digits; saturation of `i64` and `u32` is written out there.
--
-- What is a parameter: the local time of a timestamp (`local`), the row id that SQLite picks
-- (`Rowids`, with the law that it is fresh), whether git removes a worktree (`teardown`), the ports of
-- a phase and the readings of the clock (`Ports`, `Times`); in LocalMerge the effect of a git command
-- (`git`), with the documented effect on the stash as laws;
-- in Reconcile, which only reads, what git answers. The database is taken to be reachable: an
-- error of sqlx itself is not modelled. `HashSet`s of ids are lists that are only asked for
-- membership, and `running` for its length.
--
-- What is not modelled: the agent subprocesses, the text of prompts, git and worktrees, log lines and
-- events, the semantic router with its agent and duplicate score, the rest of the reconciler, routines and main
-- jobs, the execution of the remote plan, sockets and user interfaces; the CRUD of the other tables, reading and
-- writing the outbox file, and the other commands of ipc.rs.
pub mod Common
pub mod Status
pub mod Model
pub mod Scheduler
pub mod Cron
pub mod Schedule
pub mod Store
pub mod LocalMerge
pub mod Control
pub mod Runtime
pub mod Ipc
pub mod Pipeline
pub mod Reconcile
pub mod RemotePlan
pub mod Tests
