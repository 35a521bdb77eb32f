-- ===== src/Runtime/Recovery.antt =====
-- Recovery at daemon startup: what it closes, and what it may do to an issue.
use auwsx.Common.{
  &&-true, All, All-Memᴰ, All-map, Bool-cases, List, Memᴰ, Option, Option-cases, Result, String,
  Text, [], any, ap, arith, codes, contains, false, filter, inl, inr, is_none, is_ok, is_some, map,
  none, ok, refl, some, subst, suc, sym, true, ℕ, ◌==◌, ◌||◌, ◌∙◌, ◌∷◌, ◌≡◌,
}
use auwsx.Common.Int.{ℤ}
use auwsx.Model.{AgentRun, ExitKind, error}
use auwsx.Store.Exec.{>>-ok, >>=-pure, pure, ◌>>=◌}
use auwsx.Store.Table.{
  All-filter, All-order_by, All-update, count_where, insert_by, order_by, update_where,
}
use auwsx.Store.Rows.{Db}
use auwsx.Store.Issues.{get_issue}
use auwsx.Runtime.{
  RuntimeError, World, close_run, fail_interrupted, finish_run, has_run_id, is_open_issue_run,
  list_open_issue_runs, recover_if_issue, recover_open_issue_runs, recover_run, recover_runs,
}

-- Every open run of an issue has one of the ids.
abbrev OpenAmong : List ℕ → List AgentRun → Type 0
OpenAmong ids runs =
    All (λ (run : AgentRun). is_open_issue_run run ≡ true → contains ids run.id ≡ true) runs

-- Each of the ids is that of a row.
abbrev HaveRows : List ℕ → List AgentRun → Type 0
HaveRows ids runs = All (λ id. (count_where (has_run_id id) runs == 0) ≡ false) ids

module _ (status_after : Option String) (code : Option ℤ) (kind : ExitKind) (at : ℕ)
    (note : Option Text) where
  close-count :
      (id closed : ℕ) (runs : List AgentRun)
      → count_where
          (has_run_id id)
          (update_where (has_run_id closed) (close_run status_after code kind at note) runs)
        ≡ count_where (has_run_id id) runs
  unfolding count_where update_where close_run
  close-count id closed [] = refl
  close-count id closed (run ∷ runs) = ground (arith, close-count id closed runs)

  close-OpenAmong :
      (id : ℕ) (ids : List ℕ) (runs : List AgentRun)
      → OpenAmong (id ∷ ids) runs
      → OpenAmong ids (update_where (has_run_id id) (close_run status_after code kind at note) runs)
  unfolding close_run contains any
  close-OpenAmong id ids runs h =
      All-update
        (λ (run : AgentRun). is_open_issue_run run ≡ true → contains (id ∷ ids) run.id ≡ true)
        (λ (run : AgentRun). is_open_issue_run run ≡ true → contains ids run.id ≡ true)
        (has_run_id id) (close_run status_after code kind at note) runs
        (λ run old hit opened. absurd (ground arith))
        (λ run old miss opened. ground (arith, old opened)) h

  close-HaveRows :
      (id : ℕ) (ids : List ℕ) (runs : List AgentRun)
      → HaveRows ids runs
      → HaveRows ids (update_where (has_run_id id) (close_run status_after code kind at note) runs)
  close-HaveRows id ids runs h =
      All-map (λ j. (count_where (has_run_id j) runs == 0) ≡ false)
        (λ j.
          (count_where (has_run_id j)
              (update_where (has_run_id id) (close_run status_after code kind at note) runs)
            == 0)
          ≡ false)
        ids (λ j old. rw (close-count j id runs) old) h

ids_of : List AgentRun → List ℕ
ids_of runs = map (λ (run : AgentRun). run.id) runs

abbrev AllClosed : List AgentRun → Type 0
AllClosed runs = All (λ (run : AgentRun). is_open_issue_run run ≡ false) runs

none_open : (runs : List AgentRun) → OpenAmong [] runs → AllClosed runs
unfolding contains any
none_open runs h =
    All-map (λ (run : AgentRun). is_open_issue_run run ≡ true → contains [] run.id ≡ true)
      (λ (run : AgentRun). is_open_issue_run run ≡ false) runs
      (λ run old. elim (Bool-cases (is_open_issue_run run)) [
        | inl e ↦ absurd (let clash : false ≡ true = old e in ground arith)
        | inr e ↦ e
      ])
      h

abbrev closing_note : Option Text
closing_note = some (codes "closed during daemon startup recovery")

-- A round for a run that has a row succeeds, closes the run, and touches no other run.
recover_run-ok :
    (now : ℕ) (run : AgentRun) (issue_id : ℕ) (w : World)
    → (count_where (has_run_id run.id) w.runs == 0) ≡ false
    → (after : Option String) × (db' : Db) × (recover_run now run issue_id w ≡ (
      ok tt,
      record w {
        db = db';
        runs =
            update_where (has_run_id run.id) (close_run after none error now closing_note) w.runs;
      },
    ))
unfolding recover_run finish_run
recover_run-ok now run issue_id w h = (
  (fail_interrupted issue_id now run (get_issue issue_id w.db) w.db).0,
  (fail_interrupted issue_id now run (get_issue issue_id w.db) w.db).1,
  rw h refl,
)

abbrev Recovered : Result RuntimeError ℕ × World → Type 0
Recovered p = (is_ok p.0 ≡ true) × AllClosed p.1.runs

recover_runs-AllClosed :
    (now : ℕ) (rest : List AgentRun) (w : World)
    → All (λ (run : AgentRun). is_some run.issue_id ≡ true) rest
    → OpenAmong (ids_of rest) w.runs
    → HaveRows (ids_of rest) w.runs
    → Recovered (recover_runs now rest w)
unfolding recover_runs ids_of
recover_runs-AllClosed now [] w owned opened have_rows = (refl, none_open w.runs opened)
recover_runs-AllClosed now (run ∷ rest) w owned opened have_rows =
    elim (Option-cases run.issue_id) [
      | inl e ↦ absurd (let clash : false ≡ true = rw e at owned.0 in ground arith)
      | inr (issue_id, e) ↦
          let (after, db', done_e) = recover_run-ok now run issue_id w have_rows.0 in
          let runs' =
            update_where (has_run_id run.id) (close_run after none error now closing_note) w.runs in
          let w' = record w { db = db'; runs = runs' } in
          let (same_ok, same_state) = >>=-pure suc (recover_runs now rest) w' in
          let ih =
            recover_runs-AllClosed now rest w' owned.1
              (close-OpenAmong after none error now closing_note run.id (ids_of rest) w.runs opened)
              (close-HaveRows after none error now closing_note run.id (ids_of rest) w.runs
                have_rows.1) in
          subst (λ o. Recovered (recover_if_issue now run o (recover_runs now rest) w)) (sym e)
            (subst Recovered
              (sym (
                >>-ok (recover_run now run issue_id) (recover_runs now rest >>= λ n. pure (suc n)) w
                  w' done_e))
              (same_ok ∙ ih.0, subst (λ (v : World). AllClosed v.runs) (sym same_state) ih.1))
    ]

contains-insert :
    (id : ℕ) (x : AgentRun) (ys : List AgentRun)
    → contains (ids_of (insert_by (λ run. run.id) x ys)) id
      ≡ (x.id == id || contains (ids_of ys) id)
unfolding contains any insert_by ids_of
contains-insert id x [] = refl
contains-insert id x (y ∷ ys) = ground (arith, contains-insert id x ys)

contains-order :
    (id : ℕ) (xs : List AgentRun)
    → contains (ids_of (order_by (λ run. run.id) xs)) id ≡ contains (ids_of xs) id
unfolding contains any order_by ids_of
contains-order id [] = refl
contains-order id (x ∷ xs) =
    contains-insert id x (order_by (λ run. run.id) xs)
    ∙ ap (λ b. x.id == id || b) (contains-order id xs)

contains-open :
    (run : AgentRun) (runs : List AgentRun)
    → Memᴰ run runs
    → is_open_issue_run run ≡ true
    → contains (ids_of (filter is_open_issue_run runs)) run.id ≡ true
unfolding contains any filter ids_of
contains-open run [] m h = elim m [ ]
contains-open run (x ∷ runs) (Memᴰ.head e) h = rw (← e, h) (ground arith)
contains-open run (x ∷ runs) (Memᴰ.tail m) h = elim (Bool-cases (is_open_issue_run x)) [
  | inl e ↦ rw e (ground (arith, contains-open run runs m h))
  | inr e ↦ rw e (contains-open run runs m h)
]

count-mem :
    (run : AgentRun) (runs : List AgentRun)
    → Memᴰ run runs
    → (count_where (has_run_id run.id) runs == 0) ≡ false
unfolding count_where
count-mem run [] m = elim m [ ]
count-mem run (x ∷ runs) (Memᴰ.head e) = rw (← e) (ground arith)
count-mem run (x ∷ runs) (Memᴰ.tail m) = ground (arith, count-mem run runs m)

All-ids :
    (P : ℕ → Type 0) (xs : List AgentRun)
    → All (λ (run : AgentRun). P run.id) xs
    → All P (ids_of xs)
unfolding ids_of
All-ids P [] h = tt
All-ids P (x ∷ xs) h = (h.0, All-ids P xs h.1)

-- what holds of every row that is open holds of every run that is listed
All-listed :
    (P : AgentRun → Type 0) (runs : List AgentRun)
    → ((run : AgentRun) → Memᴰ run runs → is_open_issue_run run ≡ true → P run)
    → All P (list_open_issue_runs runs)
unfolding list_open_issue_runs
All-listed P runs f =
    All-order_by P (λ run. run.id) (filter is_open_issue_run runs)
      (All-map
        (λ (run : AgentRun).
          (is_open_issue_run run ≡ true → P run) × (is_open_issue_run run ≡ true))
        P (filter is_open_issue_run runs) (λ run both. both.0 both.1)
        (All-filter (λ (run : AgentRun). is_open_issue_run run ≡ true → P run) is_open_issue_run
          runs (All-Memᴰ _ runs f)))

-- Recovery at startup always succeeds, and after it no run of an issue is open any more, whatever
-- the tables held.
pub recovery-AllClosed :
    (now : ℕ) (w : World)
    → (is_ok (recover_open_issue_runs now w).0 ≡ true)
      × All
          (λ (run : AgentRun). is_open_issue_run run ≡ false)
          (recover_open_issue_runs now w).1.runs
unfolding recover_open_issue_runs
recovery-AllClosed now w =
    recover_runs-AllClosed now (list_open_issue_runs w.runs) w
      (All-listed (λ run. is_some run.issue_id ≡ true) w.runs
        (λ run m opened. (&&-true (is_some run.issue_id) (is_none run.exited_at) opened).0))
      (All-Memᴰ _ w.runs (λ run m opened.
        unfold list_open_issue_runs in
        contains-order run.id (filter is_open_issue_run w.runs)
        ∙ contains-open run w.runs m opened))
      (All-ids (λ id. (count_where (has_run_id id) w.runs == 0) ≡ false)
        (list_open_issue_runs w.runs)
        (All-listed (λ run. (count_where (has_run_id run.id) w.runs == 0) ≡ false) w.runs
          (λ run m opened. count-mem run w.runs m)))
