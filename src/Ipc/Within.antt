-- ===== src/Ipc/Within.antt =====
-- What the commands of an issue agent may touch.
use auwsx.Common.{
  Bool, Bool-cases, List, Option, Result, Text, [], ap, false, if◌then◌else◌, inl, inr, none, refl,
  some, sym, true, ℕ, ◌==◌, ◌∙◌, ◌∷◌, ◌≡◌,
}
use auwsx.Status.{IssueStatus, check_transition, conflict_blocked, done, merging, status_eq}
use auwsx.Model.{Issue, Project, is_local}
use auwsx.Store.Exec.{>>=-keeps, ensure, lift, pure, ◌>>=◌, ◌>>◌}
use auwsx.Store.Table.{count_where, update_where}
use auwsx.Store.Rows.{
  Db, Error, Finding, Op, Subtask, from_transition, has_issue_id, issue_not_found,
}
use auwsx.Store.Issues.{
  current_status, force_status, set_status, transition, update_issues, write_status,
}
use auwsx.LocalMerge.{LocalMergeOutcome, MergeError, blocked, merged}
use auwsx.Control.Outbox.{Response}
use auwsx.Runtime.{
  Action, RuntimeError, World, find_issue, find_project, not_local, not_merging, on_db,
}
use auwsx.Ipc.Notes.{RowsWithin, RowsWithin-refl, RowsWithin-trans}
use auwsx.Ipc.{apply_merge, lift_merge, merge_branch, record_merge, write_asked}

-- The rows of the table differ only in the row of this issue, which is still its row.
abbrev pub OnlyIssue : ℕ → List Issue → List Issue → Type 0
OnlyIssue id before after =
    (f : Issue → Issue) × (((x : Issue) → (f x).id ≡ x.id)
      × (after ≡ update_where (has_issue_id id) f before))

update-nothing : (p : Issue → Bool) (xs : List Issue) → update_where p (λ x. x) xs ≡ xs
unfolding update_where
update-nothing p [] = refl
update-nothing p (x ∷ xs) = elim (Bool-cases (p x)) [
  | inl e ↦ rw (e, update-nothing p xs) refl
  | inr e ↦ rw (e, update-nothing p xs) refl
]

update-twice :
    (p : Issue → Bool) (f g : Issue → Issue) (xs : List Issue)
    → ((x : Issue) → p (f x) ≡ p x)
    → update_where p g (update_where p f xs) ≡ update_where p (λ x. g (f x)) xs
unfolding update_where
update-twice p f g [] keeps = refl
update-twice p f g (x ∷ xs) keeps = elim (Bool-cases (p x)) [
  | inl e ↦ rw (e, keeps x ∙ e, update-twice p f g xs keeps) refl
  | inr e ↦ rw (e, e, update-twice p f g xs keeps) refl
]

-- the subtasks and the findings that the agent may name
module _ (subtasks findings : List ℕ) where
  -- The tables differ only in the row of this issue, in the subtasks and findings of the two lists, and
  -- in new subtasks and findings of this issue.
  abbrev pub DbWithin : ℕ → Db → Db → Type 0
  DbWithin id before after =
      (after.backlog ≡ before.backlog)
      × (after.steering ≡ before.steering)
      × (after.locks ≡ before.locks)
      × RowsWithin (λ (t : Subtask). t.id) (λ t. t.issue_id) subtasks id before.subtasks
          after.subtasks
      × RowsWithin (λ (f : Finding). f.id) (λ f. f.issue_id) findings id before.findings
          after.findings
      × OnlyIssue id before.issues after.issues

  -- The same of the whole state: projects, runs and live agents are as they were, too.
  abbrev pub Within : ℕ → World → World → Type 0
  Within id before after =
      (after.projects ≡ before.projects)
      × (after.runs ≡ before.runs)
      × (after.running ≡ before.running)
      × DbWithin id before.db after.db

  pub same_subtasks :
      (id : ℕ) (db : Db)
      → RowsWithin (λ (t : Subtask). t.id) (λ t. t.issue_id) subtasks id db.subtasks db.subtasks
  same_subtasks id db = RowsWithin-refl _ _ subtasks id db.subtasks

  pub same_findings :
      (id : ℕ) (db : Db)
      → RowsWithin (λ (f : Finding). f.id) (λ f. f.issue_id) findings id db.findings db.findings
  same_findings id db = RowsWithin-refl _ _ findings id db.findings

  pub only_issues : (id : ℕ) (db : Db) → OnlyIssue id db.issues db.issues
  only_issues id db = (λ x. x, (λ x. refl, sym (update-nothing (has_issue_id id) db.issues)))

  pub DbWithin-refl : (id : ℕ) (db : Db) → DbWithin id db db
  DbWithin-refl id db = (
    refl,
    refl,
    refl,
    same_subtasks id db,
    same_findings id db,
    (λ x. x, (λ x. refl, sym (update-nothing (has_issue_id id) db.issues))),
  )

  pub Within-refl : (id : ℕ) (w : World) → Within id w w
  Within-refl id w = (refl, refl, refl, DbWithin-refl id w.db)

  DbWithin-update :
      (id now : ℕ) (f : Issue → Issue) (e : Error) (db : Db)
      → ((x : Issue) → (f x).id ≡ x.id)
      → DbWithin id db (update_issues (has_issue_id id) f e db).1
  unfolding update_issues
  DbWithin-update id now f e db keeps =
      elim (Bool-cases (count_where (has_issue_id id) db.issues == 0)) [
        | inl h ↦ rw h (DbWithin-refl id db)
        | inr h ↦
            rw h (refl, refl, refl, same_subtasks id db, same_findings id db, (f, (keeps, refl)))
      ]

  pub Within-trans : (id : ℕ) (a b c : World) → Within id a b → Within id b c → Within id a c
  Within-trans id a b c (p1, r1, n1, (k1, s1, l1, t1, d1, (f, (fid, fe))))
        (p2, r2, n2, (k2, s2, l2, t2, d2, (g, (gid, ge)))) =
      (
        p2 ∙ p1,
        r2 ∙ r1,
        n2 ∙ n1,
        (
          k2 ∙ k1,
          s2 ∙ s1,
          l2 ∙ l1,
          RowsWithin-trans _ _ subtasks id a.db.subtasks b.db.subtasks c.db.subtasks t1 t2,
          RowsWithin-trans _ _ findings id a.db.findings b.db.findings c.db.findings d1 d2,
          (
            λ x. g (f x),
            (
              λ x. gid (f x) ∙ fid x,
              ge
                  ∙ ap (update_where (has_issue_id id) g) fe
                  ∙ update-twice (has_issue_id id) f g a.db.issues (λ x. ap (λ i. i == id) (fid x)),
            ),
          ),
        ),
      )

  -- an operation of the store
  abbrev pub OpWithin : {A : Type 0} → ℕ → Op A → Type 0
  OpWithin id op = (db : Db) → DbWithin id db (op db).1

  pub on_db-Within :
      {A : Type 0} (id : ℕ) (op : Op A) (w : World) → OpWithin id op → Within id w (on_db op w).1
  on_db-Within id op w h = (refl, refl, refl, h w.db)

  write_status-OpWithin :
      (id : ℕ) (to : IssueStatus) (now : ℕ) → OpWithin id (write_status id to now)
  unfolding write_status set_status
  write_status-OpWithin id to now db =
      DbWithin-update id now (set_status to now) (issue_not_found id) db (λ x. refl)

  pub transition-OpWithin :
      (id : ℕ) (to : IssueStatus) (now : ℕ) → OpWithin id (transition id to now)
  unfolding transition current_status
  transition-OpWithin id to now db =
      >>=-keeps (DbWithin id db) (current_status id) _ db (DbWithin-refl id db) (λ from.
        >>=-keeps (DbWithin id db) (lift (from_transition (check_transition from to)))
          (λ u. write_status id to now) db (DbWithin-refl id db)
          (λ u. write_status-OpWithin id to now db))

  pub force-OpWithin : (id : ℕ) (to : IssueStatus) (now : ℕ) → OpWithin id (force_status id to now)
  unfolding force_status
  force-OpWithin id to now = write_status-OpWithin id to now

  -- a write that leaves the issues alone, behind a test
  pub either-DbWithin :
      {A : Type 0} (id : ℕ) (b : Bool) (x y : Result Error A × Db) (db : Db)
      → DbWithin id db x.1
      → DbWithin id db y.1
      → DbWithin id db (if b then x else y).1
  either-DbWithin id true x y db hx hy = hx
  either-DbWithin id false x y db hx hy = hy

  module _ (id : ℕ) (w : World) where
    pub answered-Within :
        {A : Type 0} (m : Action A) (f : A → Response)
        → Within id w (m w).1
        → Within id w ((m >>= λ a. pure (f a)) w).1
    answered-Within m f h = >>=-keeps (Within id w) m (λ a. pure (f a)) w h (λ a. h)

    ensured-Within :
        (b : Bool) (e : RuntimeError) (m : Action (Unit {0}))
        → Within id w (m w).1
        → Within id w ((ensure b e >> m) w).1
    ensured-Within true e m h = h
    ensured-Within false e m h = Within-refl id w

    pub write_asked-Within :
        (status : IssueStatus) (force same : Bool) (now : ℕ)
        → Within id w (write_asked id status force same now w).1
    unfolding write_asked
    write_asked-Within status force true now = Within-refl id w
    write_asked-Within status true false now =
        on_db-Within id (force_status id status now) w (force-OpWithin id status now)
    write_asked-Within status false false now =
        on_db-Within id (transition id status now) w (transition-OpWithin id status now)

    record_merge-Within :
        (outcome : LocalMergeOutcome) (now : ℕ) → Within id w (record_merge id outcome now w).1
    unfolding record_merge
    record_merge-Within (merged result) now =
        on_db-Within id (transition id done now) w (transition-OpWithin id done now)
    record_merge-Within (blocked b) now =
        on_db-Within id (transition id conflict_blocked now) w
          (transition-OpWithin id conflict_blocked now)

    module _ (merge_outcome : Text → ℕ → Text → Result MergeError LocalMergeOutcome) where
      merge_branch-Within :
          (project : Project) (branch : Option Text) (now : ℕ)
          → Within id w (merge_branch merge_outcome project id branch now w).1
      unfolding merge_branch
      merge_branch-Within project none now = Within-refl id w
      merge_branch-Within project (some branch) now =
          >>=-keeps (Within id w) (lift (lift_merge (merge_outcome project.repo_path id branch)))
            (λ outcome. record_merge id outcome now) w (Within-refl id w)
            (λ outcome. record_merge-Within outcome now)

      pub apply_merge-Within : (now : ℕ) → Within id w (apply_merge merge_outcome id now w).1
      unfolding apply_merge find_issue find_project
      apply_merge-Within now =
          >>=-keeps (Within id w) (find_issue id) _ w (Within-refl id w) (λ issue.
            ensured-Within (status_eq issue.status merging) (not_merging id issue.status) _ (
              >>=-keeps (Within id w) (find_project issue.project_id) _ w (Within-refl id w)
                (λ project.
                  ensured-Within (is_local project.merge_mode) (not_local id) _
                    (merge_branch-Within project issue.branch now))))
