-- ===== src/Store/Routing/Locks.antt =====
-- The route lock: it excludes a second router, until it is released or ten minutes old.
use auwsx.Common.{
  Bool, Bool-cases, List, Result, [], any, arith, false, inl, inr, ltb, ok, refl, true, ℕ, ◌++◌,
  ◌+◌, ◌==◌, ◌∷◌, ◌≡◌, ◌≤◌,
}
use auwsx.Store.Table.{delete_where}
use auwsx.Store.Rows.{Db, Error, RouteLock}
use auwsx.Store.Routing.{
  acquire_project_route_lock, release_project_route_lock, route_lock_stale_ms,
}

abbrev is_lock_of : ℕ → RouteLock → Bool
is_lock_of project_id l = l.project_id == project_id

abbrev is_stale : ℕ → RouteLock → Bool
is_stale now l = ltb (l.acquired_at + route_lock_stale_ms) now

any-delete-last :
    (project_id now : ℕ) (l : RouteLock) (rows : List RouteLock)
    → is_lock_of project_id l ≡ true
    → is_stale now l ≡ false
    → any (is_lock_of project_id) (delete_where (is_stale now) (rows ++ l ∷ [])) ≡ true
unfolding any delete_where
any-delete-last project_id now l [] h fresh = rw fresh (rw h refl)
any-delete-last project_id now l (r ∷ rows) h fresh = elim (Bool-cases (is_stale now r)) [
  | inl e ↦ rw e (any-delete-last project_id now l rows h fresh)
  | inr e ↦ rw e (ground (arith, any-delete-last project_id now l rows h fresh))
]

any-delete-own :
    (project_id now : ℕ) (rows : List RouteLock)
    → any
        (is_lock_of project_id)
        (delete_where (is_stale now) (delete_where (is_lock_of project_id) rows))
      ≡ false
unfolding any delete_where
any-delete-own project_id now [] = refl
any-delete-own project_id now (r ∷ rows) = elim (Bool-cases (is_lock_of project_id r)) [
  | inl e ↦ rw e (any-delete-own project_id now rows)
  | inr e ↦ rw e (elim (Bool-cases (is_stale now r)) [
    | inl s ↦ rw s (any-delete-own project_id now rows)
    | inr s ↦ rw (s, e) (any-delete-own project_id now rows)
  ])
]

refused_twice {ℓ} : {A : Type ℓ} (r : Result Error Bool) → r ≡ ok false → r ≡ ok true → A
refused_twice r refused acquired = absurd (ground arith)

-- After a successful acquire, every acquire of the project's lock up to ten minutes later is
-- refused, as long as nothing else writes the locks; after a release, whenever it is, the lock
-- can be acquired.
pub lock-excludes :
    (project_id now later : ℕ) (db : Db)
    → ((acquire_project_route_lock project_id now db).0 ≡ ok true
        → later ≤ now + route_lock_stale_ms
        → (acquire_project_route_lock project_id later
            (acquire_project_route_lock project_id now db).1).0
          ≡ ok false)
      × ((acquire_project_route_lock project_id later
            (release_project_route_lock project_id db).1).0
          ≡ ok true)
unfolding acquire_project_route_lock release_project_route_lock
lock-excludes project_id now later db = (
  λ h bound.
      elim (Bool-cases (any (is_lock_of project_id) (delete_where (is_stale now) db.locks))) [
        | inl e ↦ refused_twice (acquire_project_route_lock project_id now db).0 (rw e refl) h
        | inr e ↦ rw e (
            rw
              (any-delete-last project_id later
                (record { project_id = project_id; acquired_at = now })
                (delete_where (is_stale now) db.locks) (ground arith) (ground arith))
              refl)
      ],
  rw (any-delete-own project_id later db.locks) refl,
)
