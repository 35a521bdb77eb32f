-- ===== src/Tests/Routing.antt =====
-- The theorems on backlog routing, at concrete inputs.
use auwsx.Common.{[], false, is_ok, none, ok, refl, true, ◌+◌, ◌∷◌, ◌≡◌, ◌≤◌, ◌⊎◌}
use auwsx.Status.{accepts_queue_message, is_legal_transition, plan_ready}
use auwsx.Store.Rows.{Db, approved}
use auwsx.Store.Routing.{
  acquire_project_route_lock, attach_item_to_issue, release_project_route_lock, route_lock_stale_ms,
  status_after_attach,
}
use auwsx.Store.Routing.Attach.{attach-legal}
use auwsx.Store.Routing.Once.{as_issue, as_message, attempt, attempts, route-once}
use auwsx.Store.Routing.Locks.{lock-excludes}
use auwsx.Tests.Fixtures.{demo_db, demo_item, demo_rowids}

attach-legal_example :
    (accepts_queue_message (status_after_attach plan_ready) ≡ true)
    × ((status_after_attach plan_ready ≡ plan_ready)
        ⊎ (is_legal_transition plan_ready (status_after_attach plan_ready) ≡ true))
unfolding accepts_queue_message
attach-legal_example = attach-legal plan_ready refl

lock-excludes_example :
    ((acquire_project_route_lock 1 5000 demo_db).0 ≡ ok true
      → 6000 ≤ 5000 + route_lock_stale_ms
      → (acquire_project_route_lock 1 6000 (acquire_project_route_lock 1 5000 demo_db).1).0
        ≡ ok false)
    × ((acquire_project_route_lock 1 6000 (release_project_route_lock 1 demo_db).1).0 ≡ ok true)
lock-excludes_example = lock-excludes 1 5000 6000 demo_db

abbrev attached_db : Db
attached_db = (attempt demo_rowids (demo_item 4 approved) 50 (as_message 8 (97 ∷ [])) demo_db).1

abbrev later_db : Db
later_db =
    attempts demo_rowids ((demo_item 4 approved, 55, as_message 8 (98 ∷ [])) ∷ []) attached_db

route-once_example :
    (is_ok (attempt demo_rowids (demo_item 4 approved) 60 (as_issue none none) later_db).0 ≡ false)
    × ((attempt demo_rowids (demo_item 4 approved) 60 (as_issue none none) later_db).1 ≡ later_db)
unfolding attach_item_to_issue
route-once_example =
    route-once demo_rowids (demo_item 4 approved) 50 60 (as_message 8 (97 ∷ []))
      (as_issue none none) ((demo_item 4 approved, 55, as_message 8 (98 ∷ [])) ∷ [])
      (demo_item 4 approved) demo_db refl refl
