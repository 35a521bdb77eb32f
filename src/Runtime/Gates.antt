-- ===== src/Runtime/Gates.antt =====
-- The soft gate of a finished plan: it is armed once, waits out its timeout, and then opens.
use auwsx.Common.{some, suc, ℕ, ◌*◌, ◌+◌, ◌≡◌}
use auwsx.Status.{working}
use auwsx.Model.{Issue, Project}
use auwsx.Store.Table.{update_where}
use auwsx.Store.Rows.{has_issue_id}
use auwsx.Store.Issues.Status.{with_status}
use auwsx.Store.Issues.{get_issue}
use auwsx.Runtime.{World, minute_ms}

abbrev pub armed : ℕ → ℕ → Issue → Issue
armed deadline now issue = record issue { wait_until = some deadline; updated_at = now }

module _ (project : Project) (id minutes now : ℕ) (w : World) (issue : Issue)
    (found : get_issue id w.db ≡ some issue) where
  deadline : ℕ
  deadline = now + suc minutes * minute_ms

  -- the tables after the gate is armed
  pub armed_world : World
  armed_world = record w {
    db = record w.db { issues = update_where (has_issue_id id) (armed deadline now) w.db.issues };
  }

  -- the tables after the armed gate opens
  pub released_world : ℕ → World
  released_world later = record armed_world {
    db = record armed_world.db { issues = with_status id working later armed_world.db.issues };
  }
