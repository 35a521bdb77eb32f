-- ===== src/Status/Classes.antt =====
-- How the predicates on a status fit together (state.rs).
use auwsx.Common.{false, not, refl, ◌&&◌, ◌||◌, ◌≡◌}
use auwsx.Status.{
  IssueStatus, accepts_queue_message, failed, is_human_gated, is_soft_gated, is_terminal,
  needs_attention, new, status_eq,
}

-- The operator's attention marker is set exactly on the human gates and on FAILED, a soft gate is a
-- human gate, and no terminal status accepts queue messages.
pub attention-gates :
    (s : IssueStatus)
    → (needs_attention s ≡ (is_human_gated s || status_eq s failed))
      × ((is_soft_gated s && not (is_human_gated s)) ≡ false)
      × ((accepts_queue_message s && is_terminal s) ≡ false)
unfolding needs_attention is_human_gated is_soft_gated accepts_queue_message is_terminal status_eq
attention-gates new = (refl, refl, refl)
attention-gates _ = (refl, refl, refl)
