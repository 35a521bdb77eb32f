-- ===== src/Control.antt =====
-- The control channels of agents and operators: control_outbox.rs and issue_control.rs.
pub mod Outbox
pub mod Plans
