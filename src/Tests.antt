-- ===== src/Tests.antt =====
-- Concrete inputs, and the theorems applied to them.
mod Fixtures
mod Core
mod Schedule
mod Pipeline
mod LocalMerge
mod RemotePlan
mod Reconcile
mod Store
mod Control
mod Admission
mod Runtime
mod Routing
