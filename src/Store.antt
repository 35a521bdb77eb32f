-- ===== src/Store.antt =====
-- The SQLite tables of crates/auwsx-core/src/db as a state, and the statements that the code runs
-- on them. A table is a list of rows; `UPDATE … WHERE` and `DELETE … WHERE` act on the rows that
-- pass the test, and `rows_affected` counts them. The database is taken to be reachable, so a
-- statement fails only where the code makes it fail.
pub mod Table
pub mod Exec
pub mod Rows
pub mod Issues
pub mod Steering
pub mod Subtasks
pub mod Findings
pub mod Backlog
pub mod Routing
