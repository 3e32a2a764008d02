-- ===== src/Task.antt =====
-- eventforge/task.py: the pool that bounds how many instances of a task run, and the runner.
pub mod Pool
pub mod Runner
mod Tests
