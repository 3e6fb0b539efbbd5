-- ===== src/Go/Session/Watched.antt =====
-- The options of a run are not released while the watcher may use them, and are released in the end.
pub mod States
pub mod Steps
pub mod Run
