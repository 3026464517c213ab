-- ===== src/Life.antt =====
-- The game of Life of lab8: the rule, the sequential update, and the worker threads.
pub mod Grid
pub mod Workers
pub mod Loop
mod Tests
