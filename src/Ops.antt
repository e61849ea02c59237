-- ===== src/Ops.antt =====
-- The instructions of prototype-integrator/src/funcs.c.
pub mod Arithmetic
pub mod Logic
pub mod Clock
pub mod Select
pub mod Counters
pub mod Edges
pub mod Control
pub mod TimerOps
pub mod Strings
