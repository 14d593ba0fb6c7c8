-- ===== src/Runtime.antt =====
-- The C runtime, core/src: the pointer lists, the values and queries, compiled pipelines, the
-- observables that run them, and the timed task queue.
pub mod PtrList
pub mod Value
pub mod Query
pub mod Pipeline
pub mod Observable
pub mod Task
pub mod Sources
