-- ===== src/Planner.antt =====
-- The planner backend, core/planner: the pipeline program, the execution plan, the lowered loop
-- program, the planner IR, and the expression optimiser of the graph pass.
pub mod PipelineIr
pub mod Simplify
pub mod Lower
pub mod PlannerIr
pub mod EndToEnd
pub mod GraphOpt
pub mod StringBuilder
mod Tests
