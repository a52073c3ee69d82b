-- ===== src/Evaluation.antt =====
-- What became of a signal: its fill, its costs, the barriers that its path hit.
pub mod Costs
pub mod Fill
pub mod Barrier
pub mod Excursion
pub mod Findings
pub mod Evaluator
pub mod Scheduler
