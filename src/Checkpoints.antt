-- ===== src/Checkpoints.antt =====
-- The checkpoint state that src/ray/klein/runtime/coordinator keeps: the barrier ids, the thresholds
-- of a source's trigger and the acknowledgements of one checkpoint.
pub mod BarrierIds
pub mod Triggers
pub mod Acknowledgements
mod Tests
