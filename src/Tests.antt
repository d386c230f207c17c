-- ===== src/Tests.antt =====
-- Concrete instances of the interfaces, and runs of the model on them.
pub mod Toy
pub mod ToyInput
pub mod ToyArchive
pub mod RequestRuns
mod WireRuns
pub mod StoreRuns
pub mod AuditRuns
pub mod TagRuns
pub mod StageRuns
pub mod ProofRuns
pub mod CycleRuns
mod EngineRuns
pub mod ReachRuns
mod FreshRuns
