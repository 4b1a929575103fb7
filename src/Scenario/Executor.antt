-- ===== src/Scenario/Executor.antt =====
-- packages/scenario-engine/src/executor.ts: how steps are executed, and in `Lifecycle` a scenario.
pub mod Actions
pub mod Steps
pub mod Lifecycle
pub mod Keeps
pub mod Growth
pub mod StatusPath
pub mod Rejection
pub mod Cleanups
pub mod Tests
