-- ===== src/Scenario.antt =====
-- packages/scenario-engine: the scenario engine.
pub mod Status
pub mod Value
pub mod Errors
pub mod Types
pub mod World
pub mod Executor
pub mod Repository
pub mod Resolver
