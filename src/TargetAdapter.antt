-- ===== src/TargetAdapter.antt =====
-- packages/target-adapter: how a run uses a target.
pub mod Fake
