-- ===== src/VendorRuntime.antt =====
-- packages/vendor-runtime: the simulated vendors of a run.
pub mod Ledger
