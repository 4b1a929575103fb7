-- ===== src/ControlPlane.antt =====
-- apps/control-plane: the service that runs scenarios, and its maintenance.
pub mod Maintenance
pub mod RunService
pub mod TargetOutcome
pub mod Tests
