-- ===== src/Gateway.antt =====
-- packages/traffic-gateway: the gateway through which synthetic visitors reach a target.
pub mod Headers
pub mod Address
pub mod Registry
pub mod Tests
