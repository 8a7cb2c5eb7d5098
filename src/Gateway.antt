-- ===== src/Gateway.antt =====
-- internal/gatewaysvc: the pipeline of the gateway service.
pub mod Building
pub mod Limits
pub mod Metadata
pub mod Rules
pub mod Env
pub mod Service
pub mod Guards
pub mod Caching
pub mod Served
mod Tests
