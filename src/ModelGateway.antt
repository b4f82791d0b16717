-- ===== src/ModelGateway.antt =====
-- The model gateway (server/src/knowledge_system/modules/model_gateway).
pub mod CallState
pub mod Usage
pub mod Budget
pub mod ProviderError
pub mod Stream
pub mod Retry
pub mod Egress
mod Examples
