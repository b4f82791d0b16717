-- ===== src/ModelGateway/Egress.antt =====
-- The one-shot permit of a model call: modules/model_gateway/domain/egress_permit.py and
-- egress_admission.py, and infrastructure/persistence/egress_permit_repository.py.
pub mod Permit
pub mod Repository
pub mod Admission
pub mod Rows
pub mod OneShot
pub mod Refines
pub mod History
mod Examples
