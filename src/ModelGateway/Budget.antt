-- ===== src/ModelGateway/Budget.antt =====
-- The budget ledger: quantities in five dimensions, the reservation state machine, and the
-- PostgreSQL adapter that stores both.
pub mod Quantity
pub mod Ledger
pub mod Reservation
pub mod Conservation
pub mod Tables
pub mod Repository
mod Examples
