-- ===== src/Store.antt =====
-- crates/nac-store: the records, what of the store is not SQL, the tables, and the repositories.
pub mod Endpoint
pub mod Policy
pub mod Posture
pub mod Database
pub mod Endpoints
pub mod Sessions
pub mod Logs
pub mod Policies
pub mod Steps
pub mod Valid
pub mod Devices
