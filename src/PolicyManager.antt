-- ===== src/PolicyManager.antt =====
-- services/policy-manager: the policies of the store applied to the devices that are known.
pub mod Evaluate
pub mod Commands
pub mod Detected
pub mod AuthResponse
pub mod PostureReports
pub mod Reconcile
pub mod ArpTable
pub mod ArpSync
pub mod Api
pub mod Events
