-- ===== src/Examples.antt =====
-- The theorems at concrete inputs, and the data that these share.
pub mod Data
pub mod Access
pub mod Logins
pub mod Admissions
pub mod Policies
pub mod Operators
pub mod Provisioning
pub mod Topology
pub mod Decisions
pub mod Reconciling
