-- ===== src/AcpClient/Background.antt =====
-- internal/acpclient/background.go and background_audit.go
pub mod Keyed
pub mod Policies
pub mod Audit
pub mod Recording
pub mod Reconcile
pub mod Launching
pub mod Log
pub mod StoreLaws
pub mod Recovery
pub mod Redo
pub mod LaunchLaws
pub mod Leases
pub mod LeaseCounts
pub mod LeaseSteps
pub mod WorkerSteps
pub mod Exclusive
pub mod Ending
pub mod EndLaws
pub mod NotEnabled
pub mod NeverEnabled
