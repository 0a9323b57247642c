-- ===== src/Daemon/ProviderOps.antt =====
-- internal/daemon/provider_operations.go and provider_cleanup.go
pub mod Tables
pub mod Journal
pub mod Rows
pub mod Flights
pub mod Cleanup
pub mod Startup
pub mod Runs
pub mod Safety
pub mod Keeping
pub mod Finalizing
pub mod FlightSteps
pub mod Applying
pub mod FlightRuns
pub mod CleanupSteps
pub mod ProviderSteps
pub mod Booting
pub mod Recovery
pub mod CommitSteps
pub mod Secrets
pub mod Replay
pub mod Progress
pub mod Transitions
pub mod Saves
