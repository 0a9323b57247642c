-- ===== src/Daemon.antt =====
-- internal/daemon
pub mod Plans
pub mod Approvals
pub mod HumanGate
pub mod Schedule
pub mod Broadcaster
pub mod Autoresponder
pub mod Cron
pub mod ProviderOps
mod Tests
mod GateTests
mod CronTests
mod FanoutTests
mod ProviderTests
