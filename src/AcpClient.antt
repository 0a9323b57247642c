-- ===== src/AcpClient.antt =====
-- internal/acpclient
pub mod Types
pub mod Records
pub mod Normalize
pub mod Mutate
pub mod EventLog
pub mod Store
pub mod Drain
pub mod Watch
pub mod Background
pub mod Tests
pub mod DrainTests
pub mod BackgroundTests
pub mod LeaseTests
