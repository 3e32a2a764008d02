-- ===== src/Transport.antt =====
-- eventforge/transports: the topic patterns, the in-memory transport and the TCP framing.
pub mod Glob
pub mod Patterns
pub mod Segments
pub mod Memory
pub mod Redis
pub mod Nats
pub mod Tcp
mod BrokerTests
mod Tests
