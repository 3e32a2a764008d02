-- ===== src/Observers.antt =====
-- eventforge/observers.py: the dispatchers, the channels with their class-level subscribers, the
-- nodes, the meters and the reporters.
pub mod Dispatch
pub mod Channel
pub mod Node
pub mod Meter
pub mod Reporter
mod Tests
