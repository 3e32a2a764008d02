-- ===== src/WorkQueue.antt =====
-- eventforge/work_queue.py: the state, the helpers that run under the lock, the methods and the
-- reaper's rounds; the theorems are in the other children.
mod State
mod Delivery
mod Enqueue
mod Nack
mod Consumers
mod Reaper
pub mod Sections
pub mod Tracked
pub mod Sound
pub mod Conservation
pub mod Redelivery
mod Tests
unfoldable pub use State.*
unfoldable pub use Delivery.*
unfoldable pub use Enqueue.*
unfoldable pub use Nack.*
unfoldable pub use Consumers.*
unfoldable pub use Reaper.*
