-- ===== src/Rpc.antt =====
-- eventforge/rpc.py: the server's handler, the client's call, the pool of clients, the retries.
pub mod Server
pub mod Client
pub mod Exchange
mod Tests
