-- ===== src/Transport/Tcp.antt =====
-- eventforge/transports/tcp.py: the framing, the subscriptions that both ends keep, the server and
-- the client.
pub mod Framing
mod Tests
pub mod Peer
pub mod Server
pub mod Client
