-- ===== src/Dummy.antt =====
-- NetLibExample: the packets of the sample programs (Packet/Packet.h), the server (DummyServer) and
-- the client (DummyClient), as users of NetLib. A packet is the list of its bytes.
pub mod Packet
pub mod Server
pub mod Nets
pub mod Map
pub mod Echo
pub mod Serve
pub mod Members
pub mod Client
pub mod Chat
pub mod PingPong
pub mod Talk
mod Tests
