-- ===== src/Transport.antt =====
-- pkg/transport/natsstream: one stream of events from the server to one client over NATS.
pub mod Protocol
pub mod Server
pub mod Client
pub mod RoundTrip
