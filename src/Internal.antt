-- ===== src/Internal.antt =====
-- Package internal: the call options of a client's call, and the transport stream of a server's.
pub mod CallOptions
pub mod TransportStream
pub mod StreamTransport
