-- ===== src/Handlers.antt =====
-- src/handlers: the handlers between the demultiplexer and the gateway. Each is given what the handler
-- before it fires, or what the handler after it has to write, and the model returns what it fires itself.
pub mod Stun
pub mod DataChannel
pub mod Srtp
pub mod Dtls
pub mod Alerts
pub mod Sctp
pub mod Interceptors
pub mod Secure
pub mod Channels
pub mod Streams
pub mod Parts
pub mod Reports
