-- ===== src/Relay.antt =====
-- The RELAY client, src/relay: actions in progress, messages, calls, and the events that drive them.
-- A JSON value is a parameter, the type `J` with what the code reads of it.
pub mod Action
pub mod Message
pub mod Call
pub mod Component
pub mod Client
pub mod WebSocket
mod Tests
