-- ===== src/NatsBus.antt =====
-- natsbus/: events and their wire formats, the publisher, the consumer, and the reliable publisher
-- with retry, breaker and dead letters.
pub mod DeadLetters
pub mod Reliable
pub mod Broker
pub mod Publishing
pub mod Replay
pub mod Count
pub mod Envelope
pub mod Codec
pub mod Decode
pub mod RoundTrip
pub mod Publisher
pub mod Client
pub mod Connect
pub mod Consumer
mod Headers
pub mod Decoding
pub mod Published
pub mod Connections
pub mod Propagation
pub mod Spans
mod Sample
mod W3c
mod Tests
mod WireTests
