-- ===== src/Chunk.antt =====
-- The chunk protocol of network/protocol/chunk: messages, their limits, decoding and validation.
pub mod Limits
pub mod Messages
pub mod Decoder
pub mod Validation
pub mod Framing
pub mod Decoding
pub mod Accepts
pub mod Payloads
