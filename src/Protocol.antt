-- ===== src/Protocol.antt =====
-- packages/protocol: the wire format and its codecs.
pub mod Json
pub mod Codec
pub mod Sponsored
pub mod Funding
pub mod Spend
mod Tests
