-- ===== src/Protocol.antt =====
-- src/protocol: the buffers, the frames, the requests and the responses.
pub mod Buffer
pub mod Framing
pub mod Decimal
pub mod Request
pub mod Parser
pub mod Response
pub mod Serializer
