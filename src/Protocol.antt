-- ===== src/Protocol.antt =====
-- FileRelay_.server/common/protocol.hpp.
pub mod PatchHeader
pub mod Message
