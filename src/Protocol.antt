-- ===== src/Protocol.antt =====
-- src/ip_commandmic/protocol.py: byte stuffing, ordinary frames, the stream parser.
pub mod Stuffing
pub mod Frame
pub mod Readings
pub mod Classify
pub mod Stream
pub mod Encode
