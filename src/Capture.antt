-- ===== src/Capture.antt =====
-- src/ip_commandmic/pcap.py: RTP packets, TCP reassembly and the messages of a captured stream.
pub mod Rtp
pub mod Reassembly
pub mod Decode
