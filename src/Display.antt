-- ===== src/Display.antt =====
-- src/ip_commandmic/display.py: the 68-byte display buffer and the transaction tracker.
pub mod Tables
pub mod Buffer
pub mod State
pub mod Listing
