-- ===== src/Emulator.antt =====
-- src/ip_commandmic/emulator.py: the emulated endpoints, a radio and a command microphone.
pub mod Frames
pub mod Actions
pub mod Tails
pub mod Panel
pub mod Config
pub mod Guards
pub mod Startup
pub mod Transmit
pub mod Sessions
pub mod Mic
pub mod Radio
pub mod Keys
pub mod Udp
pub mod Scans
