-- ===== src/Audio.antt =====
-- src/ip_commandmic/audio.py: the application-fed microphone source and the receive jitter buffer.
pub mod Microphone
pub mod Jitter
