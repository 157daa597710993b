-- ===== src/Emulator/Startup/Heard.antt =====
-- The emulated radio's startup, heard by the emulated microphone.
use ip_commandmic.Emulator.Panel.{Panel}
