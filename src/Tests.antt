-- ===== src/Tests.antt =====
-- Runs of the model on inputs from the repository's tests, and the theorems at concrete inputs.
mod Runs
mod Protocol
mod Display
mod Capture
mod Audio
mod Emulator
