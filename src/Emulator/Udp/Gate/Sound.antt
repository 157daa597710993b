-- ===== src/Emulator/Udp/Gate/Sound.antt =====
-- Over any calls of the microphone's protocol: the audio that it keeps and passes on, and its counts.
use ip_commandmic.Prelude.{ℕ, Bool}
use ip_commandmic.Emulator.Udp.Gate.{RadioCapture}
use ip_commandmic.Emulator.Udp.Gate.Balance.{IsBalanced, IsSound}

module _ (to_file callback gate_callback : Bool) (max_packets : ℕ) (exists : Bool) where
  abbrev Balanced : RadioCapture → Type 0
  Balanced = IsBalanced to_file callback gate_callback max_packets exists

  abbrev Sound : RadioCapture → Type 0
  Sound = IsSound to_file callback gate_callback max_packets exists
