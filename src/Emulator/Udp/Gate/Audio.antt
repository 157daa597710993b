-- ===== src/Emulator/Udp/Gate/Audio.antt =====
-- Which audio of the radio passes, from the calls alone.
use ip_commandmic.Prelude.{
  ℕ, ◌+◌, ◌==◌, leb, if◌then◌else◌, List, [], ◌∷◌, map, Bytes, Bool, true, not, ◌&&◌, ◌||◌, ◌=?◌,
  length, slice, drop,
}
use ip_commandmic.Protocol.Frame.{from_bytes_big}
use ip_commandmic.Emulator.Frames.{radio_boot_rtp, radio_rtp_ssrc}
use ip_commandmic.Emulator.Udp.Gate.{
  RadioAudioPacket, radio_shape, RadioCall, boots, receives, sets_gate, closes,
}

-- The radio's source identifier stands in the packet.
abbrev pub from_radio : Bytes → Bool
from_radio data' = from_bytes_big (slice data' 8 12) == radio_rtp_ssrc

abbrev pub payloads_of : List RadioAudioPacket → List Bytes
payloads_of packets = map (λ p. p.payload_s16be) packets

module _ (to_file callback : Bool) (max_packets : ℕ) where
  -- Nothing takes the audio.
  abbrev no_sink : Bool
  no_sink = not to_file && not callback

  -- The payloads that pass: those of the radio's packets that the peer sends while the gate is open
  -- and the recording, of `kept` packets so far, goes on. The radio's boot packet stands before
  -- them, and the microphone's before that.
  unfoldable pub audio :
      (sent verified open_ complete : Bool) (kept : ℕ) → List RadioCall → List Bytes
  unfolding from_bytes_big radio_shape
  audio sent verified open_ complete kept [] = []
  audio sent verified open_ complete kept (boots transport ∷ calls) =
      audio (sent || transport) verified open_ complete kept calls
  audio sent verified open_ complete kept (sets_gate next ∷ calls) =
      audio sent verified (next && (open_ || not (no_sink || complete))) complete kept calls
  audio sent verified open_ complete kept (closes ∷ calls) =
      audio sent verified (open_ && (not to_file || complete)) (complete || to_file) kept calls
  audio sent verified open_ complete kept (receives from_peer data' ∷ calls) =
      let kept' = if to_file then kept + 1 else kept in
      let full = to_file && leb max_packets kept' in
      let booted = audio sent true open_ complete kept calls in
      let passed = audio sent verified (not full) full kept' calls in
      let held = audio sent verified open_ complete kept calls in
      if sent && from_peer && (data' =? radio_boot_rtp)
      then booted
      else if (verified && from_peer && (length data' == 332) && radio_shape data')
          && (not no_sink && (open_ && (not complete && from_radio data')))
      then drop 12 data' ∷ passed
      else held
