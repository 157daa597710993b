-- ===== src/Emulator/Udp/Packets.antt =====
-- The fields of a packet that a sender packs, as a recorder unpacks them.
use ip_commandmic.Prelude.{◌<◌, ◌≡◌, refl, arith, ◌==◌, Bytes, true, length, slice, drop}
use ip_commandmic.Protocol.Frame.{from_bytes_big}
use ip_commandmic.Emulator.Frames.{mic_rtp_ssrc}
use ip_commandmic.Emulator.Udp.{RtpSender, next_sender, rtp_packet}

-- A sender whose numbers fit their fields.
pub record IsSender (s : RtpSender) : Type 0 where
  pub sequence : s.sequence < 65536
  pub timestamp : s.timestamp < 4294967296

pub next-IsSender : (s : RtpSender) → IsSender (next_sender s)
next-IsSender s = record { sequence = omega arith; timestamp = omega arith }

module _ (s : RtpSender) (h : IsSender s) (payload : Bytes) where
  abbrev pub packet : Bytes
  packet = rtp_packet mic_rtp_ssrc s payload

  pub sequence_field : from_bytes_big (slice packet 2 4) ≡ s.sequence
  unfolding from_bytes_big
  sequence_field = omega (arith, h.sequence)

  pub timestamp_field : from_bytes_big (slice packet 4 8) ≡ s.timestamp
  unfolding from_bytes_big
  timestamp_field = omega (arith, h.timestamp)

  pub ssrc_field : from_bytes_big (slice packet 8 12) ≡ mic_rtp_ssrc
  unfolding from_bytes_big
  ssrc_field = refl

  payload_field : drop 12 packet ≡ payload
  payload_field = refl

pub sized :
    (s : RtpSender) (h : IsSender s) (payload : Bytes)
    → length payload ≡ 320
    → (length (packet s h payload) == 332) ≡ true
sized s h payload size = ground (arith, size)
