-- ===== src/Tests/Capture.antt =====
-- The theorems on captured streams at concrete inputs.
use ip_commandmic.Prelude.{
  ℕ, ◌≡◌, refl, arith, List, [], ◌∷◌, ◌++◌, Bytes, codes, some, true, replicate,
}
use ip_commandmic.Models.{radio_to_mic}
use ip_commandmic.Protocol.Frame.{from_bytes_big}
use ip_commandmic.Capture.Rtp.{RtpPacket, parse_rtp}
use ip_commandmic.Capture.Rtp.Layout.{Divides, parse_rtp-Divides}
use ip_commandmic.Capture.Reassembly.{TcpSegment, reassemble_direction}
use ip_commandmic.Capture.Reassembly.Whole.{IsPart, reassemble_direction-IsPart}
use ip_commandmic.Capture.Decode.{DecodedMessage, CaptureWarning, decode_group}
use ip_commandmic.Capture.Decode.Placed.{IsTiled, decode_group-IsTiled}

-- Version 2 with padding: a marker, two bytes of payload and two of padding.
abbrev datagram : Bytes
datagram =
    0xA0
    ∷ 0x80
    ∷ 0x00
    ∷ 0x07
    ∷ (replicate 4 1 ++ (replicate 4 2 ++ (0x11 ∷ 0x22 ∷ 0x00 ∷ 0x02 ∷ [])))

abbrev rtp_packet : RtpPacket
rtp_packet = record {
  version = 2;
  marker = true;
  payload_type = 0;
  sequence = 7;
  timestamp = 0x01010101;
  ssrc = 0x02020202;
  header_length = 12;
  payload = 0x11 ∷ 0x22 ∷ [];
}

parsed : parse_rtp datagram ≡ some rtp_packet
unfolding parse_rtp from_bytes_big
parsed = refl

parse_rtp-Divides_example : Divides datagram rtp_packet
parse_rtp-Divides_example = parse_rtp-Divides datagram rtp_packet parsed

abbrev segment_at : ℕ → ℕ → Bytes → TcpSegment
segment_at time sequence payload = record {
  stream = 0;
  timestamp = time;
  source_ip = codes "192.168.0.1";
  destination_ip = codes "192.168.0.2";
  source_port = 52001;
  destination_port = 52001;
  sequence = sequence;
  payload = payload;
}

abbrev sent : Bytes
sent = 0xF3 ∷ 0x41 ∷ 0x71 ∷ 0x05 ∷ 0xFD ∷ []

-- Out of order, with an overlap and a repeat.
abbrev segments : List TcpSegment
segments =
    segment_at 3 102 (0x71 ∷ 0x05 ∷ 0xFD ∷ [])
    ∷ segment_at 1 100 (0xF3 ∷ 0x41 ∷ 0x71 ∷ [])
    ∷ segment_at 2 100 (0xF3 ∷ 0x41 ∷ [])
    ∷ []

no_gap : (reassemble_direction segments).warnings ≡ []
unfolding reassemble_direction
no_gap = refl

reassemble_direction-IsPart_example :
    IsPart sent 100 segments (reassemble_direction segments).output
reassemble_direction-IsPart_example =
    reassemble_direction-IsPart sent 100 segments
      (
        record { behind = omega arith; payload = refl },
        (
          record { behind = omega arith; payload = refl },
          (record { behind = omega arith; payload = refl }, tt),
        ),
      )
      no_gap

decode_group-IsTiled_example :
    (ds : List DecodedMessage) × (ws : List CaptureWarning) × (decode_group 0 radio_to_mic segments
      ≡ some (ds, ws))
    × IsTiled (reassemble_direction segments).output 0 ds
decode_group-IsTiled_example = decode_group-IsTiled 0 radio_to_mic segments
