-- ===== src/Capture/Decode.antt =====
-- `_timestamp_at_offset` and, for the segments of one stream and direction, the loop of
-- `decode_capture` in src/ip_commandmic/pcap.py.
pub mod Placed
use Prim.Native.String.{String}
use ip_commandmic.Prelude.{
  ℕ, ◌+◌, ◌-◌, leb, if◌then◌else◌, List, [], ◌∷◌, ◌++◌, Bytes, Option, none, some, false, length,
  get_or, map,
}
use ip_commandmic.Models.{Direction, MessageKind, Message}
use ip_commandmic.Capture.Reassembly.{TcpSegment, Reassembly, reassemble_direction}
use ip_commandmic.Protocol.Stream.{Parsed, parse_stream}

pub record DecodedMessage : Type 0 where
  pub stream : ℕ
  pub direction : Direction
  pub timestamp : ℕ
  pub stream_offset : ℕ
  pub message : Message

-- bisect_right(offsets, offset) on offsets in order: how many are at most `offset`.
bisect_right : List (ℕ × ℕ) → ℕ → ℕ
bisect_right [] offset = 0
bisect_right (marker ∷ markers) offset =
    let rest = bisect_right markers offset in if leb marker.0 offset then rest + 1 else 0

unfoldable pub timestamp_at_offset : List (ℕ × ℕ) → ℕ → ℕ
unfolding bisect_right
timestamp_at_offset [] offset = 0
timestamp_at_offset (marker ∷ markers) offset =
    (get_or (marker ∷ markers) (bisect_right (marker ∷ markers) offset - 1) marker).1

pub data CaptureWarning : Type 0 where
  tcp_gap : ℕ → Direction → ℕ → ℕ → CaptureWarning
  incomplete_trailing : ℕ → Direction → ℕ → CaptureWarning

abbrev pub trailing_fragment : Bytes → Direction → Message
trailing_fragment remainder direction = record {
  raw = remainder;
  direction = direction;
  kind = MessageKind.unknown;
  framing_valid = false;
  checksum_valid = none;
  evidence = some "incomplete trailing TCP stream data";
  metadata = [];
}

module _ (stream : ℕ) (direction : Direction) (markers : List (ℕ × ℕ)) where
  abbrev pub decoded_at : ℕ → Message → DecodedMessage
  decoded_at offset message = record {
    stream = stream;
    direction = direction;
    timestamp = timestamp_at_offset markers offset;
    stream_offset = offset;
    message = message;
  }

  -- The incomplete rest as a last message.
  pub decode_remainder : ℕ → Bytes → List DecodedMessage
  decode_remainder offset [] = []
  decode_remainder offset (b ∷ bs) = decoded_at offset (trailing_fragment (b ∷ bs) direction) ∷ []

  -- The messages from an offset on, and the rest behind them.
  pub decode_messages : ℕ → List Message → Bytes → List DecodedMessage
  unfolding decode_remainder
  decode_messages offset [] remainder = decode_remainder offset remainder
  decode_messages offset (m ∷ ms) remainder =
      decoded_at offset m ∷ decode_messages (offset + length m.raw) ms remainder

remainder_warnings : ℕ → Direction → Bytes → List CaptureWarning
remainder_warnings stream direction [] = []
remainder_warnings stream direction (b ∷ bs) =
    incomplete_trailing stream direction (length (b ∷ bs)) ∷ []

pub warnings_of : ℕ → Direction → Reassembly → Bytes → List CaptureWarning
unfolding remainder_warnings
warnings_of stream direction r remainder =
    map (λ gap. tcp_gap stream direction gap.0 gap.1) r.warnings
    ++ remainder_warnings stream direction remainder

pub decode_parsed :
    ℕ → Direction → Reassembly → Option Parsed → Option (List DecodedMessage × List CaptureWarning)
unfolding decode_messages warnings_of
decode_parsed stream direction r none = none
decode_parsed stream direction r (some parsed) = some (
  decode_messages stream direction r.time_markers 0 parsed.messages parsed.remainder,
  warnings_of stream direction r parsed.remainder,
)

-- One round of the loop over the grouped segments: what it appends to `decoded` and `warnings`.
unfoldable pub decode_group :
    ℕ → Direction → List TcpSegment → Option (List DecodedMessage × List CaptureWarning)
unfolding decode_parsed
decode_group stream direction segments =
    let r = reassemble_direction segments in
    decode_parsed stream direction r (parse_stream r.output direction)
