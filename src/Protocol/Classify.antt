-- ===== src/Protocol/Classify.antt =====
-- `classify_message` of src/ip_commandmic/protocol.py.
pub mod Raw
pub mod Readable
pub mod Fields
pub mod Built
use Prim.Native.String.{String}
use ip_commandmic.Prelude.{
  ℕ, ◌+◌, ◌-◌, ◌==◌, leb, if◌then◌else◌, List, [], ◌∷◌, ◌++◌, Bytes, Option, none, some, Bool, true,
  false, ◌&&◌, ◌=?◌, one_of, length, take, slice, get_or, hex,
}
use ip_commandmic.Models.{
  Direction, radio_to_mic, mic_to_radio, MessageKind, heartbeat, Value, null, flag, int, str, chars,
  Metadata, Message,
}
use ip_commandmic.Protocol.Frame.{crc16_commandmic, decode_wire_frame, from_bytes_big}
use ip_commandmic.Protocol.Readings.{Reading, read_ordinary}

abbrev pub magic_prefixes : List Bytes
magic_prefixes = (0xF3 ∷ 0x41 ∷ 0x71 ∷ []) ∷ (0xF5 ∷ 0x41 ∷ 0x71 ∷ []) ∷ []

abbrev pub terminator : ℕ
terminator = 0xFD

abbrev pub radio_idle_heartbeat : Bytes
radio_idle_heartbeat =
    0xF3 ∷ 0x41 ∷ 0x71 ∷ 0x05 ∷ 0x00 ∷ 0x00 ∷ 0x02 ∷ 0x4D ∷ 0x00 ∷ 0x35 ∷ 0x70 ∷ 0xFD ∷ []

abbrev pub mic_idle_heartbeat : Bytes
mic_idle_heartbeat =
    0xF3 ∷ 0x41 ∷ 0x71 ∷ 0x05 ∷ 0x00 ∷ 0x00 ∷ 0x02 ∷ 0x6D ∷ 0x01 ∷ 0x35 ∷ 0xA8 ∷ 0xFD ∷ []

pub record Known : Type 0 where
  pub kind : MessageKind
  pub direction : Direction
  pub evidence : String

-- `_KNOWN_MESSAGES.get(raw)`
unfoldable pub known_message : Bytes → Option Known
known_message raw =
    if raw =? radio_idle_heartbeat
    then some (record {
      kind = heartbeat;
      direction = radio_to_mic;
      evidence = "passively observed idle radio heartbeat";
    })
    else if raw =? mic_idle_heartbeat
    then some (record {
      kind = heartbeat;
      direction = mic_to_radio;
      evidence = "passively observed idle microphone heartbeat response";
    })
    else none

-- The two checksum bytes of a decoded frame, `decoded[-3:-1]` as a number.
abbrev pub checksum_field : Bytes → ℕ
checksum_field decoded = from_bytes_big (slice decoded (length decoded - 3) (length decoded - 1))

-- Whether they are the CRC of `decoded[1:-3]`.
abbrev pub checksum_matches : Bytes → Bool
checksum_matches decoded =
    crc16_commandmic (slice decoded 1 (length decoded - 3)) == checksum_field decoded

-- `decoded[7:-3]` and `decoded[5:7]` of an ordinary frame.
abbrev pub payload_field : Bytes → Bytes
payload_field decoded = slice decoded 7 (length decoded - 3)

abbrev pub length_field : Bytes → ℕ
length_field decoded = from_bytes_big (slice decoded 5 7)

pub first_or_null : Bytes → Value
first_or_null [] = null
first_or_null (b ∷ bs) = int b

abbrev effective_direction : Direction → Direction → Direction
effective_direction Direction.unknown observed = observed
effective_direction supplied observed = supplied

classify_known : Bytes → Direction → Known → Bytes → Bool → Message
classify_known raw supplied known decoded stuffed = record {
  raw = raw;
  direction = effective_direction supplied known.direction;
  kind = known.kind;
  framing_valid = true;
  checksum_valid = some (checksum_matches decoded);
  evidence = some known.evidence;
  metadata =
      ("start_byte", int (get_or decoded 0 0))
      ∷ ("message_class", int (get_or decoded 3 0))
      ∷ ("command", int (get_or decoded 4 0))
      ∷ ("declared_payload_length", int (length_field decoded))
      ∷ ("payload_hex", chars (hex (payload_field decoded)))
      ∷ ("wire_stuffed", flag stuffed)
      ∷ ("decoded_hex", chars (hex decoded))
      ∷ ("checksum", int (checksum_field decoded))
      ∷ ("frame_format", str "ordinary")
      ∷ [];
}

-- `framing_valid`
unfoldable pub is_framed : Bytes → Bool
is_framed decoded =
    leb 6 (length decoded)
    && (one_of (take 3 decoded) magic_prefixes
        && (get_or decoded (length decoded - 1) 0 == terminator))

-- The reading of an ordinary frame, behind the fields that every such frame reports.
unfoldable pub ordinary_reading : Direction → ℕ → ℕ → ℕ → Bytes → Reading
ordinary_reading supplied message_class command declared_length payload =
    let reading = read_ordinary supplied message_class command payload in
    record reading {
      extra =
          ("message_class", int message_class)
          ∷ ("command", int command)
          ∷ ("declared_payload_length", int declared_length)
          ∷ ("payload_hex", chars (hex payload))
          ∷ ("frame_format", str "ordinary")
          ∷ reading.extra;
    }

-- The kind, the evidence and the metadata of a frame with a valid framing.
framed_reading : Direction → Bytes → Reading
framed_reading supplied decoded =
    if leb 10 (length decoded)
    then (if length decoded == length_field decoded + 10
        then ordinary_reading supplied (get_or decoded 3 0) (get_or decoded 4 0)
            (length_field decoded) (payload_field decoded)
        else record {
          kind = MessageKind.unknown;
          evidence = none;
          extra = ("frame_format", str "special_or_unknown") ∷ [];
        })
    else record { kind = MessageKind.unknown; evidence = none; extra = [] }

-- The metadata that every frame has.
abbrev pub base_metadata : Bytes → Bool → Metadata
base_metadata decoded stuffed =
    ("start_byte", first_or_null decoded)
    ∷ ("wire_stuffed", flag stuffed)
    ∷ ("decoded_hex", chars (hex decoded))
    ∷ []

classify_other : Bytes → Direction → Bytes → Bool → Message
unfolding framed_reading ordinary_reading is_framed first_or_null
classify_other raw supplied decoded stuffed =
    let reading = framed_reading supplied decoded in
    if is_framed decoded
    then record {
      raw = raw;
      direction = supplied;
      kind = reading.kind;
      framing_valid = true;
      checksum_valid = some (checksum_matches decoded);
      evidence = reading.evidence;
      metadata =
          base_metadata decoded stuffed
          ++ (("checksum", int (checksum_field decoded)) ∷ reading.extra);
    }
    else record {
      raw = raw;
      direction = supplied;
      kind = MessageKind.unknown;
      framing_valid = false;
      checksum_valid = none;
      evidence = none;
      metadata = base_metadata decoded stuffed;
    }

classify_with : Bytes → Direction → Option Known → Bytes → Bool → Message
unfolding classify_known classify_other
classify_with raw supplied none decoded stuffed = classify_other raw supplied decoded stuffed
classify_with raw supplied (some known) decoded stuffed =
    classify_known raw supplied known decoded stuffed

-- `classify_message`, after `Direction.coerce`.
unfoldable pub classify_message : Bytes → Direction → Message
unfolding classify_with known_message
classify_message raw supplied =
    let frame = decode_wire_frame raw in
    classify_with raw supplied (known_message raw) frame.logical frame.stuffed
