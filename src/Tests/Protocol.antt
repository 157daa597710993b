-- ===== src/Tests/Protocol.antt =====
-- The theorems on checksums, frames, streams and keys at concrete inputs.
use ip_commandmic.Prelude.{
  ℕ, ◌<◌, ◌≡◌, ◌≢◌, refl, arith, inl, List, [], ◌∷◌, ◌++◌, Bytes, All, codes, some, true, false,
}
use ip_commandmic.Checksum.{crc16}
use ip_commandmic.Checksum.Detect.{crc16_single_byte}
use ip_commandmic.Errors.{ok}
use ip_commandmic.Models.{Message, mic_to_radio, radio_to_mic, key_state, chars, str, get, body}
use ip_commandmic.Controls.{key_wire_value, normalize_button_name}
use ip_commandmic.Controls.Laws.{key_wire_value-gated}
use ip_commandmic.Protocol.Stuffing.{
  stuff_bytes, unstuff_bytes, unstuff-stuff, IsPlain, stuff-IsPlain,
}
use ip_commandmic.Protocol.Frame.{
  build_frame, frame_of, decode_wire_frame, logical_tail, to_bytes_big, crc16_commandmic,
}
use ip_commandmic.Protocol.Frame.RoundTrip.{IsSendable, decode-frame_of}
use ip_commandmic.Protocol.Readings.{read_ordinary}
use ip_commandmic.Protocol.Classify.{classify_message}
use ip_commandmic.Protocol.Classify.Built.{classify-build_frame}
use ip_commandmic.Protocol.Stream.{Parsed, parse_stream, iter_messages}
use ip_commandmic.Protocol.Stream.Lossless.{parse_stream-lossless, iter_messages-lossless}
use ip_commandmic.Protocol.Stream.Lossless.Rounds.{raws}
use ip_commandmic.Protocol.Stream.Sequence.{all_classified, parse_stream-frames, frame_of-IsWire}
use ip_commandmic.Protocol.Encode.{encode_key_state}
use ip_commandmic.Protocol.Encode.Keys.{encode_key_state-parse}

crc16_single_byte_example :
    crc16 (0x41 ∷ 0x71 ∷ 0x02 ∷ []) 0xA001 0xFFFF true
    ≢ crc16 (0x41 ∷ 0x70 ∷ 0x02 ∷ []) 0xA001 0xFFFF true
crc16_single_byte_example =
    crc16_single_byte 0xA001 0xFFFF (omega arith) (omega arith) (0x41 ∷ []) (0x02 ∷ []) 0x71 0x70
      (omega arith) (omega arith) (omega arith) (omega arith) (omega arith)

unstuff-stuff_example :
    unstuff_bytes (stuff_bytes (0xFD ∷ 0x10 ∷ 0xFF ∷ [])) ≡ 0xFD ∷ 0x10 ∷ 0xFF ∷ []
unstuff-stuff_example = unstuff-stuff (0xFD ∷ 0x10 ∷ 0xFF ∷ []) (omega arith)

stuff-IsPlain_example : All IsPlain (stuff_bytes (0xFD ∷ 0x10 ∷ 0xF3 ∷ []))
stuff-IsPlain_example = stuff-IsPlain (0xFD ∷ 0x10 ∷ 0xF3 ∷ []) (omega arith)

-- A status LED frame: class 2, command 2, orange.
abbrev led : IsSendable 0x02 0x02 (0x06 ∷ []) 0xF3
led = record {
  start = inl refl;
  class_byte = omega arith;
  command_byte = omega arith;
  short = omega arith;
  bytes = omega arith;
}

abbrev led_frame : Bytes
led_frame = frame_of 0x02 0x02 (0x06 ∷ []) 0xF3

abbrev led_tail : Bytes
led_tail = logical_tail 0x02 0x02 (0x06 ∷ [])

decode-frame_of_example :
    (decode_wire_frame led_frame).logical
    ≡ 0xF3 ∷ ((led_tail ++ to_bytes_big (crc16_commandmic led_tail)) ++ 0xFD ∷ [])
decode-frame_of_example = decode-frame_of led

classify-build_frame_example :
    let m = classify_message led_frame radio_to_mic in
    let reading = read_ordinary radio_to_mic 0x02 0x02 (0x06 ∷ []) in
    (build_frame 0x02 0x02 (0x06 ∷ []) 0xF3 ≡ ok led_frame)
    × (m.framing_valid ≡ true)
    × (m.checksum_valid ≡ some true)
    × (m.kind ≡ reading.kind)
    × (m.evidence ≡ reading.evidence)
    × (body m ≡ some (0x06 ∷ []))
classify-build_frame_example = classify-build_frame led radio_to_mic (omega arith)

parse_stream-frames_example :
    parse_stream (led_frame ++ (led_frame ++ [])) radio_to_mic
    ≡ some (all_classified (led_frame ∷ led_frame ∷ []) radio_to_mic)
parse_stream-frames_example =
    parse_stream-frames radio_to_mic (led_frame ∷ led_frame ∷ [])
      (frame_of-IsWire led, (frame_of-IsWire led, tt))

abbrev noise : Bytes
noise = 0x00 ∷ 0xFD ∷ 0xF3 ∷ 0x41 ∷ 0x71 ∷ 0x05 ∷ 0xFD ∷ 0xF5 ∷ []

parse_stream-lossless_example :
    (p : Parsed) × (parse_stream noise radio_to_mic ≡ some p)
    × (raws p.messages ++ p.remainder ≡ noise)
parse_stream-lossless_example = parse_stream-lossless noise radio_to_mic

iter_messages-lossless_example :
    (ms : List Message) × (iter_messages (noise ∷ noise ∷ []) radio_to_mic ≡ some ms)
    × (raws ms ≡ noise ++ (noise ++ []))
iter_messages-lossless_example = iter_messages-lossless (noise ∷ noise ∷ []) radio_to_mic

release_up : key_wire_value (some (codes "F2")) (codes "release") false ≡ ok 0x90
unfolding key_wire_value
release_up = refl

key_wire_value-gated_example :
    (◌≢◌ {A = ℕ} 0x90 0x40) × (◌≢◌ {A = ℕ} 0x90 0xC0) × (◌≢◌ {A = ℕ} 0x90 0x7F) × (0x90 < 256)
key_wire_value-gated_example = key_wire_value-gated (codes "F2") (codes "release") 0x90 release_up

key_frame :
    encode_key_state (some (codes "F2")) (codes "release") false
    ≡ ok (frame_of 0x01 0x01 (0x90 ∷ []) 0xF3)
unfolding encode_key_state key_wire_value build_frame
key_frame = refl

encode_key_state-parse_example :
    let m = classify_message (frame_of 0x01 0x01 (0x90 ∷ []) 0xF3) mic_to_radio in
    (parse_stream (frame_of 0x01 0x01 (0x90 ∷ []) 0xF3) mic_to_radio
      ≡ some (record { messages = m ∷ []; remainder = [] }))
    × (m.kind ≡ key_state)
    × (m.checksum_valid ≡ some true)
    × (get m.metadata "key_button" ≡ some (chars (normalize_button_name (codes "F2"))))
    × (get m.metadata "key_action" ≡ some (str "release"))
encode_key_state-parse_example =
    encode_key_state-parse (codes "F2") (codes "release") false
      (frame_of 0x01 0x01 (0x90 ∷ []) 0xF3) key_frame
