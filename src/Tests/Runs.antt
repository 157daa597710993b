-- ===== src/Tests/Runs.antt =====
-- Runs of the model: the CRC's check value, observed heartbeats, an encoder, a cut stream.
use ip_commandmic.Prelude.{
  ℕ, ◌≡◌, refl, List, [], ◌∷◌, Bytes, codes, Option, none, some, true, false, length,
}
use ip_commandmic.Checksum.{
  crc16, sum8, xor8, crc16_modbus, crc16_xmodem, crc16_ccitt_false, crc16_arc,
}
use ip_commandmic.Errors.{
  ok, err, emergency_gate, unknown_button, neutral_names_button, bad_key_action,
}
use ip_commandmic.Models.{unknown, radio_to_mic, heartbeat, coerce, Message}
use ip_commandmic.Controls.{
  key_wire_value, normalize_button_name, control_display_name, ordinary_key_buttons,
}
use ip_commandmic.Protocol.Stuffing.{stuff_bytes, unstuff_bytes}
use ip_commandmic.Protocol.Frame.{build_frame, crc16_commandmic, decode_wire_frame, from_bytes_big}
use ip_commandmic.Protocol.Classify.{radio_idle_heartbeat, mic_idle_heartbeat, classify_message}
use ip_commandmic.Protocol.Stream.{parse_round, parse_stream, iter_messages}

digits : Bytes
digits = codes "123456789"

check_values :
    (crc16_modbus digits ≡ 0x4B37)
    × (crc16_xmodem digits ≡ 0x31C3)
    × (crc16_ccitt_false digits ≡ 0x29B1)
    × (crc16_arc digits ≡ 0xBB3D)
    × (sum8 digits ≡ 0xDD)
    × (xor8 digits ≡ 0x31)
unfolding digits crc16_modbus crc16_xmodem crc16_ccitt_false crc16_arc sum8 xor8
check_values = (refl, refl, refl, refl, refl, refl)

heartbeats :
    ((classify_message radio_idle_heartbeat unknown).direction ≡ radio_to_mic)
    × ((classify_message radio_idle_heartbeat unknown).checksum_valid ≡ some true)
    × ((classify_message mic_idle_heartbeat unknown).kind ≡ heartbeat)
    × ((classify_message mic_idle_heartbeat unknown).checksum_valid ≡ some true)
unfolding classify_message crc16_commandmic crc16 decode_wire_frame unstuff_bytes from_bytes_big
heartbeats = (refl, refl, refl, refl)

-- The idle heartbeat is the frame that `build_frame` makes.
built_heartbeat : build_frame 5 0 (0x4D ∷ 0x00 ∷ []) 0xF3 ≡ ok radio_idle_heartbeat
unfolding build_frame stuff_bytes crc16_commandmic crc16
built_heartbeat = refl

names :
    (normalize_button_name (codes " Vol-Up ") ≡ codes "volume_up")
    × (control_display_name (codes "monitor") ≡ codes "Monitor (F1 side key)")
    × (length ordinary_key_buttons ≡ 23)
    × (coerce (codes "RX") ≡ some radio_to_mic)
unfolding normalize_button_name control_display_name ordinary_key_buttons coerce
names = (refl, refl, refl, refl)

gates :
    (key_wire_value (some (codes "emer")) (codes "press") false ≡ err emergency_gate)
    × (key_wire_value (some (codes "emer")) (codes "release") true ≡ ok 0xC0)
    × (key_wire_value (some (codes "p5")) (codes "press") true ≡ err unknown_button)
    × (key_wire_value (some (codes "p1")) (codes "neutral") true ≡ err neutral_names_button)
    × (key_wire_value none (codes "neutral") true ≡ ok 0x7F)
    × (key_wire_value none (codes "hold") true ≡ err bad_key_action)
unfolding key_wire_value
gates = (refl, refl, refl, refl, refl, refl)

abbrev message_count : Option (List Message) → ℕ
message_count none = 0
message_count (some ms) = length ms

-- Two bytes of noise, a heartbeat that is cut in two, and a magic at the end that is not complete.
cut_stream :
    message_count (
      iter_messages
        ((0x00 ∷ 0x01 ∷ 0xF3 ∷ [])
          ∷ (0x41 ∷ 0x71 ∷ 0x05 ∷ 0x00 ∷ 0x00 ∷ 0x02 ∷ 0x4D ∷ 0x00 ∷ [])
          ∷ (0x35 ∷ 0x70 ∷ 0xFD ∷ 0xF3 ∷ 0x41 ∷ [])
          ∷ [])
        radio_to_mic)
    ≡ 3
unfolding iter_messages parse_stream parse_round
cut_stream = refl
