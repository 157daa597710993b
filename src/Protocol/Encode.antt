-- ===== src/Protocol/Encode.antt =====
-- The encoders of src/ip_commandmic/protocol.py: key states, display transactions, LED, backlight,
-- microphone gain, push-to-talk, power and audio path. A `ValueError` is an `err`.
pub mod Display
pub mod Keys
use ip_commandmic.Prelude.{
  ℕ, ◌+◌, ◌==◌, leb, if◌then◌else◌, List, [], ◌∷◌, Bytes, Text, codes, Option, none, some, Bool,
  true, false, not, ◌&&◌, ◌=?◌, one_of, replicate,
}
use ip_commandmic.Errors.{
  Encoded, EncodeError, ok, err, ◌>>=◌, bad_status_led, bad_backlight_state, bad_mic_gain,
  bad_ptt_action, bad_power_action, bad_audio_path,
}
use ip_commandmic.Controls.{key_wire_value, key_tap_values}
use ip_commandmic.Display.Buffer.{DisplayBuffer}
use ip_commandmic.Models.{Message}
use ip_commandmic.Protocol.Frame.{build_frame}

-- What `encode_message` takes: a message or bytes.
pub data Encodable : Type 0 where
  message : Message → Encodable
  raw_bytes : Bytes → Encodable

unfoldable pub encode_message : Encodable → Bytes
encode_message (message m) = m.raw
encode_message (raw_bytes bs) = bs

-- The default of `start_byte`.
abbrev pub default_start : ℕ
default_start = 0xF3

unfoldable pub encode_key_state : Option Text → Text → Bool → Encoded Bytes
encode_key_state button action allow_emergency = do
  value ← key_wire_value button action allow_emergency
  build_frame 0x01 0x01 (value ∷ []) default_start

unfoldable pub encode_key_tap : Text → Bool → Encoded (Bytes × Bytes × Bytes)
encode_key_tap button allow_emergency = do
  values ← key_tap_values button allow_emergency
  press ← build_frame 0x01 0x01 (values.0 ∷ []) default_start
  release ← build_frame 0x01 0x01 (values.1 ∷ []) default_start
  neutral ← build_frame 0x01 0x01 (values.2 ∷ []) default_start
  ok (press, release, neutral)

unfoldable pub encode_display_transaction : DisplayBuffer → Encoded (Bytes × Bytes × Bytes)
encode_display_transaction display = do
  before ← build_frame 0x02 0x07 (0x02 ∷ []) default_start
  buffer ← build_frame 0x02 0x0A display.raw default_start
  after ← build_frame 0x02 0x08 (0x00 ∷ 0x44 ∷ []) default_start
  ok (before, buffer, after)

unfoldable pub led_value : Text → Option ℕ
led_value color =
    if color =? codes "off"
    then some 0x00
    else if color =? codes "red"
    then some 0x02
    else if color =? codes "green"
    then some 0x04
    else if color =? codes "orange"
    then some 0x06
    else none

-- A frame with the value that was looked up, or the encoder's error.
frame_with : ℕ → ℕ → EncodeError → Option ℕ → Encoded Bytes
frame_with message_class command failure none = err failure
frame_with message_class command failure (some value) =
    build_frame message_class command (value ∷ []) default_start

unfoldable pub encode_status_led : Text → Encoded Bytes
unfolding led_value frame_with
encode_status_led color = frame_with 0x02 0x02 bad_status_led (led_value color)

unfoldable pub backlight_value : Text → Option ℕ
backlight_value state =
    if state =? codes "off"
    then some 0x00
    else if state =? codes "dim"
    then some 0x01
    else if state =? codes "on"
    then some 0x02
    else none

unfoldable pub encode_backlight_state : Text → Encoded Bytes
unfolding backlight_value frame_with
encode_backlight_state state = frame_with 0x02 0x0B bad_backlight_state (backlight_value state)

-- For a level that is an integer and not negative.
unfoldable pub encode_mic_gain_transaction : ℕ → Encoded (Bytes × Bytes)
encode_mic_gain_transaction level =
    if not (leb 1 level && leb level 5) then err bad_mic_gain else do
      first ← build_frame 0x02 0x0E (level ∷ []) default_start
      second ← build_frame 0x02 0x0E ((level + 1) ∷ []) default_start
      ok (first, second)

pressed_byte : Text → ℕ
pressed_byte action = if action =? codes "press" then 1 else 0

unfoldable pub encode_ptt_state : Text → Encoded Bytes
unfolding pressed_byte
encode_ptt_state action =
    if not (one_of action (codes "press" ∷ codes "release" ∷ []))
    then err bad_ptt_action
    else build_frame 0x01 0x00 (pressed_byte action ∷ []) default_start

unfoldable pub encode_power_state : Text → Encoded Bytes
unfolding pressed_byte
encode_power_state action =
    if not (one_of action (codes "press" ∷ codes "release" ∷ []))
    then err bad_power_action
    else build_frame 0x01 0x09 (pressed_byte action ∷ []) default_start

unfoldable pub audio_path_payload : Text → Option Bytes
audio_path_payload state =
    if state =? codes "receive_open"
    then some (0x01 ∷ replicate 3 0)
    else if state =? codes "transmit_active"
    then some (0x08 ∷ replicate 3 0)
    else if state =? codes "closed"
    then some (replicate 4 0)
    else none

audio_frame : Option Bytes → Encoded Bytes
audio_frame none = err bad_audio_path
audio_frame (some payload) = build_frame 0x01 0x04 payload default_start

unfoldable pub encode_audio_path : Text → Encoded Bytes
unfolding audio_path_payload audio_frame
encode_audio_path state = audio_frame (audio_path_payload state)
