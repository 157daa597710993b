-- ===== src/Protocol/Readings.antt =====
-- The chain of `classify_message` in src/ip_commandmic/protocol.py that reads an ordinary frame:
-- by direction, class, command and payload it finds a kind, an evidence text and metadata.
use Prim.Native.String.{String}
use ip_commandmic.Prelude.{
  ℕ, ◌==◌, leb, if◌then◌else◌, List, [], ◌∷◌, ◌++◌, Bytes, Text, codes, Option, none, some, Bool,
  true, false, not, ◌&&◌, ◌=?◌, one_of, bit_and, bit_or, length, get_or, replicate, is_digit,
  int_of, split,
}
use ip_commandmic.Models.{
  Direction, radio_to_mic, mic_to_radio, MessageKind, Value, null, flag, int, str, chars, Metadata,
  ptt_state, audio_state, audio_status, backlight_state, mic_gain, power_state, key_state,
  display_sync, display_update, display_ack,
}
use ip_commandmic.Controls.{key_press_values, key_neutral_value}
use ip_commandmic.Display.Buffer.{DisplayBuffer, primary_text}
use ip_commandmic.Display.Buffer.Metadata.{to_metadata}

-- What one branch of the chain assigns.
pub record Reading : Type 0 where
  pub kind : MessageKind
  pub evidence : Option String
  pub extra : Metadata

abbrev pub from_radio : Direction → Bool
from_radio radio_to_mic = true
from_radio _ = false

abbrev pub from_mic : Direction → Bool
from_mic mic_to_radio = true
from_mic _ = false

-- The button and the action of an entry of `_VERIFIED_KEY_STATES`.
abbrev pub KeyState : Type 0
KeyState = Value × Value

pressed : List (Text × ℕ) → List (ℕ × KeyState)
pressed [] = []
pressed ((button, value) ∷ table) = (value, (chars button, str "press")) ∷ pressed table

released : List (Text × ℕ) → List (ℕ × KeyState)
released [] = []
released ((button, value) ∷ table) =
    (bit_or value 0x80, (chars button, str "release")) ∷ released table

-- The entry of a key; of two entries for one key the later one counts.
last_entry : KeyState → List (ℕ × KeyState) → ℕ → KeyState
last_entry found [] key = found
last_entry found ((k, state) ∷ table) key = last_entry (if k == key then state else found) table key

-- `_VERIFIED_KEY_STATES.get(value, (None, "unknown"))`
unfoldable pub verified_key_state : ℕ → KeyState
unfolding last_entry pressed released
verified_key_state value =
    last_entry (null, str "unknown")
      (pressed key_press_values
        ++ (released key_press_values ++ (key_neutral_value, (null, str "neutral")) ∷ []))
      value

audio_state_name : Bytes → String
audio_state_name payload =
    if payload =? replicate 4 0
    then "closed"
    else if payload =? (1 ∷ replicate 3 0)
    then "receive_open"
    else "transmit_active"

audio_status_name : ℕ → String
audio_status_name value =
    if value == 0
    then "idle"
    else if value == 2
    then "transmit_active"
    else if value == 4
    then "receive_active"
    else "combined_active"

led_color_name : ℕ → String
led_color_name value =
    if value == 0
    then "off"
    else if value == 2
    then "red"
    else if value == 4
    then "green"
    else "orange"

backlight_name : ℕ → String
backlight_name value = if value == 0 then "off" else if value == 1 then "dim" else "on"

press_or_release : Bytes → Value
press_or_release payload = str (if payload =? (1 ∷ []) then "press" else "release")

-- The volume of a primary text "VOL n".
volume_of : List Text → Metadata
volume_of (first ∷ second ∷ []) =
    if (first =? codes "VOL") && is_digit second
    then ("volume_level", int (int_of second)) ∷ []
    else []
volume_of _ = []

ptt_reading : Bytes → Reading
ptt_reading payload = record {
  kind = ptt_state;
  evidence = some "PTT down/up mapped during dummy-load transmit trial";
  extra =
      ("ptt_action", press_or_release payload) ∷ ("ptt_active", flag (payload =? (1 ∷ []))) ∷ [];
}

audio_state_reading : Bytes → Reading
audio_state_reading payload = record {
  kind = audio_state;
  evidence = some "audio open/TX active/close mapped in F1 and PTT trials";
  extra = ("audio_state", str (audio_state_name payload)) ∷ [];
}

audio_status_reading : ℕ → Reading
audio_status_reading value = record {
  kind = audio_status;
  evidence =
      some
        "audio/status correlates mapped in F1/PTT trials; LED colors verified in isolated observed-value scan";
  extra =
      ("audio_status", str (audio_status_name value))
      ∷ ("status_led_red", flag (not (bit_and value 0x02 == 0)))
      ∷ ("status_led_green", flag (not (bit_and value 0x04 == 0)))
      ∷ ("status_led_color", str (led_color_name value))
      ∷ [];
}

backlight_reading : ℕ → Reading
backlight_reading value = record {
  kind = backlight_state;
  evidence =
      some
        "CPS Backlight OFF/Dim/ON comparison plus OFF Auto startup and key-triggered five-second transitions";
  extra =
      ("backlight_value", int value)
      ∷ ("backlight_state", str (backlight_name value))
      ∷ ("backlight_active", flag (not (value == 0)))
      ∷ ("backlight_dimmed", flag (value == 1))
      ∷ [];
}

mic_gain_reading : ℕ → Reading
mic_gain_reading value = record {
  kind = mic_gain;
  evidence =
      some
        "Gain 2/3/4 codeplug differential: first startup value equals programmed gain and the following value is gain plus one";
  extra = ("mic_gain_value", int value) ∷ [];
}

power_reading : Bytes → Reading
power_reading payload = record {
  kind = power_state;
  evidence = some "Power press/release mapped by short-tap and hold trials";
  extra =
      ("power_action", press_or_release payload)
      ∷ ("power_active", flag (payload =? (1 ∷ [])))
      ∷ [];
}

key_reading : ℕ → Reading
key_reading value = record {
  kind = key_state;
  evidence = some "01/01 physical key-state structure reproduced in three-trial mappings";
  extra =
      ("key_wire_value", int value)
      ∷ ("key_button", (verified_key_state value).0)
      ∷ ("key_action", (verified_key_state value).1)
      ∷ [];
}

before_buffer_reading : Reading
before_buffer_reading = record {
  kind = display_sync;
  evidence = some "precedes all six verified channel display buffers";
  extra = ("display_sync_phase", str "before_buffer") ∷ [];
}

display_reading : Bytes → Reading
display_reading payload =
    let display : DisplayBuffer = record { raw = payload } in
    record {
      kind = display_update;
      evidence = some "68-byte display buffer; first 8 bytes verified as primary display text";
      extra = to_metadata display ++ volume_of (split (primary_text display));
    }

after_buffer_reading : Reading
after_buffer_reading = record {
  kind = display_sync;
  evidence = some "follows all six verified channel display buffers";
  extra = ("display_sync_phase", str "after_buffer") ∷ [];
}

ack_reading : Reading
ack_reading = record {
  kind = display_ack;
  evidence = some "microphone response after all six verified channel display buffers";
  extra = [];
}

unknown_reading : Reading
unknown_reading = record { kind = MessageKind.unknown; evidence = none; extra = [] }

-- The branches from the microphone gain on.
read_later : Direction → ℕ → ℕ → Bytes → Reading
unfolding mic_gain_reading power_reading key_reading before_buffer_reading display_reading
    after_buffer_reading ack_reading unknown_reading press_or_release volume_of verified_key_state
read_later direction message_class command payload =
    let first = get_or payload 0 0 in
    let single = length payload == 1 in
    if from_radio direction
      && (message_class == 0x02)
      && (command == 0x0E)
      && single
      && (leb 1 first && leb first 6)
    then mic_gain_reading first
    else if from_mic direction
        && (message_class == 0x01)
        && (command == 0x09)
        && one_of payload ((0 ∷ []) ∷ (1 ∷ []) ∷ [])
    then power_reading payload
    else if from_mic direction && (message_class == 0x01) && (command == 0x01) && single
    then key_reading first
    else if from_radio direction
        && (message_class == 0x02)
        && (command == 0x07)
        && (payload =? (2 ∷ []))
    then before_buffer_reading
    else if from_radio direction
        && (message_class == 0x02)
        && (command == 0x0A)
        && (length payload == 68)
    then display_reading payload
    else if from_radio direction
        && (message_class == 0x02)
        && (command == 0x08)
        && (payload =? (0x00 ∷ 0x44 ∷ []))
    then after_buffer_reading
    else if from_mic direction
        && (message_class == 0x02)
        && (command == 0x09)
        && (payload =? (1 ∷ []))
    then ack_reading
    else unknown_reading

-- The whole chain.
unfoldable pub read_ordinary : Direction → ℕ → ℕ → Bytes → Reading
unfolding ptt_reading audio_state_reading audio_status_reading backlight_reading read_later
    audio_state_name audio_status_name led_color_name backlight_name
read_ordinary direction message_class command payload =
    let first = get_or payload 0 0 in
    if from_mic direction
      && (message_class == 0x01)
      && (command == 0x00)
      && one_of payload ((0 ∷ []) ∷ (1 ∷ []) ∷ [])
    then ptt_reading payload
    else if from_radio direction
        && (message_class == 0x01)
        && (command == 0x04)
        && one_of payload (replicate 4 0 ∷ (1 ∷ replicate 3 0) ∷ (8 ∷ replicate 3 0) ∷ [])
    then audio_state_reading payload
    else if from_radio direction
        && (message_class == 0x02)
        && (command == 0x02)
        && one_of payload ((0 ∷ []) ∷ (2 ∷ []) ∷ (4 ∷ []) ∷ (6 ∷ []) ∷ [])
    then audio_status_reading first
    else if from_radio direction
        && (message_class == 0x02)
        && (command == 0x0B)
        && one_of payload ((0 ∷ []) ∷ (1 ∷ []) ∷ (2 ∷ []) ∷ [])
    then backlight_reading first
    else read_later direction message_class command payload
