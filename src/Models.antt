-- ===== src/Models.antt =====
-- src/ip_commandmic/models.py: directions, message kinds and the message record.
pub mod Body
use Prim.Native.String.{String}
use text.Mathlib.Text.{◌==◌ as str_eq}
use ip_commandmic.Prelude.{
  ℕ, ◌-◌, List, [], ◌∷◌, Bytes, Text, Option, none, some, Bool, true, false, ◌&&◌, codes, length,
  leb, slice, if◌then◌else◌, ◌=?◌, lower, from_hex,
}

pub data Direction : Type 0 where
  radio_to_mic mic_to_radio unknown : Direction

-- The aliases of `Direction.coerce` for a text; `none` is its ValueError.
unfoldable pub coerce : Text → Option Direction
unfolding lower
coerce value =
    let name = lower value in
    if name =? codes "radio"
    then some radio_to_mic
    else if name =? codes "rx"
    then some radio_to_mic
    else if name =? codes "radio_to_mic"
    then some radio_to_mic
    else if name =? codes "mic"
    then some mic_to_radio
    else if name =? codes "tx"
    then some mic_to_radio
    else if name =? codes "mic_to_radio"
    then some mic_to_radio
    else if name =? codes "unknown"
    then some unknown
    else none

-- `Direction.value`
unfoldable pub direction_value : Direction → String
direction_value radio_to_mic = "radio_to_mic"
direction_value mic_to_radio = "mic_to_radio"
direction_value unknown = "unknown"

pub data MessageKind : Type 0 where
  heartbeat key_state ptt_state audio_state audio_status power_state mic_gain : MessageKind
  backlight_state display_sync display_update display_ack unknown unframed : MessageKind

-- `MessageKind.value`
unfoldable pub kind_value : MessageKind → String
kind_value heartbeat = "heartbeat"
kind_value key_state = "key_state"
kind_value ptt_state = "ptt_state"
kind_value audio_state = "audio_state"
kind_value audio_status = "audio_status"
kind_value power_state = "power_state"
kind_value mic_gain = "mic_gain"
kind_value backlight_state = "backlight_state"
kind_value display_sync = "display_sync"
kind_value display_update = "display_update"
kind_value display_ack = "display_ack"
kind_value MessageKind.unknown = "unknown"
kind_value unframed = "unframed"

-- The values that a metadata dictionary holds. A constant `str` is `str`, a computed one
-- is `chars`; `names`, `numbers` and `pairs` are lists, and `segment_pattern` is
-- the dictionary of segments by position, indicators and decimal points.
pub data Value : Type 0 where
  null : Value
  flag : Bool → Value
  int : ℕ → Value
  str : String → Value
  chars : Text → Value
  names : List String → Value
  numbers : List ℕ → Value
  pairs : List (ℕ × ℕ) → Value
  segment_pattern : List (List String) → List String → List ℕ → Value

abbrev pub Metadata : Type 0
Metadata = List (String × Value)

-- metadata.get(key)
unfoldable pub get : Metadata → String → Option Value
get [] key = none
get ((name, value) ∷ rest) key = if str_eq name key then some value else get rest key

pub record Message : Type 0 where
  pub raw : Bytes
  pub direction : Direction
  pub kind : MessageKind
  pub framing_valid : Bool
  pub checksum_valid : Option Bool
  pub evidence : Option String
  pub metadata : Metadata

-- `raw[2:-1]` of a valid frame, and all of anything else.
raw_body : Message → Bytes
raw_body m =
    if m.framing_valid && leb 3 (length m.raw) then slice m.raw 2 (length m.raw - 1) else m.raw

body_of : Message → Option Value → Option Bytes
body_of m (some (chars payload_hex)) = from_hex payload_hex
body_of m _ = some (raw_body m)

-- `Message.body`; `none` is the ValueError of `bytes.fromhex`.
unfoldable pub body : Message → Option Bytes
unfolding body_of raw_body get from_hex
body m = body_of m (get m.metadata "payload_hex")
