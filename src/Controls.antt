-- ===== src/Controls.antt =====
-- src/ip_commandmic/controls.py: key names, aliases and wire values.
pub mod Laws
use ip_commandmic.Prelude.{
  ℕ, ◌+◌, ◌-◌, leb, if◌then◌else◌, List, [], ◌∷◌, ◌++◌, Text, codes, Option, none, some, Bool, true,
  false, not, ◌&&◌, ◌||◌, ◌=?◌, one_of, bit_or, lower, strip, replace,
}
use ip_commandmic.Errors.{
  Encoded, ok, err, ◌>>=◌, neutral_names_button, bad_key_action, unknown_button, emergency_gate,
}

abbrev pub key_press_values : List (Text × ℕ)
key_press_values =
    (codes "f1", 0x00)
    ∷ (codes "volume_down", 0x01)
    ∷ (codes "p1", 0x02)
    ∷ (codes "keypad_1", 0x03)
    ∷ (codes "keypad_2", 0x04)
    ∷ (codes "keypad_3", 0x05)
    ∷ (codes "volume_up", 0x10)
    ∷ (codes "p2", 0x12)
    ∷ (codes "keypad_4", 0x13)
    ∷ (codes "keypad_5", 0x14)
    ∷ (codes "keypad_6", 0x15)
    ∷ (codes "up", 0x20)
    ∷ (codes "down", 0x21)
    ∷ (codes "p3", 0x22)
    ∷ (codes "keypad_7", 0x23)
    ∷ (codes "keypad_8", 0x24)
    ∷ (codes "keypad_9", 0x25)
    ∷ (codes "right", 0x30)
    ∷ (codes "left", 0x31)
    ∷ (codes "p4", 0x32)
    ∷ (codes "keypad_star", 0x33)
    ∷ (codes "keypad_0", 0x34)
    ∷ (codes "keypad_hash", 0x35)
    ∷ (codes "emergency", 0x40)
    ∷ []

abbrev pub control_labels : List (Text × Text)
control_labels =
    (codes "f1", codes "Monitor")
    ∷ (codes "volume_up", codes "Volume Up")
    ∷ (codes "volume_down", codes "Volume Down")
    ∷ (codes "p1", codes "P1")
    ∷ (codes "p2", codes "P2")
    ∷ (codes "p3", codes "P3")
    ∷ (codes "p4", codes "P4")
    ∷ (codes "up", codes "Up")
    ∷ (codes "down", codes "Down")
    ∷ (codes "left", codes "Left")
    ∷ (codes "right", codes "Right")
    ∷ (codes "emergency", codes "Emergency")
    ∷ (codes "keypad_0", codes "Keypad 0")
    ∷ (codes "keypad_1", codes "Keypad 1")
    ∷ (codes "keypad_2", codes "Keypad 2")
    ∷ (codes "keypad_3", codes "Keypad 3")
    ∷ (codes "keypad_4", codes "Keypad 4")
    ∷ (codes "keypad_5", codes "Keypad 5")
    ∷ (codes "keypad_6", codes "Keypad 6")
    ∷ (codes "keypad_7", codes "Keypad 7")
    ∷ (codes "keypad_8", codes "Keypad 8")
    ∷ (codes "keypad_9", codes "Keypad 9")
    ∷ (codes "keypad_star", codes "Keypad Star")
    ∷ (codes "keypad_hash", codes "Keypad Hash")
    ∷ []

abbrev pub control_aliases : List (Text × Text)
control_aliases =
    (codes "monitor", codes "f1")
    ∷ (codes "monitor_f1", codes "f1")
    ∷ (codes "f2", codes "volume_up")
    ∷ (codes "vol_up", codes "volume_up")
    ∷ (codes "volume+", codes "volume_up")
    ∷ (codes "f3", codes "volume_down")
    ∷ (codes "vol_down", codes "volume_down")
    ∷ (codes "volume-", codes "volume_down")
    ∷ (codes "emer", codes "emergency")
    ∷ []

abbrev pub control_physical_aliases : List (Text × Text)
control_physical_aliases =
    (codes "f1", codes "F1 side key")
    ∷ (codes "volume_up", codes "F2 side key")
    ∷ (codes "volume_down", codes "F3 side key")
    ∷ (codes "emergency", codes "Orange top key")
    ∷ []

abbrev pub key_neutral_value : ℕ
key_neutral_value = 0x7F

-- table.get(name)
module _ {ℓ} {A : Type ℓ} where
  unfoldable pub text_get : List (Text × A) → Text → Option A
  text_get [] name = none
  text_get ((key, entry) ∷ table) name = if key =? name then some entry else text_get table name

-- `ORDINARY_KEY_BUTTONS`
ordinary : List (Text × ℕ) → List Text
ordinary [] = []
ordinary ((button, value) ∷ table) =
    if button =? codes "emergency" then ordinary table else button ∷ ordinary table

unfoldable pub ordinary_key_buttons : List Text
unfolding ordinary
ordinary_key_buttons = ordinary key_press_values

or_else : Text → Option Text → Text
or_else default none = default
or_else default (some found) = found

unfoldable pub normalize_button_name : Text → Text
unfolding text_get or_else lower strip replace
normalize_button_name button =
    let normalized = replace b'-' b'_' (replace b' ' b'_' (lower (strip button))) in
    or_else normalized (text_get control_aliases normalized)

-- s.title(), for ASCII: `inside` says that a letter stands in front.
unfoldable pub title_from : Bool → Text → Text
title_from inside [] = []
title_from inside (c ∷ s) =
    let is_lower = leb b'a' c && leb c b'z' in
    let is_upper = leb b'A' c && leb c b'Z' in
    (if is_lower && not inside then c - 32 else if is_upper && inside then c + 32 else c)
    ∷ title_from (is_lower || is_upper) s

with_alias : Text → Option Text → Text
with_alias label none = label
with_alias label (some alias) = label ++ (codes " (" ++ (alias ++ codes ")"))

unfoldable pub control_display_name : Text → Text
unfolding normalize_button_name text_get or_else replace title_from with_alias
control_display_name button =
    let canonical = normalize_button_name button in
    with_alias
      (or_else (title_from false (replace b'_' b' ' canonical)) (text_get control_labels canonical))
      (text_get control_physical_aliases canonical)

-- The value of a canonical name behind the emergency gate.
gated_value : Text → Text → Bool → Option ℕ → Encoded ℕ
gated_value button action allow_emergency none = err unknown_button
gated_value button action allow_emergency (some value) =
    if (button =? codes "emergency") && not allow_emergency
    then err emergency_gate
    else ok (bit_or value (if action =? codes "release" then 0x80 else 0))

named_value : Option Text → Text → Bool → Encoded ℕ
unfolding gated_value text_get normalize_button_name
named_value none action allow_emergency = err unknown_button
named_value (some button) action allow_emergency =
    let canonical = normalize_button_name button in
    gated_value canonical action allow_emergency (text_get key_press_values canonical)

neutral_value : Option Text → Encoded ℕ
neutral_value none = ok key_neutral_value
neutral_value (some button) = err neutral_names_button

unfoldable pub key_wire_value : Option Text → Text → Bool → Encoded ℕ
unfolding named_value neutral_value
key_wire_value button action allow_emergency =
    if action =? codes "neutral"
    then neutral_value button
    else if not (one_of action (codes "press" ∷ codes "release" ∷ []))
    then err bad_key_action
    else named_value button action allow_emergency

unfoldable pub key_tap_values : Text → Bool → Encoded (ℕ × ℕ × ℕ)
unfolding key_wire_value
key_tap_values button allow_emergency = do
  press ← key_wire_value (some button) (codes "press") allow_emergency
  release ← key_wire_value (some button) (codes "release") allow_emergency
  ok (press, release, key_neutral_value)
