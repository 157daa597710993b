-- ===== src/Emulator/Tails.antt =====
-- The display tails of the diagnostics in src/ip_commandmic/emulator.py: `none` is the ValueError of
-- a value that the diagnostic does not allow.
use ip_commandmic.Prelude.{
  ℕ, zero, suc, ◌+◌, ◌-◌, ◌==◌, leb, if◌then◌else◌, List, [], ◌∷◌, ◌++◌, Bytes, Text, codes, Bool,
  true, false, not, ◌&&◌, ◌=?◌, Option, none, some, one_of, bit_or, replicate, drop,
}
use ip_commandmic.Emulator.Frames.{display_suffix}

-- `value in (...)`
abbrev pub among : ℕ → List ℕ → Bool
among value [] = false
among value (v ∷ vs) = if value == v then true else among value vs

-- tail[index] = value, of an index in range.
unfoldable pub set_at : ℕ → ℕ → Bytes → Bytes
set_at index value [] = []
set_at zero value (b ∷ bs) = value ∷ bs
set_at (suc index) value (b ∷ bs) = b ∷ set_at index value bs

-- No bit, or one.
abbrev pub one_bit : List ℕ
one_bit = 0x00 ∷ 0x01 ∷ 0x02 ∷ 0x04 ∷ 0x08 ∷ 0x10 ∷ 0x20 ∷ 0x40 ∷ 0x80 ∷ []

abbrev pub blank_tail : Bytes
blank_tail = replicate 60 0

abbrev pub allowed : List ℕ → ℕ → Bytes → Option Bytes
allowed values value tail = if not (among value values) then none else some tail

-- Every indicator and point on.
unfoldable pub all_visible : Bytes
unfolding set_at
all_visible =
    set_at (59 - 8) 0xF0
      (set_at (58 - 8) 0xFF (set_at (57 - 8) 0xFF (set_at (56 - 8) 0xFF blank_tail)))

abbrev pub ladder_values : List ℕ
ladder_values = 0x80 ∷ 0x90 ∷ 0xA0 ∷ 0xB0 ∷ 0xC0 ∷ 0xD0 ∷ 0xE0 ∷ 0xF0 ∷ []

unfoldable pub tail_with_offset56 : ℕ → Option Bytes
unfolding set_at
tail_with_offset56 value =
    allowed (0x00 ∷ 0x88 ∷ 0x8A ∷ 0xFA ∷ []) value (set_at (56 - 8) value display_suffix)

unfoldable pub tail_with_offset56_low_candidate : ℕ → Option Bytes
unfolding set_at
tail_with_offset56_low_candidate value =
    allowed (0x00 ∷ 0x08 ∷ 0x80 ∷ 0x88 ∷ []) value (set_at (56 - 8) value display_suffix)

unfoldable pub tail_with_offset56_rssi_candidate : ℕ → Option Bytes
unfolding set_at
tail_with_offset56_rssi_candidate value =
    allowed ladder_values value (set_at (56 - 8) value display_suffix)

unfoldable pub tail_with_offset56_remaining_candidate : ℕ → Option Bytes
unfolding set_at
tail_with_offset56_remaining_candidate value =
    allowed (0x00 ∷ 0x01 ∷ 0x04 ∷ 0x05 ∷ []) value (set_at (56 - 8) value display_suffix)

unfoldable pub tail_with_offset57_candidate : ℕ → Option Bytes
unfolding set_at
tail_with_offset57_candidate value = allowed one_bit value (set_at (57 - 8) value blank_tail)

unfoldable pub tail_with_offset58_candidate : ℕ → Option Bytes
unfolding set_at
tail_with_offset58_candidate value = allowed one_bit value (set_at (58 - 8) value blank_tail)

unfoldable pub tail_with_offset59_candidate : ℕ → Option Bytes
unfolding set_at
tail_with_offset59_candidate value = allowed one_bit value (set_at (59 - 8) value blank_tail)

unfoldable pub tail_with_offset59_low_and_all_visible : ℕ → Option Bytes
unfolding set_at all_visible
tail_with_offset59_low_and_all_visible value =
    allowed (0x00 ∷ 0x01 ∷ 0x02 ∷ 0x04 ∷ 0x08 ∷ 0x0F ∷ []) value
      (set_at (59 - 8) (bit_or 0xF0 value) all_visible)

unfoldable pub tail_with_offset60_and_all_visible : ℕ → Option Bytes
unfolding set_at all_visible
tail_with_offset60_and_all_visible value = allowed one_bit value (set_at (60 - 8) value all_visible)

unfoldable pub tail_with_offset61_and_all_visible : ℕ → Option Bytes
unfolding set_at all_visible
tail_with_offset61_and_all_visible value = allowed one_bit value (set_at (61 - 8) value all_visible)

unfoldable pub tail_with_offset62_and_all_visible : ℕ → Option Bytes
unfolding set_at all_visible
tail_with_offset62_and_all_visible value = allowed one_bit value (set_at (62 - 8) value all_visible)

unfoldable pub tail_with_offset63_and_all_visible : ℕ → Option Bytes
unfolding set_at all_visible
tail_with_offset63_and_all_visible value = allowed one_bit value (set_at (63 - 8) value all_visible)

unfoldable pub tail_with_offset64_and_all_visible : ℕ → Option Bytes
unfolding set_at all_visible
tail_with_offset64_and_all_visible value = allowed one_bit value (set_at (64 - 8) value all_visible)

unfoldable pub tail_with_offset65_and_all_visible : ℕ → Option Bytes
unfolding set_at all_visible
tail_with_offset65_and_all_visible value = allowed one_bit value (set_at (65 - 8) value all_visible)

unfoldable pub tail_with_offset66_and_all_visible : ℕ → Option Bytes
unfolding set_at all_visible
tail_with_offset66_and_all_visible value = allowed one_bit value (set_at (66 - 8) value all_visible)

unfoldable pub tail_with_offset67_and_all_visible : ℕ → Option Bytes
unfolding set_at all_visible
tail_with_offset67_and_all_visible value = allowed one_bit value (set_at (67 - 8) value all_visible)

-- tail[0:20] = b" " * 20, under the low power and RSSI icons.
unfoldable pub keypad_tail : Bytes
unfolding set_at
keypad_tail = set_at (56 - 8) 0x88 (replicate 20 0x20 ++ drop 20 blank_tail)

unfoldable pub tail_for_offsets8_33_observed_probe : Text → Option Bytes
unfolding set_at keypad_tail
tail_for_offsets8_33_observed_probe stage =
    if not (
      one_of stage (codes "plain" ∷ codes "keypad_base" ∷ codes "offset32" ∷ codes "offset33" ∷ []))
    then none
    else if stage =? codes "plain"
    then some (set_at (56 - 8) 0x88 blank_tail)
    else if stage =? codes "offset32"
    then some (set_at (32 - 8) 0x80 keypad_tail)
    else if stage =? codes "offset33"
    then some (set_at (33 - 8) 0x80 keypad_tail)
    else some keypad_tail

unfoldable pub tail_for_character_blink_position : ℕ → Option Bytes
unfolding set_at keypad_tail
tail_for_character_blink_position position =
    if not (leb 1 position && leb position 8)
    then none
    else some (set_at (28 + position - 1 - 8) 0x80 keypad_tail)

unfoldable pub tail_for_character_attribute_value : ℕ → ℕ → Option Bytes
unfolding set_at keypad_tail
tail_for_character_attribute_value value position =
    if not (leb 1 position && leb position 8)
    then none
    else allowed one_bit value (set_at (28 + position - 1 - 8) value keypad_tail)
