-- ===== src/Display/Buffer/Metadata.antt =====
-- `DisplayBuffer.to_dict` and `DisplayBuffer.to_metadata` of src/ip_commandmic/display.py.
use Prim.Native.String.{String}
use ip_commandmic.Prelude.{ℕ, List, [], ◌∷◌, Option, none, some, hex}
use ip_commandmic.Models.{
  Value, null, int, chars, str, names, numbers, pairs, segment_pattern, Metadata,
}
use ip_commandmic.Display.Tables.{SegmentPattern}
use ip_commandmic.Display.Buffer.{
  DisplayBuffer, byte_at, primary_raw, primary_text, auxiliary_region_raw, character_attribute_raw,
  verified_blinking_character_positions, unknown_tail, verified_offset64_visual_state,
  verified_offset64_pattern, no_change_visual_state, verified_dealer_key_icons,
  verified_decimal_points, unresolved_offset59_low_nibble, verified_blinking_indicators,
  verified_blinking_rssi_bars, verified_secondary_blinking_indicators,
  verified_blinking_dealer_key_icons, verified_blinking_decimal_points,
  unresolved_offset63_low_nibble, verified_indicators, verified_rssi_bars, ascii_projection,
  unknown_nonzero_offsets,
}

str_or_null : Option String → Value
str_or_null none = null
str_or_null (some s) = str s

names_or_null : Option (List String) → Value
names_or_null none = null
names_or_null (some xs) = names xs

numbers_or_null : Option (List ℕ) → Value
numbers_or_null none = null
numbers_or_null (some xs) = numbers xs

pattern_or_null : Option SegmentPattern → Value
pattern_or_null none = null
pattern_or_null (some p) = segment_pattern p.segments_by_position p.indicators p.decimal_points

unfoldable pub to_metadata : DisplayBuffer → Metadata
unfolding str_or_null names_or_null numbers_or_null pattern_or_null
to_metadata d =
    ("display_text", chars (primary_text d))
    ∷ ("display_primary_raw_hex", chars (hex (primary_raw d)))
    ∷ ("display_auxiliary_region_raw_hex", chars (hex (auxiliary_region_raw d)))
    ∷ ("display_character_attribute_raw_hex", chars (hex (character_attribute_raw d)))
    ∷ (
      "display_verified_blinking_character_positions",
      numbers (verified_blinking_character_positions d),
    )
    ∷ ("display_unknown_hex", chars (hex (unknown_tail d)))
    ∷ ("display_indicator_state_byte", int (byte_at d 56))
    ∷ ("display_secondary_indicator_state_byte", int (byte_at d 57))
    ∷ ("display_key_and_point_state_byte", int (byte_at d 58))
    ∷ ("display_verified_dealer_key_icons", names (verified_dealer_key_icons d))
    ∷ ("display_verified_decimal_points", numbers (verified_decimal_points d))
    ∷ ("display_secondary_point_state_byte", int (byte_at d 59))
    ∷ ("display_unresolved_offset59_low_nibble", int (unresolved_offset59_low_nibble d))
    ∷ ("display_primary_blink_mask_byte", int (byte_at d 60))
    ∷ ("display_verified_blinking_indicators", names (verified_blinking_indicators d))
    ∷ ("display_verified_blinking_rssi_bars", numbers (verified_blinking_rssi_bars d))
    ∷ ("display_secondary_blink_mask_byte", int (byte_at d 61))
    ∷ (
      "display_verified_secondary_blinking_indicators",
      names (verified_secondary_blinking_indicators d),
    )
    ∷ ("display_key_and_point_blink_mask_byte", int (byte_at d 62))
    ∷ ("display_verified_blinking_dealer_key_icons", names (verified_blinking_dealer_key_icons d))
    ∷ ("display_verified_blinking_decimal_points", numbers (verified_blinking_decimal_points d))
    ∷ ("display_secondary_point_blink_mask_byte", int (byte_at d 63))
    ∷ ("display_unresolved_offset63_low_nibble", int (unresolved_offset63_low_nibble d))
    ∷ ("display_control_64_byte", int (byte_at d 64))
    ∷ ("display_verified_offset64_visual_state", str_or_null (verified_offset64_visual_state d))
    ∷ ("display_verified_offset64_pattern", pattern_or_null (verified_offset64_pattern d))
    ∷ ("display_control_65_byte", int (byte_at d 65))
    ∷ ("display_verified_offset65_visual_state", str_or_null (no_change_visual_state d 65))
    ∷ ("display_control_66_byte", int (byte_at d 66))
    ∷ ("display_verified_offset66_visual_state", str_or_null (no_change_visual_state d 66))
    ∷ ("display_control_67_byte", int (byte_at d 67))
    ∷ ("display_verified_offset67_visual_state", str_or_null (no_change_visual_state d 67))
    ∷ ("display_verified_indicators", names_or_null (verified_indicators d))
    ∷ ("display_verified_rssi_bars", numbers_or_null (verified_rssi_bars d))
    ∷ ("display_unknown_nonzero_offsets", pairs (unknown_nonzero_offsets d))
    ∷ ("display_ascii_projection", chars (ascii_projection d))
    ∷ []

unfoldable pub to_dict : DisplayBuffer → Metadata
unfolding str_or_null names_or_null numbers_or_null pattern_or_null
to_dict d =
    ("raw_hex", chars (hex d.raw))
    ∷ ("primary_text", chars (primary_text d))
    ∷ ("primary_raw_hex", chars (hex (primary_raw d)))
    ∷ ("auxiliary_region_offset", int 8)
    ∷ ("auxiliary_region_raw_hex", chars (hex (auxiliary_region_raw d)))
    ∷ ("character_attribute_offset", int 28)
    ∷ ("character_attribute_raw_hex", chars (hex (character_attribute_raw d)))
    ∷ ("verified_blinking_character_positions", numbers (verified_blinking_character_positions d))
    ∷ ("unknown_tail_hex", chars (hex (unknown_tail d)))
    ∷ ("indicator_state_offset", int 56)
    ∷ ("indicator_state_byte", int (byte_at d 56))
    ∷ ("secondary_indicator_state_offset", int 57)
    ∷ ("secondary_indicator_state_byte", int (byte_at d 57))
    ∷ ("key_and_point_state_offset", int 58)
    ∷ ("key_and_point_state_byte", int (byte_at d 58))
    ∷ ("verified_dealer_key_icons", names (verified_dealer_key_icons d))
    ∷ ("verified_decimal_points", numbers (verified_decimal_points d))
    ∷ ("secondary_point_state_offset", int 59)
    ∷ ("secondary_point_state_byte", int (byte_at d 59))
    ∷ ("unresolved_offset59_low_nibble", int (unresolved_offset59_low_nibble d))
    ∷ ("primary_blink_mask_offset", int 60)
    ∷ ("primary_blink_mask_byte", int (byte_at d 60))
    ∷ ("verified_blinking_indicators", names (verified_blinking_indicators d))
    ∷ ("verified_blinking_rssi_bars", numbers (verified_blinking_rssi_bars d))
    ∷ ("secondary_blink_mask_offset", int 61)
    ∷ ("secondary_blink_mask_byte", int (byte_at d 61))
    ∷ ("verified_secondary_blinking_indicators", names (verified_secondary_blinking_indicators d))
    ∷ ("key_and_point_blink_mask_offset", int 62)
    ∷ ("key_and_point_blink_mask_byte", int (byte_at d 62))
    ∷ ("verified_blinking_dealer_key_icons", names (verified_blinking_dealer_key_icons d))
    ∷ ("verified_blinking_decimal_points", numbers (verified_blinking_decimal_points d))
    ∷ ("secondary_point_blink_mask_offset", int 63)
    ∷ ("secondary_point_blink_mask_byte", int (byte_at d 63))
    ∷ ("unresolved_offset63_low_nibble", int (unresolved_offset63_low_nibble d))
    ∷ ("display_control_64_offset", int 64)
    ∷ ("display_control_64_byte", int (byte_at d 64))
    ∷ ("verified_offset64_visual_state", str_or_null (verified_offset64_visual_state d))
    ∷ ("verified_offset64_pattern", pattern_or_null (verified_offset64_pattern d))
    ∷ ("display_control_65_offset", int 65)
    ∷ ("display_control_65_byte", int (byte_at d 65))
    ∷ ("verified_offset65_visual_state", str_or_null (no_change_visual_state d 65))
    ∷ ("display_control_66_offset", int 66)
    ∷ ("display_control_66_byte", int (byte_at d 66))
    ∷ ("verified_offset66_visual_state", str_or_null (no_change_visual_state d 66))
    ∷ ("display_control_67_offset", int 67)
    ∷ ("display_control_67_byte", int (byte_at d 67))
    ∷ ("verified_offset67_visual_state", str_or_null (no_change_visual_state d 67))
    ∷ ("verified_indicators", names_or_null (verified_indicators d))
    ∷ ("verified_rssi_bars", numbers_or_null (verified_rssi_bars d))
    ∷ ("unknown_nonzero_offsets", pairs (unknown_nonzero_offsets d))
    ∷ ("ascii_projection", chars (ascii_projection d))
    ∷ []
