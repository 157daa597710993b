-- ===== src/Display/Tables.antt =====
-- The constants of src/ip_commandmic/display.py: sizes, offsets and the verified bit tables.
use Prim.Native.String.{String}
use ip_commandmic.Prelude.{
  ℕ, ◌==◌, if◌then◌else◌, List, [], ◌∷◌, ◌++◌, Bytes, Option, none, some, replicate, bit_and, not,
}

abbrev pub display_buffer_size : ℕ
display_buffer_size = 68

abbrev pub primary_text_size : ℕ
primary_text_size = 8

-- VERIFIED_BASELINE_DISPLAY_TAIL
abbrev pub baseline_display_tail : Bytes
baseline_display_tail = replicate 48 0 ++ (0x88 ∷ replicate 11 0)

-- A dictionary keyed by a byte, in its order of insertion.
abbrev pub Table {ℓ} : Type ℓ → Type ℓ
Table A = List (ℕ × A)

module _ {ℓ} {A : Type ℓ} where
  -- table.get(value)
  unfoldable pub table_get : Table A → ℕ → Option A
  table_get [] value = none
  table_get ((key, entry) ∷ table) value =
      if key == value then some entry else table_get table value

  -- `tuple(name for bit, name in table.items() if value & bit)`
  unfoldable pub selected : Table A → ℕ → List A
  selected [] value = []
  selected ((mask, entry) ∷ table) value =
      if not (bit_and value mask == 0) then entry ∷ selected table value else selected table value

abbrev pub offset56_indicators : Table (List String)
offset56_indicators =
    (0x00, [])
    ∷ (0x01, "message" ∷ [])
    ∷ (0x04, "shift" ∷ [])
    ∷ (0x05, "shift" ∷ "message" ∷ [])
    ∷ (0x08, "low_power" ∷ [])
    ∷ (0x80, "rssi" ∷ [])
    ∷ (0x88, "low_power" ∷ "rssi" ∷ [])
    ∷ (0x8A, "low_power" ∷ "audible" ∷ "rssi" ∷ [])
    ∷ (0x90, "rssi" ∷ [])
    ∷ (0xA0, "rssi" ∷ [])
    ∷ (0xB0, "rssi" ∷ [])
    ∷ (0xC0, "rssi" ∷ [])
    ∷ (0xD0, "rssi" ∷ [])
    ∷ (0xE0, "rssi" ∷ [])
    ∷ (0xF0, "rssi" ∷ [])
    ∷ (0xFA, "low_power" ∷ "audible" ∷ "rssi" ∷ [])
    ∷ []

abbrev pub offset57_indicators : Table String
offset57_indicators =
    (0x80, "bell")
    ∷ (0x40, "scan")
    ∷ (0x20, "scan_target")
    ∷ (0x10, "encryption")
    ∷ (0x08, "gps")
    ∷ (0x04, "talk_around")
    ∷ (0x02, "lone_worker")
    ∷ (0x01, "bluetooth")
    ∷ []

abbrev pub offset58_key_icons : Table String
offset58_key_icons =
    (0x80, "dealer_p1") ∷ (0x40, "dealer_p2") ∷ (0x20, "dealer_p3") ∷ (0x10, "dealer_p4") ∷ []

abbrev pub offset58_decimal_points : Table ℕ
offset58_decimal_points = (0x08, 1) ∷ (0x04, 2) ∷ (0x02, 3) ∷ (0x01, 4) ∷ []

abbrev pub offset59_decimal_points : Table ℕ
offset59_decimal_points = (0x80, 5) ∷ (0x40, 6) ∷ (0x20, 7) ∷ (0x10, 8) ∷ []

abbrev pub offset60_blink_indicators : Table String
offset60_blink_indicators =
    (0x80, "rssi")
    ∷ (0x08, "low_power")
    ∷ (0x04, "shift")
    ∷ (0x02, "audible")
    ∷ (0x01, "message")
    ∷ []

abbrev pub offset64_visual_states : Table String
offset64_visual_states =
    (0x00, "normal_composed_display")
    ∷ (0x01, "full_segment_pattern")
    ∷ (0x02, "lower_segment_pattern")
    ∷ (0x04, "u_segment_pattern")
    ∷ (0x08, "blank_display")
    ∷ (0x10, "blank_display")
    ∷ (0x20, "blank_display")
    ∷ (0x40, "blank_display")
    ∷ (0x80, "blank_display")
    ∷ []

-- One of `VERIFIED_OFFSET64_PATTERNS`.
pub record SegmentPattern : Type 0 where
  pub segments_by_position : List (List String)
  pub indicators : List String
  pub decimal_points : List ℕ

abbrev pub offset64_patterns : Table SegmentPattern
offset64_patterns =
    (
      0x02,
      record {
        segments_by_position = replicate 8 ("e" ∷ "m" ∷ "d" ∷ []);
        indicators = "rssi" ∷ "dealer_p2" ∷ "dealer_p3" ∷ [];
        decimal_points = 1 ∷ 2 ∷ 3 ∷ 4 ∷ 5 ∷ 6 ∷ 7 ∷ 8 ∷ [];
      },
    )
    ∷ (
      0x04,
      record {
        segments_by_position =
            ("b" ∷ "e" ∷ "m" ∷ "c" ∷ "d" ∷ []) ∷ replicate 7 ("e" ∷ "m" ∷ "c" ∷ "d" ∷ []);
        indicators = "scan" ∷ "encryption" ∷ "rssi_bar_3" ∷ [];
        decimal_points = [];
      },
    )
    ∷ []

-- The tables of offsets 65, 66 and 67 are the same.
abbrev pub no_change_visual_states : Table String
no_change_visual_states =
    (0x00, unchanged)
    ∷ (0x01, unchanged)
    ∷ (0x02, unchanged)
    ∷ (0x04, unchanged)
    ∷ (0x08, unchanged)
    ∷ (0x10, unchanged)
    ∷ (0x20, unchanged)
    ∷ (0x40, unchanged)
    ∷ (0x80, unchanged)
    ∷ []
  where
    unchanged : String
    unchanged = "no_visible_change_all_visible"

-- Offset and physical position of each character attribute.
abbrev pub character_blink_attribute_offsets : Table ℕ
character_blink_attribute_offsets =
    (28, 1) ∷ (29, 2) ∷ (30, 3) ∷ (31, 4) ∷ (32, 5) ∷ (33, 6) ∷ (34, 7) ∷ (35, 8) ∷ []
