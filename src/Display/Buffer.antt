-- ===== src/Display/Buffer.antt =====
-- `DisplayBuffer` of src/ip_commandmic/display.py and its decoded properties.
pub mod Metadata
pub mod Primary
pub mod Indicators
use Prim.Native.String.{String}
use text.Mathlib.Text.{◌==◌ as str_eq}
use ip_commandmic.Prelude.{
  ℕ, ◌+◌, ◌-◌, ◌==◌, ltb, leb, if◌then◌else◌, List, [], ◌∷◌, ◌++◌, map, Bytes, Text, Bool, true,
  false, not, ◌&&◌, Option, none, some, length, take, drop, slice, get_or, replicate, bit_and,
}
use ip_commandmic.Display.Tables.{
  display_buffer_size, primary_text_size, Table, table_get, selected, offset56_indicators,
  offset57_indicators, offset58_key_icons, offset58_decimal_points, offset59_decimal_points,
  offset60_blink_indicators, offset64_visual_states, SegmentPattern, offset64_patterns,
  no_change_visual_states, character_blink_attribute_offsets,
}

-- A display payload, or the error that its constructors raise.
pub data DisplayError : Type 0 where
  bad_payload_size not_ascii text_too_long bad_tail_size : DisplayError

pub data Displayed {ℓ} (A : Type ℓ) : Type ℓ where
  ok : A → Displayed A
  err : DisplayError → Displayed A

pub record DisplayBuffer : Type 0 where
  pub raw : Bytes

-- `DisplayBuffer(raw)` with its `__post_init__`.
unfoldable pub display_buffer : Bytes → Displayed DisplayBuffer
display_buffer raw =
    if length raw == display_buffer_size then ok (record { raw = raw }) else err bad_payload_size

-- Whether `text.encode("ascii", "strict")` returns.
is_ascii : Text → Bool
is_ascii [] = true
is_ascii (c ∷ s) = ltb c 128 && is_ascii s

-- data.ljust(n, b"\x00")
unfoldable pub left_justify : ℕ → Bytes → Bytes
left_justify n xs = xs ++ replicate (n - length xs) 0

unfoldable pub from_primary_text : Text → Bytes → Displayed DisplayBuffer
unfolding is_ascii left_justify display_buffer
from_primary_text text tail =
    if not (is_ascii text)
    then err not_ascii
    else if ltb primary_text_size (length text)
    then err text_too_long
    else if not (length tail == display_buffer_size - primary_text_size)
    then err bad_tail_size
    else display_buffer (left_justify primary_text_size text ++ tail)

-- A byte before what is left of the rest; a zero before nothing goes too.
keep_byte : ℕ → Bytes → Bytes
keep_byte c [] = if c == 0 then [] else c ∷ []
keep_byte c (d ∷ ds) = c ∷ d ∷ ds

-- data.rstrip(b"\x00")
strip_zeros : Bytes → Bytes
unfolding keep_byte
strip_zeros [] = []
strip_zeros (b ∷ bs) = keep_byte b (strip_zeros bs)

-- `name in names`
has_name : String → List String → Bool
has_name name [] = false
has_name name (n ∷ ns) = if str_eq n name then true else has_name name ns

has_number : ℕ → List ℕ → Bool
has_number x [] = false
has_number x (y ∷ ys) = if y == x then true else has_number x ys

dedup_after : List ℕ → List ℕ → List ℕ
dedup_after seen [] = []
dedup_after seen (x ∷ xs) =
    let fresh = x ∷ dedup_after (x ∷ seen) xs in
    let rest = dedup_after seen xs in if has_number x seen then rest else fresh

-- tuple(dict.fromkeys(xs))
unfoldable pub distinct : List ℕ → List ℕ
unfolding dedup_after has_number
distinct = dedup_after []

-- Whether `value & mask` is not zero.
abbrev pub has_bit : ℕ → ℕ → Bool
has_bit value mask = not (bit_and value mask == 0)

-- One name if the bit is set.
if_bit : ℕ → ℕ → String → List String
if_bit value mask name = if has_bit value mask then name ∷ [] else []

-- The bars 1 to 3 of bits 0x40, 0x20 and 0x10.
bars_of : ℕ → List ℕ
bars_of value =
    (if has_bit value 0x40 then 1 ∷ [] else [])
    ++ ((if has_bit value 0x20 then 2 ∷ [] else []) ++ (if has_bit value 0x10 then 3 ∷ [] else []))

-- The icons that the bits of offset 56 compose.
unfoldable pub composed_indicators : ℕ → List String
unfolding if_bit
composed_indicators value =
    if_bit value 0x08 "low_power"
    ++ (if_bit value 0x04 "shift"
        ++ (if_bit value 0x02 "audible"
            ++ (if_bit value 0x01 "message" ++ if_bit value 0x80 "rssi")))

-- The exact observation, or else the bits; bar bits without the base bit are not mapped.
exact_or_composed : ℕ → Option (List String) → Option (List String)
exact_or_composed value (some exact) = some exact
exact_or_composed value none =
    if has_bit value 0x70 && not (has_bit value 0x80)
    then none
    else some (composed_indicators value)

-- The offset-56 icons of `verified_indicators`: an exact observation first, then the bits.
unfoldable pub indicators_of : ℕ → Option (List String)
unfolding exact_or_composed composed_indicators table_get
indicators_of value = exact_or_composed value (table_get offset56_indicators value)

-- The positions of the characters, counted from `i`, that carry a point in their top bit.
embedded_points : ℕ → Bytes → List ℕ
embedded_points i [] = []
embedded_points i (value ∷ rest) =
    let low = bit_and value 0x7F in
    if has_bit value 0x80 && (leb 0x20 low && leb low 0x7E)
    then i ∷ embedded_points (i + 1) rest
    else embedded_points (i + 1) rest

blinking_characters : Table ℕ → Bytes → List ℕ
blinking_characters [] raw = []
blinking_characters ((offset, position) ∷ table) raw =
    if has_bit (get_or raw offset 0) 0x80
    then position ∷ blinking_characters table raw
    else blinking_characters table raw

nonzero_from : ℕ → Bytes → List (ℕ × ℕ)
nonzero_from offset [] = []
nonzero_from offset (value ∷ rest) =
    if value == 0
    then nonzero_from (offset + 1) rest
    else (offset, value) ∷ nonzero_from (offset + 1) rest

module _ (d : DisplayBuffer) where
  -- raw[offset], of a buffer of 68 bytes.
  abbrev pub byte_at : ℕ → ℕ
  byte_at offset = get_or d.raw offset 0

  abbrev pub primary_raw : Bytes
  primary_raw = take primary_text_size d.raw

  unfoldable pub primary_text : Text
  unfolding strip_zeros
  primary_text = strip_zeros (map (λ value. bit_and value 0x7F) primary_raw)

  abbrev pub auxiliary_region_raw : Bytes
  auxiliary_region_raw = slice d.raw 8 (8 + 20)

  abbrev pub character_attribute_raw : Bytes
  character_attribute_raw = slice d.raw 28 (28 + 8)

  unfoldable pub verified_blinking_character_positions : List ℕ
  unfolding blinking_characters
  verified_blinking_character_positions =
      blinking_characters character_blink_attribute_offsets d.raw

  abbrev pub unknown_tail : Bytes
  unknown_tail = drop primary_text_size d.raw

  unfoldable pub verified_offset64_visual_state : Option String
  unfolding table_get
  verified_offset64_visual_state = table_get offset64_visual_states (byte_at 64)

  unfoldable pub verified_offset64_pattern : Option SegmentPattern
  unfolding table_get
  verified_offset64_pattern = table_get offset64_patterns (byte_at 64)

  -- `verified_offset65_visual_state` to `verified_offset67_visual_state`
  unfoldable pub no_change_visual_state : ℕ → Option String
  unfolding table_get
  no_change_visual_state offset = table_get no_change_visual_states (byte_at offset)

  unfoldable pub verified_dealer_key_icons : List String
  unfolding selected
  verified_dealer_key_icons = selected offset58_key_icons (byte_at 58)

  unfoldable pub verified_decimal_points : List ℕ
  unfolding selected embedded_points distinct
  verified_decimal_points = distinct (
      embedded_points 1 primary_raw
      ++ (selected offset58_decimal_points (byte_at 58)
          ++ selected offset59_decimal_points (byte_at 59)))

  abbrev pub unresolved_offset59_low_nibble : ℕ
  unresolved_offset59_low_nibble = bit_and (byte_at 59) 0x0F

  unfoldable pub verified_blinking_indicators : List String
  unfolding selected
  verified_blinking_indicators = selected offset60_blink_indicators (byte_at 60)

  unfoldable pub verified_blinking_rssi_bars : List ℕ
  unfolding bars_of
  verified_blinking_rssi_bars = bars_of (byte_at 60)

  unfoldable pub verified_secondary_blinking_indicators : List String
  unfolding selected
  verified_secondary_blinking_indicators = selected offset57_indicators (byte_at 61)

  unfoldable pub verified_blinking_dealer_key_icons : List String
  unfolding selected
  verified_blinking_dealer_key_icons = selected offset58_key_icons (byte_at 62)

  unfoldable pub verified_blinking_decimal_points : List ℕ
  unfolding selected
  verified_blinking_decimal_points =
      selected offset58_decimal_points (byte_at 62) ++ selected offset59_decimal_points (byte_at 63)

  abbrev pub unresolved_offset63_low_nibble : ℕ
  unresolved_offset63_low_nibble = bit_and (byte_at 63) 0x0F

  unfoldable pub verified_secondary_indicators : List String
  unfolding selected
  verified_secondary_indicators = selected offset57_indicators (byte_at 57)

  with_others : Option (List String) → Option (List String)
  with_others none = none
  with_others (some icons) =
      some (icons ++ (verified_secondary_indicators ++ verified_dealer_key_icons))

  unfoldable pub verified_indicators : Option (List String)
  unfolding with_others indicators_of verified_secondary_indicators verified_dealer_key_icons
  verified_indicators = with_others (indicators_of (byte_at 56))

  rssi_bars : Option (List String) → Option (List ℕ)
  rssi_bars none = none
  rssi_bars (some indicators) =
      if not (has_name "rssi" indicators) then none else some (bars_of (byte_at 56))

  unfoldable pub verified_rssi_bars : Option (List ℕ)
  unfolding rssi_bars has_name bars_of verified_indicators
  verified_rssi_bars = rssi_bars verified_indicators

  unfoldable pub ascii_projection : Text
  ascii_projection = map (λ value. if leb 0x20 value && leb value 0x7E then value else b'.') d.raw

  unfoldable pub unknown_nonzero_offsets : List (ℕ × ℕ)
  unfolding nonzero_from
  unknown_nonzero_offsets = nonzero_from primary_text_size unknown_tail

  unfoldable pub with_primary_text : Text → Displayed DisplayBuffer
  unfolding from_primary_text
  with_primary_text text = from_primary_text text unknown_tail
