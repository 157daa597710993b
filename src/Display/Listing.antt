-- ===== src/Display/Listing.antt =====
-- The listings of display controls in src/ip_commandmic/display.py: `verified_display_bit_controls`,
-- `verified_display_blink_bit_controls` and `verified_character_blink_controls`.
use Prim.Native.String.{String}
use ip_commandmic.Prelude.{
  ℕ, ◌+◌, ◌-◌, leb, if◌then◌else◌, List, [], ◌∷◌, ◌++◌, Text, codes, false, ◌&&◌, map, drop,
  replace, ◌≡◌, refl,
}
use ip_commandmic.Controls.{title_from}
use ip_commandmic.Display.Tables.{
  Table, offset57_indicators, offset58_key_icons, offset58_decimal_points, offset59_decimal_points,
  character_blink_attribute_offsets,
}

pub record BitControl : Type 0 where
  pub name : Text
  pub key : Text
  pub offset : ℕ
  pub mask : ℕ

abbrev pub named_bit : String → String → ℕ → ℕ → BitControl
named_bit name key offset mask = record {
  name = codes name;
  key = codes key;
  offset = offset;
  mask = mask;
}

-- `sorted` by a key.
module _ {ℓ} {A : Type ℓ} (key : A → ℕ) where
  pub insert_by : A → List A → List A
  insert_by x [] = x ∷ []
  insert_by x (y ∷ ys) =
      let later = insert_by x ys in if leb (key x) (key y) then x ∷ y ∷ ys else y ∷ later

  unfoldable pub sorted_by : List A → List A
  unfolding insert_by
  sorted_by [] = []
  sorted_by (x ∷ xs) = insert_by x (sorted_by xs)

-- s.upper(), for ASCII.
upper : Text → Text
upper = map (λ c. if leb b'a' c && leb c b'z' then c - 32 else c)

-- `offset` is 56 for the steady state, and 60 for blinking.
icon_controls : ℕ → List BitControl
icon_controls offset =
    named_bit "Message" "message" offset 0x01
    ∷ named_bit "Speaker" "audible" offset 0x02
    ∷ named_bit "Shift" "shift" offset 0x04
    ∷ named_bit "LOW" "low_power" offset 0x08
    ∷ named_bit "RSSI bar 3" "rssi_bar_3" offset 0x10
    ∷ named_bit "RSSI bar 2" "rssi_bar_2" offset 0x20
    ∷ named_bit "RSSI bar 1" "rssi_bar_1" offset 0x40
    ∷ named_bit "RSSI base" "rssi" offset 0x80
    ∷ []

indicator_controls : ℕ → List BitControl
unfolding sorted_by title_from replace
indicator_controls offset =
    map
      (λ entry. record {
        name = title_from false (replace b'_' b' ' (codes entry.1));
        key = codes entry.1;
        offset = offset;
        mask = entry.0;
      })
      (sorted_by (λ entry. entry.0) offset57_indicators)

-- name.replace("dealer_", "") of the names, which all begin with it.
key_icon_controls : ℕ → List BitControl
unfolding sorted_by upper
key_icon_controls offset =
    map
      (λ entry. record {
        name = upper (drop 7 (codes entry.1));
        key = codes entry.1;
        offset = offset;
        mask = entry.0;
      })
      (sorted_by (λ entry. entry.0) offset58_key_icons)

-- A position has one digit.
point_controls : ℕ → Table ℕ → List BitControl
unfolding sorted_by
point_controls offset points =
    map
      (λ entry. record {
        name = codes "Dot " ++ (b'0' + entry.1) ∷ [];
        key = codes "decimal_" ++ (b'0' + entry.1) ∷ [];
        offset = offset;
        mask = entry.0;
      })
      (sorted_by (λ entry. entry.1) points)

unfoldable pub verified_display_bit_controls : List BitControl
unfolding icon_controls indicator_controls key_icon_controls point_controls
verified_display_bit_controls =
    icon_controls 56
    ++ (indicator_controls 57
        ++ (key_icon_controls 58
            ++ (point_controls 58 offset58_decimal_points
                ++ point_controls 59 offset59_decimal_points)))

unfoldable pub verified_display_blink_bit_controls : List BitControl
unfolding icon_controls indicator_controls key_icon_controls point_controls
verified_display_blink_bit_controls =
    icon_controls 60
    ++ (indicator_controls 61
        ++ (key_icon_controls 62
            ++ (point_controls 62 offset58_decimal_points
                ++ point_controls 63 offset59_decimal_points)))

-- The position, the offset and the mask.
unfoldable pub verified_character_blink_controls : List (ℕ × ℕ × ℕ)
verified_character_blink_controls =
    map (λ entry. (entry.1, entry.0, 0x80)) character_blink_attribute_offsets

-- The control of the same bit in the plane four bytes later.
abbrev mirrored : BitControl → BitControl
mirrored c = record c { offset = c.offset + 4 }

-- The blink controls mirror the steady-state ones four bytes later.
blink_controls-mirrored :
    verified_display_blink_bit_controls ≡ map mirrored verified_display_bit_controls
unfolding verified_display_blink_bit_controls verified_display_bit_controls
blink_controls-mirrored = refl
