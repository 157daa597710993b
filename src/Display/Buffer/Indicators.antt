-- ===== src/Display/Buffer/Indicators.antt =====
-- The icons of offset 56: the exact observations agree with the bits.
use Prim.Native.String.{String}
use text.Mathlib.Text.{◌==◌ as str_eq}
use text.Mathlib.TextEquality.{eq_iff}
use ip_commandmic.Prelude.{
  ℕ, ◌<◌, ◌≡◌, refl, arith, ap, if◌then◌else◌, List, [], ◌∷◌, Bool, true, false, not, ◌&&◌, Option,
  none, some, every_below, every_below_sound,
}
use ip_commandmic.Display.Buffer.{has_bit, composed_indicators, indicators_of}

same_names : List String → List String → Bool
same_names [] [] = true
same_names (x ∷ xs) (y ∷ ys) = str_eq x y && same_names xs ys
same_names _ _ = false

same_names→eq : (xs ys : List String) → same_names xs ys ≡ true → xs ≡ ys
unfolding same_names
same_names→eq [] [] h = refl
same_names→eq [] (y ∷ ys) h = ground arith
same_names→eq (x ∷ xs) [] h = ground arith
same_names→eq (x ∷ xs) (y ∷ ys) h = ground (arith, eq_iff x y, same_names→eq xs ys)

same_icons : Option (List String) → Option (List String) → Bool
same_icons none none = true
same_icons (some xs) (some ys) = same_names xs ys
same_icons _ _ = false

same_icons→eq : (a b : Option (List String)) → same_icons a b ≡ true → a ≡ b
unfolding same_icons
same_icons→eq none none h = refl
same_icons→eq none (some ys) h = ground arith
same_icons→eq (some xs) none h = ground arith
same_icons→eq (some xs) (some ys) h = ap some (same_names→eq xs ys h)

-- What the bits alone say: nothing where a bar is lit without the base.
abbrev pub icons_by_bits : ℕ → Option (List String)
icons_by_bits value =
    if has_bit value 0x70 && not (has_bit value 0x80)
    then none
    else some (composed_indicators value)

every_byte :
    every_below 256 (λ value. same_icons (indicators_of value) (icons_by_bits value)) ≡ true
unfolding every_below same_icons same_names indicators_of composed_indicators
every_byte = refl

-- On every byte the exact observations and the bitwise composition agree: the icons of offset 56
-- are unmapped exactly where a bar bit is set without the RSSI base bit, and are otherwise the
-- names of the set bits.
pub indicators_of-by_bits : (value : ℕ) → value < 256 → indicators_of value ≡ icons_by_bits value
indicators_of-by_bits value h =
    same_icons→eq (indicators_of value) (icons_by_bits value) (
      every_below_sound 256 (λ v. same_icons (indicators_of v) (icons_by_bits v)) value every_byte
        h)
