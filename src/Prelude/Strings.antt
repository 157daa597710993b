-- ===== src/Prelude/Strings.antt =====
-- The methods of `str` and `bytes` that the program calls. A `str` is its code points; `lower` and
-- `strip` are those of ASCII, the only text that the names of the protocol hold.
use Prim.Native.Nat.{ℕ, ◌+◌, ◌-◌, ◌*◌, ◌/◌, ◌%◌, ◌<◌}
use mathlib.Core.Path.{◌≡◌, refl, ap, ◌∙◌}
use mathlib.Core.Bool.{Bool, true, false, ◌&&◌, ◌||◌}
use mathlib.Core.Option.{Option, none, some}
use mathlib.Core.List.{List, [], ◌∷◌, map}
use native.Mathlib.Omega.{arith}
use ip_commandmic.Prelude.Tests.{ltb, leb, ◌==◌, if◌then◌else◌}
use ip_commandmic.Prelude.Lists.{Bytes, Text, IsBytes}

lower_char : ℕ → ℕ
lower_char c = if leb b'A' c && leb c b'Z' then c + 32 else c

-- s.lower()
unfoldable pub lower : Text → Text
unfolding lower_char
lower = map lower_char

-- The ASCII characters for which `str.isspace` holds.
is_space : ℕ → Bool
is_space c = (c == 32) || ((leb 9 c && leb c 13) || (leb 28 c && leb c 31))

strip_left : Text → Text
strip_left [] = []
strip_left (c ∷ s) = let rest = strip_left s in if is_space c then rest else c ∷ s

strip_right : Text → Text
strip_right [] = []
strip_right (c ∷ s) = cons_unless_end c (strip_right s)
  where
    cons_unless_end : ℕ → Text → Text
    cons_unless_end d [] = if is_space d then [] else d ∷ []
    cons_unless_end d (e ∷ t) = d ∷ e ∷ t

-- s.strip()
unfoldable pub strip : Text → Text
unfolding strip_left strip_right is_space
strip s = strip_right (strip_left s)

-- s.replace(from, to) for two characters.
unfoldable pub replace : ℕ → ℕ → Text → Text
replace from to = map (λ c. if c == from then to else c)

-- s.isdigit(), for ASCII.
all_digits : Text → Bool
all_digits [] = true
all_digits (c ∷ s) = (leb b'0' c && leb c b'9') && all_digits s

unfoldable pub is_digit : Text → Bool
unfolding all_digits
is_digit [] = false
is_digit (c ∷ s) = all_digits (c ∷ s)

-- int(s) of a text of digits.
digits_value : ℕ → Text → ℕ
digits_value n [] = n
digits_value n (c ∷ s) = digits_value (n * 10 + (c - 48)) s

unfoldable pub int_of : Text → ℕ
unfolding digits_value
int_of = digits_value 0

push_word : ℕ → List Text → List Text
push_word c [] = (c ∷ []) ∷ []
push_word c (w ∷ ws) = (c ∷ w) ∷ ws

-- The words of a text; `open` says that the character in front belongs to the first of them.
words : Text → List Text
words [] = [] ∷ []
words (c ∷ s) = let rest = words s in if is_space c then [] ∷ rest else push_word c rest

drop_empty : List Text → List Text
drop_empty [] = []
drop_empty ([] ∷ ws) = drop_empty ws
drop_empty ((c ∷ w) ∷ ws) = (c ∷ w) ∷ drop_empty ws

-- s.split()
unfoldable pub split : Text → List Text
unfolding words push_word drop_empty is_space
split s = drop_empty (words s)

-- One digit of `bytes.hex`, and of `bytes.fromhex`.
hex_digit : ℕ → ℕ
hex_digit n = if ltb n 10 then n + 48 else n + 87

-- data.hex()
unfoldable pub hex : Bytes → Text
unfolding hex_digit
hex [] = []
hex (b ∷ bs) = hex_digit (b / 16) ∷ hex_digit (b % 16) ∷ hex bs

hex_value : ℕ → Option ℕ
hex_value c =
    if leb b'0' c && leb c b'9'
    then some (c - 48)
    else if leb b'a' c && leb c b'f'
    then some (c - 87)
    else if leb b'A' c && leb c b'F'
    then some (c - 55)
    else none

join_digits : Option ℕ → Option ℕ → Option Bytes → Option Bytes
join_digits (some high) (some low) (some rest) = some ((high * 16 + low) ∷ rest)
join_digits _ _ _ = none

-- bytes.fromhex(s), for a text without spaces; `none` is its ValueError.
unfoldable pub from_hex : Text → Option Bytes
unfolding hex_value join_digits
from_hex [] = some []
from_hex (c ∷ []) = none
from_hex (c ∷ d ∷ s) = join_digits (hex_value c) (hex_value d) (from_hex s)

hex_value-hex_digit : (n : ℕ) → n < 16 → hex_value (hex_digit n) ≡ some n
unfolding hex_value hex_digit
hex_value-hex_digit n h = ground arith

from_hex-cons :
    (c d high low : ℕ) (s : Text) (bs : Bytes)
    → hex_value c ≡ some high
    → hex_value d ≡ some low
    → from_hex s ≡ some bs
    → from_hex (c ∷ d ∷ s) ≡ some ((high * 16 + low) ∷ bs)
from_hex-cons c d high low s bs hc hd hs = step ∙ rw (hc, hd, hs) (unfold join_digits in refl)
  where
    step : from_hex (c ∷ d ∷ s) ≡ join_digits (hex_value c) (hex_value d) (from_hex s)
    step = unfold from_hex in refl

-- Reading back what `hex` wrote.
pub from_hex-hex : (bs : Bytes) → IsBytes bs → from_hex (hex bs) ≡ some bs
from_hex-hex [] h = unfold from_hex hex in refl
from_hex-hex (b ∷ bs) h =
    step
    ∙ from_hex-cons (hex_digit (b / 16)) (hex_digit (b % 16)) (b / 16) (b % 16) (hex bs) bs
        (hex_value-hex_digit (b / 16) (omega (arith, h.0)))
        (hex_value-hex_digit (b % 16) (omega arith)) (from_hex-hex bs h.1)
    ∙ ap (λ t. some (t ∷ bs)) joined
  where
    step : from_hex (hex (b ∷ bs)) ≡ from_hex (hex_digit (b / 16) ∷ hex_digit (b % 16) ∷ hex bs)
    step = unfold hex in refl

    joined : b / 16 * 16 + b % 16 ≡ b
    joined = omega arith
