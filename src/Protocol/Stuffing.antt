-- ===== src/Protocol/Stuffing.antt =====
-- `stuff_bytes` and `unstuff_bytes` of src/ip_commandmic/protocol.py.
use ip_commandmic.Prelude.{
  ℕ, ◌*◌, ◌≤◌, ◌<◌, ◌≡◌, refl, arith, ◌==◌, leb, if◌then◌else◌, [], ◌∷◌, Bytes, IsBytes, All, true,
  ◌&&◌, ◌⊎◌, inl, inr, bit_and, bit_or, every_below, every_below_sound, length, ap, ◌∙◌,
}

-- The loop at `index`, over the bytes from there on.
unfoldable pub unstuff_bytes : Bytes → Bytes
unstuff_bytes [] = []
unstuff_bytes (byte ∷ []) = byte ∷ []
unstuff_bytes (byte ∷ next ∷ rest) =
    let escaped = bit_or 0xF0 next ∷ unstuff_bytes rest in
    let literal = byte ∷ unstuff_bytes (next ∷ rest) in
    if (byte == 0xFF) && leb next 0x0F then escaped else literal

unfoldable pub stuff_bytes : Bytes → Bytes
stuff_bytes [] = []
stuff_bytes (byte ∷ rest) =
    if leb 0xF0 byte then 0xFF ∷ bit_and byte 0x0F ∷ stuff_bytes rest else byte ∷ stuff_bytes rest

-- Any byte of a stuffed text: no start byte and no terminator, 0xF0 to 0xFE.
abbrev pub IsPlain : ℕ → Type 0
IsPlain b = (b < 0xF0) ⊎ (b ≡ 0xFF)

escape_table :
    every_below 256 (λ b.
      (leb (bit_and b 0x0F) 0x0F)
      && (if leb 0xF0 b then bit_or 0xF0 (bit_and b 0x0F) == b else true))
    ≡ true
unfolding every_below
escape_table = refl

escape_low : (b : ℕ) → b < 256 → bit_and b 0x0F ≤ 0x0F
escape_low b h = ground (arith, every_below_sound 256 _ b escape_table h)

escape_back : (b : ℕ) → b < 256 → 0xF0 ≤ b → bit_or 0xF0 (bit_and b 0x0F) ≡ b
escape_back b h high = ground (arith, every_below_sound 256 _ b escape_table h)

unstuff_plain : (b : ℕ) (bs : Bytes) → b < 0xF0 → unstuff_bytes (b ∷ bs) ≡ b ∷ unstuff_bytes bs
unfolding unstuff_bytes
unstuff_plain b [] h = refl
unstuff_plain b (c ∷ bs) h = ground arith

unstuff_escape :
    (b : ℕ) (bs : Bytes)
    → b ≤ 0x0F
    → unstuff_bytes (0xFF ∷ b ∷ bs) ≡ bit_or 0xF0 b ∷ unstuff_bytes bs
unfolding unstuff_bytes
unstuff_escape b bs h = ground arith

pub stuff_high :
    (b : ℕ) (bs : Bytes) → 0xF0 ≤ b → stuff_bytes (b ∷ bs) ≡ 0xFF ∷ bit_and b 0x0F ∷ stuff_bytes bs
unfolding stuff_bytes
stuff_high b bs h = ground arith

pub stuff_low : (b : ℕ) (bs : Bytes) → b < 0xF0 → stuff_bytes (b ∷ bs) ≡ b ∷ stuff_bytes bs
unfolding stuff_bytes
stuff_low b bs h = ground arith

low_or_high : (b : ℕ) → (b < 0xF0) ⊎ (0xF0 ≤ b)
low_or_high b = omega arith

-- On bytes, each below 256, unstuffing what was stuffed gives them back.
pub unstuff-stuff : (bs : Bytes) → IsBytes bs → unstuff_bytes (stuff_bytes bs) ≡ bs
unstuff-stuff [] h = unfold unstuff_bytes stuff_bytes in refl
unstuff-stuff (b ∷ bs) h = elim (low_or_high b) [
  | inl low ↦
      ap unstuff_bytes (stuff_low b bs low)
      ∙ unstuff_plain b (stuff_bytes bs) low
      ∙ ap (λ t. b ∷ t) (unstuff-stuff bs h.1)
  | inr high ↦
      ap unstuff_bytes (stuff_high b bs high)
      ∙ unstuff_escape (bit_and b 0x0F) (stuff_bytes bs) (escape_low b h.0)
      ∙ rw (escape_back b h.0 high) (ap (λ t. b ∷ t) (unstuff-stuff bs h.1))
]

-- Of bytes that were stuffed, none is in the range 0xF0 to 0xFE of the start bytes and the
-- terminator: each is below 0xF0 or is 0xFF.
pub stuff-IsPlain : (bs : Bytes) → IsBytes bs → All IsPlain (stuff_bytes bs)
stuff-IsPlain [] h = unfold stuff_bytes in tt
stuff-IsPlain (b ∷ bs) h = elim (low_or_high b) [
  | inl low ↦ rw (stuff_low b bs low) (inl low, stuff-IsPlain bs h.1)
  | inr high ↦
      rw (stuff_high b bs high)
        (inr refl, (inl (omega (arith, escape_low b h.0)), stuff-IsPlain bs h.1))
]

-- Stuffing never shortens, and at most doubles, the bytes it is given.
pub length-stuff_bytes :
    (bs : Bytes) → (length bs ≤ length (stuff_bytes bs)) × (length (stuff_bytes bs) ≤ 2 * length bs)
unfolding stuff_bytes
length-stuff_bytes [] = omega arith
length-stuff_bytes (b ∷ bs) = ground (arith, length-stuff_bytes bs)

-- The stuffed bytes are bytes again.
pub stuff-IsBytes : (bs : Bytes) → IsBytes bs → IsBytes (stuff_bytes bs)
stuff-IsBytes [] h = unfold stuff_bytes in tt
stuff-IsBytes (b ∷ bs) h = elim (low_or_high b) [
  | inl low ↦ rw (stuff_low b bs low) (omega arith, stuff-IsBytes bs h.1)
  | inr high ↦
      rw (stuff_high b bs high)
        (omega arith, (omega (arith, escape_low b h.0), stuff-IsBytes bs h.1))
]
