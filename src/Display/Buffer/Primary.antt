-- ===== src/Display/Buffer/Primary.antt =====
-- The primary text of a display buffer: what is written is read back, and the tail is kept.
use ip_commandmic.Prelude.{
  ℕ, zero, suc, ◌-◌, ◌≤◌, ◌<◌, ◌≡◌, refl, arith, ◌∙◌, ap, [], ◌∷◌, ◌++◌, map, Bytes, Text, All,
  le→ltb, true, length, length-append, length-replicate, take_seam, drop_seam, replicate, bit_and,
  bit_and_mask,
}
use ip_commandmic.Display.Tables.{primary_text_size}
use ip_commandmic.Display.Buffer.{
  DisplayBuffer, ok, is_ascii, left_justify, from_primary_text, strip_zeros, keep_byte,
  primary_text, unknown_tail,
}

-- A character that the primary text can show: ASCII and no NUL.
abbrev pub IsShown : ℕ → Type 0
IsShown c = (0 < c) × (c < 128)

is_ascii-shown : (t : Text) → All IsShown t → is_ascii t ≡ true
unfolding is_ascii
is_ascii-shown [] h = refl
is_ascii-shown (c ∷ t) h = ground (arith, h.0, is_ascii-shown t h.1)

strip_zeros-replicate : (k : ℕ) → strip_zeros (replicate k 0) ≡ []
unfolding strip_zeros
strip_zeros-replicate zero = refl
strip_zeros-replicate (suc k) = rw (strip_zeros-replicate k)

keep_byte-shown : (c : ℕ) (t : Text) → 0 < c → keep_byte c t ≡ c ∷ t
unfolding keep_byte
keep_byte-shown c [] h = ground arith
keep_byte-shown c (d ∷ t) h = refl

strip_zeros-cons : (c : ℕ) (xs : Bytes) → strip_zeros (c ∷ xs) ≡ keep_byte c (strip_zeros xs)
unfolding strip_zeros
strip_zeros-cons c xs = refl

strip_zeros-append : (t : Text) (k : ℕ) → All IsShown t → strip_zeros (t ++ replicate k 0) ≡ t
strip_zeros-append [] k h = strip_zeros-replicate k
strip_zeros-append (c ∷ t) k h =
    strip_zeros-cons c (t ++ replicate k 0)
    ∙ ap (keep_byte c) (strip_zeros-append t k h.1)
    ∙ keep_byte-shown c t h.0.0

-- Clearing the point bit changes no shown character and no padding.
clear_points :
    (t : Text) (k : ℕ)
    → All IsShown t
    → map (λ value. bit_and value 0x7F) (t ++ replicate k 0) ≡ t ++ replicate k 0
clear_points [] zero h = refl
clear_points [] (suc k) h = ap (λ r. 0 ∷ r) (clear_points [] k h)
clear_points (c ∷ t) k h =
    let same : bit_and c 0x7F ≡ c = omega (arith, bit_and_mask 7 c, h.0) in
    rw same (ap (λ r. c ∷ r) (clear_points t k h.1))

pub length-left_justify : (n : ℕ) (t : Text) → length t ≤ n → length (left_justify n t) ≡ n
length-left_justify n t h =
    unfold left_justify in
    length-append t (replicate (n - length t) 0)
    ∙ omega (arith, length-replicate {A = ℕ} (n - length t) 0)

abbrev pub composed : Text → Bytes → DisplayBuffer
composed t tail = record { raw = left_justify primary_text_size t ++ tail }

module _ (t : Text) (tail : Bytes) (shown : All IsShown t) (fits : length t ≤ 8)
    (size : length tail ≡ 60) where
  pub from_primary_text-ok : from_primary_text t tail ≡ ok (composed t tail)
  from_primary_text-ok =
      unfold from_primary_text in
      rw
        (
          is_ascii-shown t shown,
          le→ltb 8 (length t) fits,
          size,
          length-append (left_justify 8 t) tail,
          length-left_justify 8 t fits,
          size,
        )
        refl

  -- A text of at most eight ASCII characters without NUL, over a tail of 60 bytes, makes a
  -- display buffer of 68 bytes that has that primary text and that tail.
  pub from_primary_text-primary_text :
      (from_primary_text t tail ≡ ok (composed t tail))
      × (length (composed t tail).raw ≡ 68)
      × (primary_text (composed t tail) ≡ t)
      × (unknown_tail (composed t tail) ≡ tail)
  from_primary_text-primary_text = (
    from_primary_text-ok,
    omega (arith, length-append (left_justify 8 t) tail, length-left_justify 8 t fits),
    text_back,
    drop_seam 8 (left_justify 8 t) tail (length-left_justify 8 t fits),
  )
    where
      text_back : primary_text (composed t tail) ≡ t
      text_back =
          unfold primary_text in
          rw (take_seam 8 (left_justify 8 t) tail (length-left_justify 8 t fits)) (
            unfold left_justify in
            rw (clear_points t (8 - length t) shown) (strip_zeros-append t (8 - length t) shown))
