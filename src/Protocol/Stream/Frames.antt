-- ===== src/Protocol/Stream/Frames.antt =====
-- A stream of frames is parsed into exactly these frames.
use ip_commandmic.Prelude.{
  ℕ, ◌+◌, ◌-◌, ◌≤◌, ◌<◌, ◌≡◌, ◌≢◌, refl, arith, ◌∙◌, ap, sym, le→ltb, lt→ltb, ◌⊎◌, inl, inr, [],
  ◌∷◌, ◌++◌, Bytes, All, Option, none, some, true, length, length-append, drop, take, slice,
  take_seam, drop-append, drop-drop, append_assoc,
}
use ip_commandmic.Models.{Direction}
use ip_commandmic.Protocol.Stuffing.{IsPlain}
use ip_commandmic.Protocol.Classify.{classify_message, terminator}
use ip_commandmic.Protocol.Stream.{
  starts_with, find_in, find, earliest, find_magic, radio_magic, other_magic, continued,
  framed_round, magic_round, found_round, parse_round,
}
use ip_commandmic.Protocol.Stream.Find.{
  find_in-le, find-IsAt, find-at, find_in-append, earliest-cases,
}

-- A text with the shape of a frame: a magic, inner bytes that are no start byte and no terminator,
-- and a terminator.
pub record IsWire (frame : Bytes) : Type 0 where
  pub start_byte : ℕ
  pub inner : Bytes
  pub start : (start_byte ≡ 0xF3) ⊎ (start_byte ≡ 0xF5)
  pub shape : frame ≡ start_byte ∷ 0x41 ∷ 0x71 ∷ (inner ++ 0xFD ∷ [])
  pub plain : All IsPlain inner

pub plain-avoids : (b : ℕ) (xs : Bytes) → 0xF0 ≤ b → b < 0xFF → All IsPlain xs → All (λ x. x ≢ b) xs
plain-avoids b [] low high h = tt
plain-avoids b (x ∷ xs) low high h = (differs h.0, plain-avoids b xs low high h.1)
  where
    differs : IsPlain x → x ≢ b
    differs (inl small) e = omega arith
    differs (inr top) e = omega arith

pub earliest-some-left :
    (a : ℕ) (b : Option ℕ) → ((i : ℕ) → b ≡ some i → a ≤ i) → earliest (some a) b ≡ some a
earliest-some-left a none h = refl
earliest-some-left a (some b) h = ap some (omega (arith, h b refl))

pub earliest-some-right :
    (a : Option ℕ) (b : ℕ) → ((i : ℕ) → a ≡ some i → b ≤ i) → earliest a (some b) ≡ some b
earliest-some-right none b h = refl
earliest-some-right (some a) b h = ap some (omega (arith, h a refl))

-- A round that starts at a frame reports the frame, and goes on behind it.
module _ (pre post : Bytes) (direction : Direction) {frame : Bytes} (w : IsWire frame) where
  abbrev whole : Bytes
  whole = pre ++ (frame ++ post)

  abbrev at : ℕ
  at = length pre

  abbrev end : ℕ
  end = at + 3 + length w.inner

  length-frame : length frame ≡ length w.inner + 4
  length-frame = ap length w.shape ∙ omega (arith, length-append w.inner (0xFD ∷ []))

  from_frame : drop at whole ≡ w.start_byte ∷ 0x41 ∷ 0x71 ∷ (w.inner ++ 0xFD ∷ post)
  from_frame =
      drop-append pre (frame ++ post)
      ∙ ap (λ t. t ++ post) w.shape
      ∙ ap (λ t. w.start_byte ∷ 0x41 ∷ 0x71 ∷ t) (append_assoc w.inner (0xFD ∷ []) post)

  from_inner : drop (at + 3) whole ≡ w.inner ++ 0xFD ∷ post
  from_inner = sym (drop-drop 3 at whole) ∙ ap (drop 3) from_frame

  inside : at < length whole
  inside = omega (arith, length-append pre (frame ++ post), length-append frame post, length-frame)

  find-terminator : find (terminator ∷ []) whole (at + 3) ≡ some end
  find-terminator =
      ap (find_in (terminator ∷ []) (at + 3)) from_inner
      ∙ find_in-append terminator [] (at + 3) w.inner (0xFD ∷ post)
          (plain-avoids terminator w.inner (omega arith) (omega arith) w.plain)
      ∙ unfold find_in in refl

  -- Neither magic is found inside the frame.
  no_earlier :
      (b : ℕ) (i : ℕ)
      → 0xF0 ≤ b
      → b < 0xFF
      → find (b ∷ 0x41 ∷ 0x71 ∷ []) whole (at + 3) ≡ some i
      → end ≤ i
  no_earlier b i low high e = find_in-le (b ∷ 0x41 ∷ 0x71 ∷ []) end (0xFD ∷ post) i (
      sym (
        ap (find_in (b ∷ 0x41 ∷ 0x71 ∷ []) (at + 3)) from_inner
        ∙ find_in-append b (0x41 ∷ 0x71 ∷ []) (at + 3) w.inner (0xFD ∷ post)
            (plain-avoids b w.inner low high w.plain))
      ∙ e)

  next-le : (next : ℕ) → find_magic whole (at + 3) ≡ some next → end ≤ next
  next-le next e =
      elim (earliest-cases (find radio_magic whole (at + 3)) (find other_magic whole (at + 3)) next
        (unfold find_magic in e)) [
          | inl h ↦ no_earlier 0xF3 next (omega arith) (omega arith) h
          | inr h ↦ no_earlier 0xF5 next (omega arith) (omega arith) h
        ]

  magic_here :
      (starts_with radio_magic (drop at whole) ≡ true)
      ⊎ (starts_with other_magic (drop at whole) ≡ true)
  magic_here = elim w.start [
    | inl radio ↦ inl (
        ap (starts_with radio_magic)
          (from_frame ∙ ap (λ b. b ∷ 0x41 ∷ 0x71 ∷ (w.inner ++ 0xFD ∷ post)) radio)
        ∙ unfold starts_with in refl)
    | inr other ↦ inr (
        ap (starts_with other_magic)
          (from_frame ∙ ap (λ b. b ∷ 0x41 ∷ 0x71 ∷ (w.inner ++ 0xFD ∷ post)) other)
        ∙ unfold starts_with in refl)
  ]

  magic_found : find_magic whole at ≡ some at
  magic_found = elim magic_here [
    | inl radio ↦
        unfold find_magic in
        rw (find-at radio_magic whole at (record { inside = inside; here = radio })) (
          earliest-some-left at (find other_magic whole at)
            (λ i h. (find-IsAt other_magic whole at i h).0))
    | inr other ↦
        unfold find_magic in
        rw (find-at other_magic whole at (record { inside = inside; here = other })) (
          earliest-some-right (find radio_magic whole at) at
            (λ i h. (find-IsAt radio_magic whole at i h).0))
  ]

  slice-frame : slice whole at (end + 1) ≡ frame
  slice-frame =
      ap (take (end + 1 - at)) (drop-append pre (frame ++ post))
      ∙ take_seam (end + 1 - at) frame post (omega (arith, length-frame))

  framed-here :
      framed_round whole direction at at (some end)
      ≡ continued (classify_message frame direction ∷ []) (end + 1)
  framed-here = unfold framed_round in rw (le→ltb at at (omega arith), slice-frame) refl

  magic-here :
      (next : Option ℕ)
      → find_magic whole (at + 3) ≡ next
      → magic_round whole direction at at next (some end)
        ≡ continued (classify_message frame direction ∷ []) (end + 1)
  magic-here none e = unfold magic_round in framed-here
  magic-here (some next) e = unfold magic_round in rw (le→ltb next end (next-le next e)) framed-here

  pub parse_round-frame :
      parse_round whole direction at
      ≡ continued (classify_message frame direction ∷ []) (length (pre ++ frame))
  parse_round-frame =
      unfold parse_round in
      rw (lt→ltb at (length whole) inside, magic_found)
        (found
          ∙ ap (continued (classify_message frame direction ∷ []))
              (omega (arith, length-append pre frame, length-frame)))
    where
      found :
          found_round whole direction at (some at)
          ≡ continued (classify_message frame direction ∷ []) (end + 1)
      found = unfold found_round in rw find-terminator (magic-here (find_magic whole (at + 3)) refl)
