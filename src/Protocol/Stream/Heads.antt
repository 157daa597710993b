-- ===== src/Protocol/Stream/Heads.antt =====
-- `parse_stream` on frames with a first part of another frame behind them.
use ip_commandmic.Prelude.{
  ℕ, zero, suc, ◌+◌, ◌≤◌, ◌<◌, ◌≡◌, refl, arith, ◌∙◌, ap, sym, le→ltb, lt→ltb, ◌⊎◌, inl, inr, List,
  [], ◌∷◌, ◌++◌, map, Bytes, All, none, some, true, length, length-append, append_assoc, append-nil,
  concat, drop, drop-append, drop-drop,
}
use ip_commandmic.Models.{Direction}
use ip_commandmic.Protocol.Stuffing.{IsPlain}
use ip_commandmic.Protocol.Classify.{classify_message, terminator}
use ip_commandmic.Protocol.Stream.{
  starts_with, find_in, find, find_magic, radio_magic, other_magic, finished, framed_round,
  magic_round, found_round, parse_round, Parsed, parse_loop, parse_stream, after_round,
}
use ip_commandmic.Protocol.Stream.Find.{find-IsAt, find-at, find_in-append}
use ip_commandmic.Protocol.Stream.Frames.{
  IsWire, parse_round-frame, plain-avoids, earliest-some-left, earliest-some-right,
}
use ip_commandmic.Protocol.Stream.Starts.{IsStart, parse_round-start}
use ip_commandmic.Protocol.Stream.Sequence.{parse_loop-end, parse_loop-step}

-- The head of a frame: its magic, and inner bytes, but no terminator.
pub record IsHead (head : Bytes) : Type 0 where
  pub start_byte : ℕ
  pub part : Bytes
  pub start : (start_byte ≡ 0xF3) ⊎ (start_byte ≡ 0xF5)
  pub shape : head ≡ start_byte ∷ 0x41 ∷ 0x71 ∷ part
  pub plain : All IsPlain part

-- A round that starts at a head keeps it all.
module _ (pre : Bytes) (direction : Direction) {head : Bytes} (h : IsHead head) where
  abbrev whole : Bytes
  whole = pre ++ head

  abbrev at : ℕ
  at = length pre

  from_head : drop at whole ≡ h.start_byte ∷ 0x41 ∷ 0x71 ∷ h.part
  from_head = drop-append pre head ∙ h.shape

  from_part : drop (at + 3) whole ≡ h.part
  from_part = sym (drop-drop 3 at whole) ∙ ap (drop 3) from_head

  inside : at < length whole
  inside = omega (arith, length-append pre head, ap length h.shape)

  -- No text that begins with a high byte is found behind the magic.
  not_found : (b : ℕ) (rest : Bytes) → 0xF0 ≤ b → b < 0xFF → find (b ∷ rest) whole (at + 3) ≡ none
  not_found b rest low high =
      ap (find_in (b ∷ rest) (at + 3)) (from_part ∙ sym (append-nil h.part))
      ∙ find_in-append b rest (at + 3) h.part [] (plain-avoids b h.part low high h.plain)
      ∙ unfold find_in in refl

  no_magic : find_magic whole (at + 3) ≡ none
  no_magic =
      unfold find_magic in
      rw
        (
          not_found 0xF3 (0x41 ∷ 0x71 ∷ []) (omega arith) (omega arith),
          not_found 0xF5 (0x41 ∷ 0x71 ∷ []) (omega arith) (omega arith),
        )
        refl

  magic_here :
      (starts_with radio_magic (drop at whole) ≡ true)
      ⊎ (starts_with other_magic (drop at whole) ≡ true)
  magic_here = elim h.start [
    | inl radio ↦ inl (
        ap (starts_with radio_magic) (from_head ∙ ap (λ b. b ∷ 0x41 ∷ 0x71 ∷ h.part) radio)
        ∙ unfold starts_with in refl)
    | inr other ↦ inr (
        ap (starts_with other_magic) (from_head ∙ ap (λ b. b ∷ 0x41 ∷ 0x71 ∷ h.part) other)
        ∙ unfold starts_with in refl)
  ]

  magic_found : find_magic whole at ≡ some at
  magic_found = elim magic_here [
    | inl radio ↦
        unfold find_magic in
        rw (find-at radio_magic whole at (record { inside = inside; here = radio })) (
          earliest-some-left at (find other_magic whole at)
            (λ i e. (find-IsAt other_magic whole at i e).0))
    | inr other ↦
        unfold find_magic in
        rw (find-at other_magic whole at (record { inside = inside; here = other })) (
          earliest-some-right (find radio_magic whole at) at
            (λ i e. (find-IsAt radio_magic whole at i e).0))
  ]

  framed-head : framed_round whole direction at at none ≡ finished [] head
  framed-head = unfold framed_round in rw (le→ltb at at (omega arith), drop-append pre head) refl

  found-head : found_round whole direction at (some at) ≡ finished [] head
  found-head =
      unfold found_round in
      rw (no_magic, not_found terminator [] (omega arith) (omega arith))
        (unfold magic_round in framed-head)

  parse_round-head : parse_round whole direction at ≡ finished [] head
  parse_round-head =
      unfold parse_round in rw (lt→ltb at (length whole) inside, magic_found) found-head

-- What is left behind some frames: nothing, or the head of a frame, cut off anywhere.
abbrev pub IsLeft : Bytes → Type 0
IsLeft rest = (rest ≡ []) ⊎ (IsHead rest ⊎ IsStart rest)

abbrev pub classified_with : List Bytes → Direction → Bytes → Parsed
classified_with frames direction rest = record {
  messages = map (λ frame. classify_message frame direction) frames;
  remainder = rest;
}

module _ (direction : Direction) (rest : Bytes) where
  parse_loop-left :
      (fuel : ℕ) (pre : Bytes)
      → IsLeft rest
      → parse_loop (suc fuel) (pre ++ rest) direction (length pre)
        ≡ some (classified_with [] direction rest)
  parse_loop-left fuel pre (inl e) = rw e (
      ap (λ n. parse_loop (suc fuel) (pre ++ []) direction n) (ap length (sym (append-nil pre)))
      ∙ parse_loop-end direction fuel (pre ++ []))
  parse_loop-left fuel pre (inr (inr h)) =
      unfold parse_loop in rw (parse_round-start pre direction rest h) (unfold after_round in refl)
  parse_loop-left fuel pre (inr (inl h)) =
      unfold parse_loop in rw (parse_round-head pre direction h) (unfold after_round in refl)

  parse_loop-heads :
      (fuel : ℕ) (pre : Bytes) (frames : List Bytes)
      → All IsWire frames
      → IsLeft rest
      → length (concat frames) < fuel
      → parse_loop fuel (pre ++ (concat frames ++ rest)) direction (length pre)
        ≡ some (classified_with frames direction rest)
  parse_loop-heads zero pre frames h l enough = absurd (omega arith)
  parse_loop-heads (suc fuel) pre [] h l enough = parse_loop-left fuel pre l
  parse_loop-heads (suc fuel) pre (frame ∷ frames) h l enough =
      ap (λ t. parse_loop (suc fuel) (pre ++ t) direction (length pre))
        (append_assoc frame (concat frames) rest)
      ∙ parse_loop-step direction fuel (pre ++ (frame ++ (concat frames ++ rest))) (length pre)
          (length (pre ++ frame)) (classify_message frame direction ∷ [])
          (classified_with frames direction rest)
          (parse_round-frame pre (concat frames ++ rest) direction h.0)
          (ap (λ t. parse_loop fuel t direction (length (pre ++ frame)))
              (sym (append_assoc pre frame (concat frames ++ rest)))
            ∙ parse_loop-heads fuel (pre ++ frame) frames h.1 l
                (omega (arith, length-append frame (concat frames), IsWire-long h.0)))
    where
      IsWire-long : {f : Bytes} → IsWire f → 0 < length f
      IsWire-long w = rw w.shape (omega arith)

  -- Frames with the head of another one behind them are parsed into these frames, and the head is
  -- what is left over.
  pub parse_stream-heads :
      (frames : List Bytes)
      → All IsWire frames
      → IsLeft rest
      → parse_stream (concat frames ++ rest) direction
        ≡ some (classified_with frames direction rest)
  parse_stream-heads frames h l =
      unfold parse_stream in
      parse_loop-heads (length (concat frames ++ rest) + 1) [] frames h l
        (omega (arith, length-append (concat frames) rest))
