-- ===== src/Capture/Decode/Placed.antt =====
-- Every decoded message of a captured stream stands at its offset, and together they are all of it.
use ip_commandmic.Prelude.{
  ℕ, ◌+◌, ◌≡◌, refl, sym, ◌∙◌, ap, List, [], ◌∷◌, ◌++◌, Bytes, some, length, drop, drop-append,
  drop-drop, append-nil, append_assoc,
}
use ip_commandmic.Models.{Direction, Message}
use ip_commandmic.Protocol.Stream.Lossless.{parse_stream-lossless}
use ip_commandmic.Protocol.Stream.Lossless.Rounds.{raws}
use ip_commandmic.Capture.Reassembly.{TcpSegment, reassemble_direction}
use ip_commandmic.Capture.Decode.{
  DecodedMessage, CaptureWarning, decode_messages, decode_remainder, warnings_of, decode_parsed,
  decode_group,
}

-- The decoded messages stand one behind the other, the first at `offset`, up to the end of the
-- bytes.
abbrev pub IsTiled : Bytes → ℕ → List DecodedMessage → Type 0
IsTiled stream offset [] = drop offset stream ≡ []
IsTiled stream offset (d ∷ ds) =
    (d.stream_offset ≡ offset)
    × (drop offset stream ≡ d.message.raw ++ drop (offset + length d.message.raw) stream)
    × IsTiled stream (offset + length d.message.raw) ds

module _ (number : ℕ) (direction : Direction) (markers : List (ℕ × ℕ)) (whole : Bytes) where
  decode_remainder-IsTiled :
      (offset : ℕ) (rest : Bytes)
      → drop offset whole ≡ rest
      → IsTiled whole offset (decode_remainder number direction markers offset rest)
  unfolding decode_remainder
  decode_remainder-IsTiled offset [] e = e
  decode_remainder-IsTiled offset (b ∷ bs) e =
      let behind =
        sym (drop-drop (length (b ∷ bs)) offset whole)
        ∙ ap (drop (length (b ∷ bs))) (e ∙ sym (append-nil (b ∷ bs)))
        ∙ drop-append (b ∷ bs) [] in
      (refl, e ∙ sym (append-nil (b ∷ bs)) ∙ ap (λ t. (b ∷ bs) ++ t) (sym behind), behind)

  decode_messages-IsTiled :
      (offset : ℕ) (ms : List Message) (rest : Bytes)
      → drop offset whole ≡ raws ms ++ rest
      → IsTiled whole offset (decode_messages number direction markers offset ms rest)
  unfolding decode_messages
  decode_messages-IsTiled offset [] rest e = decode_remainder-IsTiled offset rest e
  decode_messages-IsTiled offset (m ∷ ms) rest e =
      let split : drop offset whole ≡ m.raw ++ (raws ms ++ rest) =
        e ∙ append_assoc m.raw (raws ms) rest in
      let behind : drop (offset + length m.raw) whole ≡ raws ms ++ rest =
        sym (drop-drop (length m.raw) offset whole)
        ∙ ap (drop (length m.raw)) split
        ∙ drop-append m.raw (raws ms ++ rest) in
      (
        refl,
        split ∙ ap (λ t. m.raw ++ t) (sym behind),
        decode_messages-IsTiled (offset + length m.raw) ms rest behind,
      )

-- Decoding returns on every group of segments, and the decoded messages, an incomplete rest
-- included, cover the reassembled bytes without a hole, each at the offset that it reports.
pub decode_group-IsTiled :
    (number : ℕ) (direction : Direction) (segments : List TcpSegment)
    → (ds : List DecodedMessage) × (ws : List CaptureWarning) × (decode_group number direction
          segments
        ≡ some (ds, ws))
      × IsTiled (reassemble_direction segments).output 0 ds
decode_group-IsTiled number direction segments =
    let r = reassemble_direction segments in
    let (p, returns, bytes) = parse_stream-lossless r.output direction in
    (
      decode_messages number direction r.time_markers 0 p.messages p.remainder,
      warnings_of number direction r p.remainder,
      unfold decode_group decode_parsed warnings_of in
          ap (decode_parsed number direction r) returns,
      decode_messages-IsTiled number direction r.time_markers r.output 0 p.messages p.remainder
          (sym bytes),
    )
