-- ===== src/Protocol/Classify/Built.antt =====
-- What `classify_message` says of a frame that `build_frame` made.
use ip_commandmic.Prelude.{
  ℕ, ◌+◌, ◌≤◌, ◌<◌, ◌≡◌, ◌≢◌, refl, arith, ◌∙◌, ap, le→leb, ==_refl, ◌⊎◌, inl, inr, [], ◌∷◌, ◌++◌,
  Bytes, none, some, Bool, true, length, hex, bit_and,
}
use ip_commandmic.Errors.{ok}
use ip_commandmic.Models.{Direction, int, chars, get, body}
use ip_commandmic.Models.Body.{body_of_payload}
use ip_commandmic.Protocol.Stuffing.{stuff_bytes, stuff_low, stuff_high}
use ip_commandmic.Protocol.Frame.{
  to_bytes_big, crc16_commandmic, logical_tail, frame_of, decode_wire_frame, build_frame,
}
use ip_commandmic.Protocol.Frame.RoundTrip.{
  IsSendable, build_frame-ok, frame_of-eq, decode-frame_of,
}
use ip_commandmic.Protocol.Readings.{read_ordinary}
use ip_commandmic.Protocol.Classify.{
  known_message, base_metadata, framed_reading, ordinary_reading, classify_other, classify_with,
  classify_message,
}
use ip_commandmic.Protocol.Classify.Fields.{
  logical_bytes, length-logical, checksum_field-logical, checksum_matches-logical,
  payload_field-logical, length_field-logical, class-logical, command-logical, is_framed-logical,
}

-- No known message has another fourth byte than 5.
unknown_at_three : (a b c x : ℕ) (xs : Bytes) → x ≢ 5 → known_message (a ∷ b ∷ c ∷ x ∷ xs) ≡ none
unfolding known_message
unknown_at_three a b c x xs ne = ground arith

third_not_known :
    (a x : ℕ) (xs : Bytes)
    → x ≢ 5
    → known_message (a ∷ (stuff_bytes (0x41 ∷ 0x71 ∷ x ∷ xs) ++ 0xFD ∷ [])) ≡ none
third_not_known a x xs ne = elim (low_or_high x) [
  | inl low ↦
      rw
        (
          stuff_low 0x41 (0x71 ∷ x ∷ xs) (omega arith),
          stuff_low 0x71 (x ∷ xs) (omega arith),
          stuff_low x xs low,
        )
        (unknown_at_three a 0x41 0x71 x (stuff_bytes xs ++ 0xFD ∷ []) ne)
  | inr high ↦
      rw
        (
          stuff_low 0x41 (0x71 ∷ x ∷ xs) (omega arith),
          stuff_low 0x71 (x ∷ xs) (omega arith),
          stuff_high x xs high,
        )
        (unknown_at_three a 0x41 0x71 0xFF (bit_and x 0x0F ∷ stuff_bytes xs ++ 0xFD ∷ [])
          (omega arith))
]
  where
    low_or_high : (b : ℕ) → (b < 0xF0) ⊎ (0xF0 ≤ b)
    low_or_high b = omega arith

module _ {message_class command start_byte : ℕ} {payload : Bytes}
    (s : IsSendable message_class command payload start_byte) (direction : Direction) where
  abbrev wire : Bytes
  wire = frame_of message_class command payload start_byte

  reading-logical :
      framed_reading direction (logical_bytes s)
      ≡ ordinary_reading direction message_class command (length payload) payload
  reading-logical =
      unfold framed_reading in
      rw
        (
          payload_field-logical s,
          length_field-logical s,
          class-logical s,
          command-logical s,
          length-logical s,
          le→leb 10 (length payload + 10) (omega arith),
          ==_refl (length payload + 10),
        )
        refl

  -- The class decides whether a built frame may be a heartbeat, also when it is stuffed.
  wire-unknown : message_class ≢ 5 → known_message wire ≡ none
  wire-unknown ne =
      ap known_message (frame_of-eq s)
      ∙ unfold logical_tail in
        third_not_known start_byte message_class
          (command ∷ (to_bytes_big (length payload) ++ payload)
            ++ to_bytes_big (crc16_commandmic (logical_tail message_class command payload)))
          ne

  classify-wire :
      message_class ≢ 5
      → classify_message wire direction
        ≡ classify_other wire direction (logical_bytes s) (decode_wire_frame wire).stuffed
  classify-wire ne =
      unfold classify_message in
      rw (wire-unknown ne, decode-frame_of s) (unfold classify_with in refl)

  other-wire :
      (stuffed : Bool)
      → let m = classify_other wire direction (logical_bytes s) stuffed in
        let reading = ordinary_reading direction message_class command (length payload) payload in
        (m.framing_valid ≡ true)
        × (m.checksum_valid ≡ some true)
        × (m.kind ≡ reading.kind)
        × (m.evidence ≡ reading.evidence)
        × (m.metadata
            ≡ base_metadata (logical_bytes s) stuffed
              ++ (("checksum", int (crc16_commandmic (logical_tail message_class command payload)))
                  ∷ reading.extra))
  other-wire stuffed =
      unfold classify_other in
      rw
        (is_framed-logical s, checksum_matches-logical s, checksum_field-logical s, reading-logical)
        (refl, refl, refl, refl, refl)

  -- The metadata of a built frame, in full.
  pub metadata-wire :
      message_class ≢ 5
      → (classify_message wire direction).metadata
        ≡ base_metadata (logical_bytes s) (decode_wire_frame wire).stuffed
          ++ (("checksum", int (crc16_commandmic (logical_tail message_class command payload)))
              ∷ (ordinary_reading direction message_class command (length payload) payload).extra)
  metadata-wire ne = rw (classify-wire ne) ((other-wire (decode_wire_frame wire).stuffed).4)

  payload_hex-other :
      (stuffed : Bool)
      → get (classify_other wire direction (logical_bytes s) stuffed).metadata "payload_hex"
        ≡ some (chars (hex payload))
  payload_hex-other stuffed =
      ap (λ m. get m "payload_hex") ((other-wire stuffed).4) ∙ unfold get ordinary_reading in refl

  -- A frame that `build_frame` made within its documented ranges, of another class than the
  -- heartbeat's 5, is classified as a valid frame with a valid checksum; its kind and evidence are
  -- those that the chain of branches gives to the direction and to the class, command and payload
  -- that were sent; and its body is that payload.
  pub classify-build_frame :
      message_class ≢ 5
      → let m = classify_message wire direction in
        let reading = read_ordinary direction message_class command payload in
        (build_frame message_class command payload start_byte ≡ ok wire)
        × (m.framing_valid ≡ true)
        × (m.checksum_valid ≡ some true)
        × (m.kind ≡ reading.kind)
        × (m.evidence ≡ reading.evidence)
        × (body m ≡ some payload)
  classify-build_frame ne =
      let stuffed = (decode_wire_frame wire).stuffed in
      let (framed, checked, kind, evidence, metadata) = other-wire stuffed in
      rw (classify-wire ne) (
        build_frame-ok s,
        framed,
        checked,
        kind ∙ unfold ordinary_reading in refl,
        evidence ∙ unfold ordinary_reading in refl,
        body_of_payload (classify_other wire direction (logical_bytes s) stuffed) payload
            (payload_hex-other stuffed) s.bytes,
      )
