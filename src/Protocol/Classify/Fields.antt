-- ===== src/Protocol/Classify/Fields.antt =====
-- The fields that `classify_message` slices out of the logical bytes of an ordinary frame.
use ip_commandmic.Prelude.{
  ℕ, ◌+◌, ◌-◌, ◌≡◌, refl, arith, ◌∙◌, ap, le→leb, ==_refl, [], ◌∷◌, ◌++◌, Bytes, true, length,
  length-append, drop, take, slice, take_seam, drop_seam, append_assoc, get_or, get_or_last, one_of,
}
use ip_commandmic.Protocol.Frame.{from_bytes_big, to_bytes_big, crc16_commandmic, logical_tail}
use ip_commandmic.Protocol.Frame.RoundTrip.{
  IsSendable, crc-lt, tail-IsBytes, from-to_bytes_big, stuffed_part,
}
use ip_commandmic.Protocol.Classify.{
  magic_prefixes, checksum_field, checksum_matches, payload_field, length_field, is_framed,
}

module _ {message_class command start_byte : ℕ} {payload : Bytes}
    (s : IsSendable message_class command payload start_byte) where
  abbrev tail : Bytes
  tail = logical_tail message_class command payload

  abbrev crc : ℕ
  crc = crc16_commandmic tail

  -- The logical bytes of the frame.
  abbrev pub logical_bytes : Bytes
  logical_bytes = start_byte ∷ (stuffed_part s ++ 0xFD ∷ [])

  regrouped : logical_bytes ≡ (start_byte ∷ tail) ++ (to_bytes_big crc ++ 0xFD ∷ [])
  regrouped = ap (λ t. start_byte ∷ t) (append_assoc tail (to_bytes_big crc) (0xFD ∷ []))

  length-tail : length tail ≡ length payload + 6
  unfolding logical_tail
  length-tail = omega arith

  pub length-logical : length logical_bytes ≡ length payload + 10
  length-logical =
      ap length regrouped
      ∙ omega
          (arith, length-append (start_byte ∷ tail) (to_bytes_big crc ++ 0xFD ∷ []), length-tail)

  checked_part : slice logical_bytes 1 (length logical_bytes - 3) ≡ tail
  checked_part =
      ap (λ t. take (length logical_bytes - 3 - 1) t)
        (append_assoc tail (to_bytes_big crc) (0xFD ∷ []))
      ∙ take_seam (length logical_bytes - 3 - 1) tail (to_bytes_big crc ++ 0xFD ∷ [])
          (omega (arith, length-tail, length-logical))

  checksum_part :
      slice logical_bytes (length logical_bytes - 3) (length logical_bytes - 1) ≡ to_bytes_big crc
  checksum_part =
      let two : length logical_bytes - 1 - (length logical_bytes - 3) ≡ 2 =
        omega (arith, length-logical) in
      rw two (
        ap (λ t. take 2 (drop (length logical_bytes - 3) t)) regrouped
        ∙ ap (take 2) (
            drop_seam (length logical_bytes - 3) (start_byte ∷ tail) (to_bytes_big crc ++ 0xFD ∷ [])
              (omega (arith, length-tail, length-logical))))

  pub checksum_field-logical : checksum_field logical_bytes ≡ crc
  checksum_field-logical =
      ap from_bytes_big checksum_part ∙ from-to_bytes_big crc (crc-lt tail (tail-IsBytes s))

  -- The checksum that was appended is the one that is recomputed.
  pub checksum_matches-logical : checksum_matches logical_bytes ≡ true
  checksum_matches-logical = rw (checked_part, checksum_field-logical) (==_refl crc)

  pub payload_field-logical : payload_field logical_bytes ≡ payload
  payload_field-logical =
      unfold logical_tail in
      ap (λ t. take (length logical_bytes - 3 - 7) t)
        (append_assoc payload (to_bytes_big crc) (0xFD ∷ []))
      ∙ take_seam (length logical_bytes - 3 - 7) payload (to_bytes_big crc ++ 0xFD ∷ [])
          (omega (arith, length-logical))

  pub length_field-logical : length_field logical_bytes ≡ length payload
  length_field-logical = unfold logical_tail in from-to_bytes_big (length payload) s.short

  pub class-logical : get_or logical_bytes 3 0 ≡ message_class
  class-logical = unfold logical_tail in refl

  pub command-logical : get_or logical_bytes 4 0 ≡ command
  command-logical = unfold logical_tail in refl

  last_byte : get_or logical_bytes (length logical_bytes - 1) 0 ≡ 0xFD
  last_byte =
      ap (λ n. get_or logical_bytes n 0) {y = length (start_byte ∷ stuffed_part s)}
        (omega (arith, length-append (stuffed_part s) (0xFD ∷ [])))
      ∙ get_or_last (start_byte ∷ stuffed_part s) 0xFD 0

  magic_first : one_of (take 3 logical_bytes) magic_prefixes ≡ true
  magic_first = unfold logical_tail in ground (arith, s.start)

  pub is_framed-logical : is_framed logical_bytes ≡ true
  is_framed-logical =
      unfold is_framed in
      rw (le→leb 6 (length logical_bytes) (omega (arith, length-logical)), magic_first, last_byte)
        refl
