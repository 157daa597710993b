-- ===== src/Protocol/Classify/Readable.antt =====
-- What the metadata of a classified message says of its payload.
use ip_commandmic.Prelude.{
  ℕ, ◌+◌, ◌-◌, ◌<◌, ◌≤◌, ◌≡◌, refl, arith, ltb, leb, ◌==◌, if◌then◌else◌, [], ◌∷◌, ◌++◌, Bytes,
  IsBytes, IsBytes-append, Bool, true, false, ◌&&◌, inl, inr, Option, none, some, Bool-cases,
  length, get_or, one_of, replicate, ◌=?◌, slice, take, drop, take_last, IsBytes-take, IsBytes-drop,
  bit_or, hex, every_below, every_below_sound,
}
use ip_commandmic.Models.{Direction, MessageKind, display_update, Message, chars, int, get, body}
use ip_commandmic.Models.Body.{body_of_payload, body_without_payload}
use ip_commandmic.Protocol.Stuffing.{unstuff_bytes}
use ip_commandmic.Protocol.Frame.{decode_wire_frame}
use ip_commandmic.Protocol.Readings.{Reading, read_ordinary, from_mic, from_radio}
use ip_commandmic.Protocol.Classify.{
  Known, known_message, is_framed, payload_field, classify_known, classify_other, classify_with,
  classify_message, ordinary_reading, framed_reading, checksum_matches, checksum_field,
  base_metadata, length_field, radio_idle_heartbeat, mic_idle_heartbeat,
}

abbrev pub is_update : MessageKind → Bool
is_update display_update = true
is_update _ = false

-- A message without a payload in its metadata is no display update; with one, the payload is
-- bytes, and 68 of them in a display update.
pub data IsReadable (m : Message) : Type 0 where
  no_payload : get m.metadata "payload_hex" ≡ none → is_update m.kind ≡ false → IsReadable m
  reports :
      (payload : Bytes)
      → get m.metadata "payload_hex" ≡ some (chars (hex payload))
      → IsBytes payload
      → ((length payload == 68) ≡ false → is_update m.kind ≡ false)
      → IsReadable m

escaped_table : every_below 16 (λ b. ltb (bit_or 0xF0 b) 256) ≡ true
unfolding every_below
escaped_table = refl

escaped-lt : (b : ℕ) → b ≤ 0x0F → bit_or 0xF0 b < 256
escaped-lt b h =
    ground
      (arith, every_below_sound 16 (λ c. ltb (bit_or 0xF0 c) 256) b escaped_table (omega arith))

unstuff-IsBytes : (bs : Bytes) → IsBytes bs → IsBytes (unstuff_bytes bs)
unfolding unstuff_bytes
unstuff-IsBytes [] h = tt
unstuff-IsBytes (b ∷ []) h = h
unstuff-IsBytes (b ∷ c ∷ bs) (h, (k, hs)) = elim (Bool-cases ((b == 0xFF) && leb c 0x0F)) [
  | inl e ↦ rw e (escaped-lt c (ground arith), unstuff-IsBytes bs hs)
  | inr e ↦ rw e (h, unstuff-IsBytes (c ∷ bs) (k, hs))
]

-- A reading that does not say display update.
record Quiet (r : Reading) : Type 0 where
  pub quiet : is_update r.kind ≡ false

skip : (b : Bool) (x y : Reading) → (b ≡ true → Quiet x) → Quiet y → Quiet (if b then x else y)
skip true x y h k = h refl
skip false x y h k = k

all_four : (a b c d : Bool) → (a && b && c && d) ≡ true → d ≡ false → ⊥
all_four a b c d h k = ground arith

-- It says so only of 68 bytes.
read_ordinary-Quiet :
    (direction : Direction) (message_class command : ℕ) (payload : Bytes)
    → (length payload == 68) ≡ false
    → Quiet (read_ordinary direction message_class command payload)
unfolding read_ordinary
read_ordinary-Quiet direction message_class command payload other =
    let first = get_or payload 0 0 in
    let single = length payload == 1 in
    (skip
      (from_mic direction
        && (message_class == 0x01)
        && (command == 0x00)
        && one_of payload ((0 ∷ []) ∷ (1 ∷ []) ∷ []))
      _ _ (λ h. record { quiet = refl })
      (skip
        (from_radio direction
          && (message_class == 0x01)
          && (command == 0x04)
          && one_of payload (replicate 4 0 ∷ (1 ∷ replicate 3 0) ∷ (8 ∷ replicate 3 0) ∷ []))
        _ _ (λ h. record { quiet = refl })
        (skip
          (from_radio direction
            && (message_class == 0x02)
            && (command == 0x02)
            && one_of payload ((0 ∷ []) ∷ (2 ∷ []) ∷ (4 ∷ []) ∷ (6 ∷ []) ∷ []))
          _ _ (λ h. record { quiet = refl })
          (skip
            (from_radio direction
              && (message_class == 0x02)
              && (command == 0x0B)
              && one_of payload ((0 ∷ []) ∷ (1 ∷ []) ∷ (2 ∷ []) ∷ []))
            _ _ (λ h. record { quiet = refl })
            (skip
              (from_radio direction
                && (message_class == 0x02)
                && (command == 0x0E)
                && single
                && (leb 1 first && leb first 6))
              _ _ (λ h. record { quiet = refl })
              (skip
                (from_mic direction
                  && (message_class == 0x01)
                  && (command == 0x09)
                  && one_of payload ((0 ∷ []) ∷ (1 ∷ []) ∷ []))
                _ _ (λ h. record { quiet = refl })
                (skip (from_mic direction && (message_class == 0x01) && (command == 0x01) && single)
                  _ _ (λ h. record { quiet = refl })
                  (skip
                    (from_radio direction
                      && (message_class == 0x02)
                      && (command == 0x07)
                      && (payload =? (2 ∷ [])))
                    _ _ (λ h. record { quiet = refl })
                    (skip
                      (from_radio direction
                        && (message_class == 0x02)
                        && (command == 0x0A)
                        && (length payload == 68))
                      _ _
                      (λ h. absurd (
                        all_four (from_radio direction) (message_class == 0x02) (command == 0x0A)
                          (length payload == 68) h other))
                      (skip
                        (from_radio direction
                          && (message_class == 0x02)
                          && (command == 0x08)
                          && (payload =? (0x00 ∷ 0x44 ∷ [])))
                        _ _ (λ h. record { quiet = refl })
                        (skip
                          (from_mic direction
                            && (message_class == 0x02)
                            && (command == 0x09)
                            && (payload =? (1 ∷ [])))
                          _ _ (λ h. record { quiet = refl }) (record { quiet = refl }))))))))))))

decoded-IsBytes : (raw : Bytes) → IsBytes raw → IsBytes (decode_wire_frame raw).logical
decoded-IsBytes raw h = elim (Bool-cases (ltb (length raw) 4)) [
  | inl e ↦ unfold decode_wire_frame in rw e h
  | inr e ↦
      unfold decode_wire_frame in
      rw e (
        IsBytes-append (take 1 raw) _ (IsBytes-take 1 raw h) (
          IsBytes-append (unstuff_bytes (slice raw 1 (length raw - 1))) (take_last 1 raw)
            (unstuff-IsBytes (slice raw 1 (length raw - 1))
              (IsBytes-take (length raw - 1 - 1) (drop 1 raw) (IsBytes-drop 1 raw h)))
            (IsBytes-drop (length raw - 1) raw h)))
]

abbrev IsQuietKnown : Option Known → Type 0
IsQuietKnown none = Unit {0}
IsQuietKnown (some known) = is_update known.kind ≡ false

module _ (raw decoded : Bytes) (supplied : Direction) (stuffed : Bool)
    (bytes : IsBytes decoded) where
  payload-IsBytes : IsBytes (payload_field decoded)
  payload-IsBytes =
      IsBytes-take (length decoded - 3 - 7) (drop 7 decoded) (IsBytes-drop 7 decoded bytes)

  known-IsReadable :
      (known : Known)
      → is_update known.kind ≡ false
      → IsReadable (classify_known raw supplied known decoded stuffed)
  unfolding classify_known
  known-IsReadable known k =
      reports (payload_field decoded) (unfold get in refl) payload-IsBytes (λ h. k)

  -- The message of a frame with a reading.
  abbrev of_reading : Reading → Message
  of_reading reading = record {
    raw = raw;
    direction = supplied;
    kind = reading.kind;
    framing_valid = true;
    checksum_valid = some (checksum_matches decoded);
    evidence = reading.evidence;
    metadata =
        base_metadata decoded stuffed
        ++ (("checksum", int (checksum_field decoded)) ∷ reading.extra);
  }

  reading-IsReadable : IsReadable (of_reading (framed_reading supplied decoded))
  reading-IsReadable = elim (Bool-cases (leb 10 (length decoded))) [
    | inr e ↦ unfold framed_reading in rw e (no_payload (unfold get in refl) refl)
    | inl e ↦ elim (Bool-cases (length decoded == length_field decoded + 10)) [
      | inr k ↦ unfold framed_reading in rw (e, k) (no_payload (unfold get in refl) refl)
      | inl k ↦
          unfold framed_reading in
          rw (e, k)
            (unfold ordinary_reading in
              reports (payload_field decoded) (unfold get in refl) payload-IsBytes (λ h.
                (read_ordinary-Quiet supplied (get_or decoded 3 0) (get_or decoded 4 0)
                  (payload_field decoded) h).quiet))
    ]
  ]

  other-IsReadable : IsReadable (classify_other raw supplied decoded stuffed)
  unfolding classify_other
  other-IsReadable = elim (Bool-cases (is_framed decoded)) [
    | inr e ↦ rw e (no_payload (unfold get in refl) refl)
    | inl e ↦ rw e reading-IsReadable
  ]

  with-IsReadable :
      (known : Option Known)
      → IsQuietKnown known
      → IsReadable (classify_with raw supplied known decoded stuffed)
  unfolding classify_with
  with-IsReadable none h = other-IsReadable
  with-IsReadable (some known) h = known-IsReadable known h

known-heartbeat : (raw : Bytes) → IsQuietKnown (known_message raw)
unfolding known_message
known-heartbeat raw = elim (Bool-cases (raw =? radio_idle_heartbeat)) [
  | inl e ↦ rw e refl
  | inr e ↦ elim (Bool-cases (raw =? mic_idle_heartbeat)) [
    | inl k ↦ rw (e, k) refl
    | inr k ↦ rw (e, k) tt
  ]
]

-- Every message that is classified from bytes reports its payload as `IsReadable` says.
pub classify_message-IsReadable :
    (raw : Bytes) (supplied : Direction) → IsBytes raw → IsReadable (classify_message raw supplied)
unfolding classify_message
classify_message-IsReadable raw supplied h =
    let frame = decode_wire_frame raw in
    with-IsReadable raw frame.logical supplied frame.stuffed (decoded-IsBytes raw h)
      (known_message raw) (known-heartbeat raw)

-- Its body is there.
pub body-IsReadable : (m : Message) → IsReadable m → (payload : Bytes) × (body m ≡ some payload)
body-IsReadable m (no_payload e k) = body_without_payload m e
body-IsReadable m (reports payload e h k) = (payload, body_of_payload m payload e h)
