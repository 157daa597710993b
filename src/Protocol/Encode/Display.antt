-- ===== src/Protocol/Encode/Display.antt =====
-- A display transaction from the encoder through the wire to the tracker.
use ip_commandmic.Prelude.{
  ◌+◌, ◌≡◌, refl, arith, ◌∙◌, ap, inl, [], ◌∷◌, ◌++◌, Bytes, IsBytes, All, none, some, length, hex,
}
use ip_commandmic.Errors.{ok}
use ip_commandmic.Models.{radio_to_mic, str, chars, get, Message, display_sync, display_update}
use ip_commandmic.Display.Buffer.{DisplayBuffer}
use ip_commandmic.Display.State.{
  before_buffer, after_buffer, buffer_received, DisplayStateModel, consume, consume_all,
}
use ip_commandmic.Display.State.Steps.{consume-before, consume-update, consume-after}
use ip_commandmic.Protocol.Frame.{frame_of}
use ip_commandmic.Protocol.Frame.RoundTrip.{IsSendable, build_frame-ok}
use ip_commandmic.Protocol.Readings.{read_ordinary}
use ip_commandmic.Protocol.Classify.{ordinary_reading, classify_message}
use ip_commandmic.Protocol.Classify.Built.{classify-build_frame, metadata-wire}
use ip_commandmic.Protocol.Stream.{Parsed, parse_stream}
use ip_commandmic.Protocol.Stream.Frames.{IsWire}
use ip_commandmic.Protocol.Stream.Sequence.{all_classified, parse_stream-frames, frame_of-IsWire}
use ip_commandmic.Protocol.Encode.{encode_display_transaction}

-- The three frames of a transaction, and a frame from the radio as it is classified.
abbrev pub before_frame : Bytes
before_frame = frame_of 0x02 0x07 (0x02 ∷ []) 0xF3

abbrev pub buffer_frame : DisplayBuffer → Bytes
buffer_frame d = frame_of 0x02 0x0A d.raw 0xF3

abbrev pub after_frame : Bytes
after_frame = frame_of 0x02 0x08 (0x00 ∷ 0x44 ∷ []) 0xF3

abbrev classified : Bytes → Message
classified frame = classify_message frame radio_to_mic

module _ (d : DisplayBuffer) (size : length d.raw ≡ 68) (bytes : IsBytes d.raw) where
  before-IsSendable : IsSendable 0x02 0x07 (0x02 ∷ []) 0xF3
  before-IsSendable = record {
    start = inl refl;
    class_byte = omega arith;
    command_byte = omega arith;
    short = omega arith;
    bytes = omega arith;
  }

  buffer-IsSendable : IsSendable 0x02 0x0A d.raw 0xF3
  buffer-IsSendable = record {
    start = inl refl;
    class_byte = omega arith;
    command_byte = omega arith;
    short = omega arith;
    bytes = bytes;
  }

  after-IsSendable : IsSendable 0x02 0x08 (0x00 ∷ 0x44 ∷ []) 0xF3
  after-IsSendable = record {
    start = inl refl;
    class_byte = omega arith;
    command_byte = omega arith;
    short = omega arith;
    bytes = omega arith;
  }

  pub encode_display_transaction-ok :
      encode_display_transaction d ≡ ok (before_frame, (buffer_frame d), after_frame)
  encode_display_transaction-ok =
      unfold encode_display_transaction in
      rw
        (
          build_frame-ok before-IsSendable,
          build_frame-ok buffer-IsSendable,
          build_frame-ok after-IsSendable,
        )
        refl

  pub transaction-IsWire : All IsWire (before_frame ∷ (buffer_frame d) ∷ after_frame ∷ [])
  transaction-IsWire = (
    frame_of-IsWire before-IsSendable,
    (frame_of-IsWire buffer-IsSendable, (frame_of-IsWire after-IsSendable, tt)),
  )

  parsed :
      parse_stream (before_frame ++ (buffer_frame d ++ (after_frame ++ []))) radio_to_mic
      ≡ some (all_classified (before_frame ∷ (buffer_frame d) ∷ after_frame ∷ []) radio_to_mic)
  parsed =
      parse_stream-frames radio_to_mic (before_frame ∷ (buffer_frame d) ∷ after_frame ∷ [])
        transaction-IsWire

  before-kind : (classified before_frame).kind ≡ display_sync
  before-kind =
      (classify-build_frame before-IsSendable radio_to_mic (omega arith)).3
      ∙ unfold read_ordinary in refl

  before-phase :
      get (classified before_frame).metadata "display_sync_phase" ≡ some (str "before_buffer")
  before-phase =
      ap (λ m. get m "display_sync_phase")
        (metadata-wire before-IsSendable radio_to_mic (omega arith))
      ∙ unfold get ordinary_reading read_ordinary in refl

  after-kind : (classified after_frame).kind ≡ display_sync
  after-kind =
      (classify-build_frame after-IsSendable radio_to_mic (omega arith)).3
      ∙ unfold read_ordinary in refl

  after-phase :
      get (classified after_frame).metadata "display_sync_phase" ≡ some (str "after_buffer")
  after-phase =
      ap (λ m. get m "display_sync_phase")
        (metadata-wire after-IsSendable radio_to_mic (omega arith))
      ∙ unfold get ordinary_reading read_ordinary in refl

  buffer-kind : (classified (buffer_frame d)).kind ≡ display_update
  buffer-kind =
      (classify-build_frame buffer-IsSendable radio_to_mic (omega arith)).3 ∙ kind_of d.raw size
    where
      kind_of :
          (xs : Bytes)
          → length xs ≡ 68
          → (read_ordinary radio_to_mic 0x02 0x0A xs).kind ≡ display_update
      kind_of xs e = unfold read_ordinary in rw e refl

  buffer-payload :
      get (classified (buffer_frame d)).metadata "payload_hex" ≡ some (chars (hex d.raw))
  buffer-payload =
      ap (λ m. get m "payload_hex") (metadata-wire buffer-IsSendable radio_to_mic (omega arith))
      ∙ unfold get ordinary_reading in refl

  module _ (s : DisplayStateModel) where
    -- The encoder returns three frames for a buffer of 68 bytes; their concatenation, sent from
    -- the radio to the microphone, is parsed into three messages with nothing left over; and the
    -- tracker that takes these, in whatever state it was, then shows that buffer, has counted one
    -- revision more, stands behind the after marker, and has no warning.
    pub display_transaction :
        (encode_display_transaction d ≡ ok (before_frame, (buffer_frame d), after_frame))
        × ((p : Parsed) × (parse_stream
                (before_frame ++ (buffer_frame d ++ (after_frame ++ [])))
                radio_to_mic
              ≡ some p)
            × (p.remainder ≡ [])
            × (length p.messages ≡ 3)
            × (consume_all s p.messages ≡ record {
              current = some d;
              phase = after_buffer;
              revision = s.revision + 1;
              last_warning = none;
            }))
    display_transaction = (
      encode_display_transaction-ok,
      (
        all_classified (before_frame ∷ (buffer_frame d) ∷ after_frame ∷ []) radio_to_mic,
        parsed,
        refl,
        refl,
        tracked,
      ),
    )
      where
        s1 : DisplayStateModel
        s1 = record s {
          phase = before_buffer;
          last_warning = (consume-before s (classified before_frame) before-kind before-phase).0;
        }

        s2 : DisplayStateModel
        s2 = record s1 {
          current = some d;
          phase = buffer_received;
          revision = s.revision + 1;
          last_warning = none;
        }

        first : (consume s (classified before_frame)).0 ≡ s1
        first = (consume-before s (classified before_frame) before-kind before-phase).1

        second : (consume s1 (classified (buffer_frame d))).0 ≡ s2
        second =
            consume-update s1 (classified (buffer_frame d)) d buffer-kind buffer-payload size bytes
              refl

        third :
            (consume s2 (classified after_frame)).0
            ≡ record s2 { phase = after_buffer; last_warning = none }
        third = consume-after s2 (classified after_frame) after-kind after-phase refl

        steps :
            (a b c : Message)
            → consume_all s (a ∷ b ∷ c ∷ []) ≡ (consume (consume (consume s a).0 b).0 c).0
        steps a b c = unfold consume_all in refl

        tracked :
            consume_all s
              (classified before_frame ∷ classified (buffer_frame d) ∷ classified after_frame ∷ [])
            ≡ record {
              current = some d;
              phase = after_buffer;
              revision = s.revision + 1;
              last_warning = none;
            }
        tracked =
            steps (classified before_frame) (classified (buffer_frame d)) (classified after_frame)
            ∙ ap
                (λ t.
                  (consume (consume t (classified (buffer_frame d))).0 (classified after_frame)).0)
                first
            ∙ ap (λ t. (consume t (classified after_frame)).0) second
            ∙ third
