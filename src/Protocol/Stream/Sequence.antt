-- ===== src/Protocol/Stream/Sequence.antt =====
-- `parse_stream` on a sequence of frames.
use ip_commandmic.Prelude.{
  ℕ, zero, suc, ◌+◌, ◌<◌, ◌≡◌, refl, arith, ◌∙◌, ap, sym, le→ltb, List, [], ◌∷◌, ◌++◌, map, Bytes,
  All, some, length, length-append, append_assoc, append-nil, concat,
}
use ip_commandmic.Models.{Direction, Message}
use ip_commandmic.Protocol.Stuffing.{stuff_bytes, stuff_low, stuff-IsPlain}
use ip_commandmic.Protocol.Frame.{to_bytes_big, crc16_commandmic, logical_tail, frame_of}
use ip_commandmic.Protocol.Frame.RoundTrip.{IsSendable, frame_of-eq, stuffed_part-IsBytes}
use ip_commandmic.Protocol.Classify.{classify_message}
use ip_commandmic.Protocol.Stream.{
  finished, continued, parse_round, Parsed, parse_loop, parse_stream, after_round, prepend,
}
use ip_commandmic.Protocol.Stream.Frames.{IsWire, parse_round-frame}

abbrev pub all_classified : List Bytes → Direction → Parsed
all_classified frames direction = record {
  messages = map (λ frame. classify_message frame direction) frames;
  remainder = [];
}

module _ (direction : Direction) where
  pub parse_loop-end :
      (fuel : ℕ) (data' : Bytes)
      → parse_loop (suc fuel) data' direction (length data')
        ≡ some (record { messages = []; remainder = [] })
  parse_loop-end fuel data' = opened ∙ rw at_end (unfold after_round in refl)
    where
      opened :
          parse_loop (suc fuel) data' direction (length data')
          ≡ after_round
              (parse_round data' direction (length data'))
              (parse_loop fuel data' direction)
      opened = unfold parse_loop in refl

      at_end : parse_round data' direction (length data') ≡ finished [] []
      at_end = unfold parse_round in rw (le→ltb (length data') (length data') (omega arith))

  pub parse_loop-step :
      (fuel : ℕ) (data' : Bytes) (cursor next : ℕ) (ms : List Message) (p : Parsed)
      → parse_round data' direction cursor ≡ continued ms next
      → parse_loop fuel data' direction next ≡ some p
      → parse_loop (suc fuel) data' direction cursor
        ≡ some (record p { messages = ms ++ p.messages })
  parse_loop-step fuel data' cursor next ms p e f =
      opened ∙ rw e (unfold after_round in ap (prepend ms) f)
    where
      opened :
          parse_loop (suc fuel) data' direction cursor
          ≡ after_round (parse_round data' direction cursor) (parse_loop fuel data' direction)
      opened = unfold parse_loop in refl

  -- Every byte of the frames is one round of fuel at least.
  parse_loop-frames :
      (fuel : ℕ) (pre : Bytes) (frames : List Bytes)
      → All IsWire frames
      → length (concat frames) < fuel
      → parse_loop fuel (pre ++ concat frames) direction (length pre)
        ≡ some (all_classified frames direction)
  parse_loop-frames zero pre frames h enough = absurd (omega arith)
  parse_loop-frames (suc fuel) pre [] h enough =
      ap (λ n. parse_loop (suc fuel) (pre ++ []) direction n) (ap length (sym (append-nil pre)))
      ∙ parse_loop-end fuel (pre ++ [])
  parse_loop-frames (suc fuel) pre (frame ∷ frames) h enough =
      parse_loop-step fuel (pre ++ (frame ++ concat frames)) (length pre) (length (pre ++ frame))
        (classify_message frame direction ∷ []) (all_classified frames direction)
        (parse_round-frame pre (concat frames) direction h.0)
        (ap (λ t. parse_loop fuel t direction (length (pre ++ frame)))
            (sym (append_assoc pre frame (concat frames)))
          ∙ parse_loop-frames fuel (pre ++ frame) frames h.1
              (omega (arith, length-append frame (concat frames), IsWire-long h.0)))
    where
      IsWire-long : {f : Bytes} → IsWire f → 0 < length f
      IsWire-long w = rw w.shape (omega arith)

  -- A stream of frames, each a magic, inner bytes that are no start byte and no terminator, and a
  -- terminator, is parsed into one classified message for each frame, in order, and nothing is
  -- left over.
  pub parse_stream-frames :
      (frames : List Bytes)
      → All IsWire frames
      → parse_stream (concat frames) direction ≡ some (all_classified frames direction)
  parse_stream-frames frames h =
      unfold parse_stream in
      parse_loop-frames (length (concat frames) + 1) [] frames h (omega arith)

-- Every frame that `build_frame` makes within its documented ranges has this shape.
pub frame_of-IsWire :
    {message_class command start_byte : ℕ} {payload : Bytes}
    → IsSendable message_class command payload start_byte
    → IsWire (frame_of message_class command payload start_byte)
frame_of-IsWire {message_class} {command} {start_byte} {payload} s = record {
  start_byte = start_byte;
  inner = stuff_bytes rest;
  start = s.start;
  shape =
      frame_of-eq s
      ∙ unfold logical_tail in
        rw (stuff_low 0x41 (0x71 ∷ rest) (omega arith), stuff_low 0x71 rest (omega arith)) refl;
  plain = stuff-IsPlain rest (unfold logical_tail in (stuffed_part-IsBytes s).1.1);
}
  where
    rest : Bytes
    rest =
        message_class ∷ command ∷ (to_bytes_big (length payload) ++ payload)
        ++ to_bytes_big (crc16_commandmic (logical_tail message_class command payload))
