-- ===== src/Protocol/Frame/RoundTrip.antt =====
-- A built frame on the wire: its shape, and what `decode_wire_frame` gets back from it.
use ip_commandmic.Prelude.{
  ℕ, suc, ◌-◌, ◌^◌, ◌≤◌, ◌<◌, ◌≡◌, refl, arith, ◌∙◌, ap, le→ltb, [], ◌∷◌, ◌++◌, Bytes, IsBytes,
  IsBytes-append, ◌⊎◌, length, length-append, take, slice, take_last, drop_last-append,
  take_last-append,
}
use ip_commandmic.Checksum.Detect.{crc16-lt}
use ip_commandmic.Protocol.Stuffing.{stuff_bytes, unstuff_bytes, unstuff-stuff, length-stuff_bytes}
use ip_commandmic.Errors.{ok}
use ip_commandmic.Protocol.Frame.{
  from_bytes_big, to_bytes_big, crc16_commandmic, decode_wire_frame, logical_tail, frame_of,
  build_frame,
}

-- The values that `build_frame` accepts, the payload being bytes.
pub record IsSendable (message_class command : ℕ) (payload : Bytes) (start_byte : ℕ) : Type 0 where
  pub start : (start_byte ≡ 0xF3) ⊎ (start_byte ≡ 0xF5)
  pub class_byte : message_class < 256
  pub command_byte : command < 256
  pub short : length payload < 2 ^ 16
  pub bytes : IsBytes payload

pub crc-lt : (xs : Bytes) → IsBytes xs → crc16_commandmic xs < 2 ^ 16
unfolding crc16_commandmic
crc-lt xs h = crc16-lt 0xA001 0xFFFF (omega arith) (omega arith) xs h

pub from-to_bytes_big : (n : ℕ) → n < 2 ^ 16 → from_bytes_big (to_bytes_big n) ≡ n
unfolding from_bytes_big
from-to_bytes_big n h = omega arith

to_bytes_big-IsBytes : (n : ℕ) → n < 2 ^ 16 → IsBytes (to_bytes_big n)
to_bytes_big-IsBytes n h = omega arith

middle : (a b : ℕ) (xs : Bytes) → let raw = a ∷ (xs ++ b ∷ []) in slice raw 1 (length raw - 1) ≡ xs
middle a b xs =
    let ys = xs ++ b ∷ [] in
    let e : suc (length ys) - 1 - 1 ≡ length ys - 1 = omega arith in
    ap (λ n. take n ys) e ∙ drop_last-append 1 xs (b ∷ []) refl

decode_long :
    (raw : Bytes)
    → 4 ≤ length raw
    → (decode_wire_frame raw).logical
      ≡ take 1 raw ++ (unstuff_bytes (slice raw 1 (length raw - 1)) ++ take_last 1 raw)
unfolding decode_wire_frame
decode_long raw h = rw (le→ltb (length raw) 4 h)

-- Decoding a start byte, a stuffed text of two bytes at least, and a terminator.
pub decode_wrapped :
    (a b : ℕ) (xs : Bytes)
    → IsBytes xs
    → 2 ≤ length xs
    → (decode_wire_frame (a ∷ (stuff_bytes xs ++ b ∷ []))).logical ≡ a ∷ (xs ++ b ∷ [])
decode_wrapped a b xs hx two = decode_long raw long ∙ parts
  where
    raw : Bytes
    raw = a ∷ (stuff_bytes xs ++ b ∷ [])

    long : 4 ≤ length raw
    long = omega (arith, length-append (stuff_bytes xs) (b ∷ []), length-stuff_bytes xs)

    parts :
        (a ∷ []) ++ (unstuff_bytes (slice raw 1 (length raw - 1)) ++ take_last 1 raw)
        ≡ a ∷ (xs ++ b ∷ [])
    parts =
        rw
          (
            middle a b (stuff_bytes xs),
            unstuff-stuff xs hx,
            take_last-append 1 (a ∷ stuff_bytes xs) (b ∷ []) refl,
          )
          refl

module _ {message_class command start_byte : ℕ} {payload : Bytes}
    (s : IsSendable message_class command payload start_byte) where
  -- Within its documented ranges `build_frame` returns its frame.
  pub build_frame-ok :
      build_frame message_class command payload start_byte
      ≡ ok (frame_of message_class command payload start_byte)
  unfolding build_frame
  build_frame-ok = ground (arith, s.start, s.class_byte, s.command_byte, s.short)

  pub tail-IsBytes : IsBytes (logical_tail message_class command payload)
  unfolding logical_tail
  tail-IsBytes = (
    omega arith,
    (
      omega arith,
      (
        s.class_byte,
        (
          s.command_byte,
          IsBytes-append (to_bytes_big (length payload)) payload
              (to_bytes_big-IsBytes (length payload) s.short) s.bytes,
        ),
      ),
    ),
  )

  -- What is stuffed: the logical bytes behind the start byte, and the checksum.
  abbrev pub stuffed_part : Bytes
  stuffed_part =
      logical_tail message_class command payload
      ++ to_bytes_big (crc16_commandmic (logical_tail message_class command payload))

  pub stuffed_part-IsBytes : IsBytes stuffed_part
  stuffed_part-IsBytes =
      IsBytes-append (logical_tail message_class command payload)
        (to_bytes_big (crc16_commandmic (logical_tail message_class command payload))) tail-IsBytes
        (to_bytes_big-IsBytes _ (crc-lt _ tail-IsBytes))

  pub frame_of-eq :
      frame_of message_class command payload start_byte
      ≡ start_byte ∷ (stuff_bytes stuffed_part ++ 0xFD ∷ [])
  unfolding frame_of
  frame_of-eq = refl

  -- Decoding the frame that is built from a class, a command and a payload in their documented
  -- ranges gives back its logical bytes: start byte, magic, class, command, length, payload,
  -- checksum and terminator.
  pub decode-frame_of :
      (decode_wire_frame (frame_of message_class command payload start_byte)).logical
      ≡ start_byte ∷ (stuffed_part ++ 0xFD ∷ [])
  decode-frame_of =
      ap (λ t. (decode_wire_frame t).logical) frame_of-eq
      ∙ decode_wrapped start_byte 0xFD stuffed_part stuffed_part-IsBytes (
          unfold logical_tail in
          omega (
            arith,
            length-append (logical_tail message_class command payload)
                (to_bytes_big (crc16_commandmic (logical_tail message_class command payload))),
          ))
