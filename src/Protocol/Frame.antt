-- ===== src/Protocol/Frame.antt =====
-- `crc16_commandmic`, `decode_wire_frame` and `build_frame` of src/ip_commandmic/protocol.py.
pub mod RoundTrip
use ip_commandmic.Prelude.{
  ℕ, ◌+◌, ◌-◌, ◌*◌, ◌/◌, ◌%◌, ◌==◌, ltb, leb, if◌then◌else◌, List, [], ◌∷◌, ◌++◌, Bytes, Bool, true,
  false, not, ◌&&◌, ◌||◌, length, take, slice, take_last,
}
use ip_commandmic.Errors.{Encoded, ok, err, bad_start_byte, bad_class_or_command, payload_too_large}
use ip_commandmic.Checksum.{crc16}
use ip_commandmic.Protocol.Stuffing.{stuff_bytes, unstuff_bytes}

-- int.from_bytes(data, "big")
from_big_loop : ℕ → Bytes → ℕ
from_big_loop n [] = n
from_big_loop n (b ∷ bs) = from_big_loop (n * 256 + b) bs

unfoldable pub from_bytes_big : Bytes → ℕ
unfolding from_big_loop
from_bytes_big = from_big_loop 0

-- n.to_bytes(2, "big"), for n below 2 ^ 16.
abbrev pub to_bytes_big : ℕ → Bytes
to_bytes_big n = n / 256 ∷ n % 256 ∷ []

-- "Modbus polynomial/init"
unfoldable pub crc16_commandmic : Bytes → ℕ
crc16_commandmic data' = crc16 data' 0xA001 0xFFFF true

pub record Decoded : Type 0 where
  pub logical : Bytes
  pub stuffed : Bool

-- `raw[:1] + unstuff_bytes(raw[1:-1]) + raw[-1:]`
unfoldable pub decode_wire_frame : Bytes → Decoded
decode_wire_frame raw =
    if ltb (length raw) 4
    then record { logical = raw; stuffed = false }
    else let decoded =
        take 1 raw ++ (unstuff_bytes (slice raw 1 (length raw - 1)) ++ take_last 1 raw) in
      record { logical = decoded; stuffed = not (length decoded == length raw) }

-- `logical[1:]` of `build_frame`: the magic, the class, the command, the length and the payload.
unfoldable pub logical_tail : ℕ → ℕ → Bytes → Bytes
logical_tail message_class command payload =
    0x41 ∷ 0x71 ∷ message_class ∷ command ∷ (to_bytes_big (length payload) ++ payload)

-- The frame behind the guards.
unfoldable pub frame_of : ℕ → ℕ → Bytes → ℕ → Bytes
unfolding logical_tail
frame_of message_class command payload start_byte =
    let tail = logical_tail message_class command payload in
    let checksum = to_bytes_big (crc16_commandmic tail) in
    start_byte ∷ (stuff_bytes (tail ++ checksum) ++ 0xFD ∷ [])

unfoldable pub build_frame : ℕ → ℕ → Bytes → ℕ → Encoded Bytes
unfolding frame_of
build_frame message_class command payload start_byte =
    if not ((start_byte == 0xF3) || (start_byte == 0xF5))
    then err bad_start_byte
    else if not (leb message_class 0xFF) || not (leb command 0xFF)
    then err bad_class_or_command
    else if ltb 0xFFFF (length payload)
    then err payload_too_large
    else ok (frame_of message_class command payload start_byte)
