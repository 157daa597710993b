-- ===== src/Capture/Reassembly.antt =====
-- `TcpSegment` and `_reassemble_direction` of src/ip_commandmic/pcap.py. A time stamp is a number,
-- which only order and equality are asked of.
pub mod Order
pub mod Covers
pub mod Whole
use ip_commandmic.Prelude.{
  ℕ, ◌+◌, ◌-◌, ◌==◌, ltb, leb, if◌then◌else◌, List, [], ◌∷◌, ◌++◌, Bytes, Text, Bool, ◌&&◌, ◌||◌,
  ◌=?◌, length, drop, replicate,
}
use ip_commandmic.Models.{Direction, radio_to_mic, mic_to_radio}

pub record TcpSegment : Type 0 where
  pub stream : ℕ
  pub timestamp : ℕ
  pub source_ip : Text
  pub destination_ip : Text
  pub source_port : ℕ
  pub destination_port : ℕ
  pub sequence : ℕ
  pub payload : Bytes

unfoldable pub direction_for : TcpSegment → Text → Text → Direction
direction_for segment radio_ip mic_ip =
    if segment.source_ip =? radio_ip
    then radio_to_mic
    else if segment.source_ip =? mic_ip
    then mic_to_radio
    else Direction.unknown

-- The order of the keys (sequence, timestamp).
abbrev pub precedes : TcpSegment → TcpSegment → Bool
precedes a b =
    ltb a.sequence b.sequence || ((a.sequence == b.sequence) && ltb a.timestamp b.timestamp)

-- `sorted`, which keeps the order of equal keys.
pub insert : TcpSegment → List TcpSegment → List TcpSegment
insert s [] = s ∷ []
insert s (t ∷ ts) = let later = insert s ts in if precedes t s then t ∷ later else s ∷ t ∷ ts

unfoldable pub sorted : List TcpSegment → List TcpSegment
unfolding insert
sorted [] = []
sorted (s ∷ ss) = insert s (sorted ss)

-- The state of the loop. A warning is the sequence number expected and the one that came.
pub record Reassembly : Type 0 where
  pub output : Bytes
  pub time_markers : List (ℕ × ℕ)
  pub warnings : List (ℕ × ℕ)
  pub expected : ℕ

-- The zeros that stand for a gap before the segment.
abbrev pub fill_gap : Reassembly → TcpSegment → Reassembly
fill_gap r segment = record {
  output = r.output ++ replicate (segment.sequence - r.expected) 0;
  time_markers = r.time_markers ++ (length r.output, segment.timestamp) ∷ [];
  warnings = r.warnings ++ (r.expected, segment.sequence) ∷ [];
  expected = segment.sequence;
}

-- The part of the payload that is new.
abbrev pub append_payload : Reassembly → TcpSegment → Reassembly
append_payload r segment = record {
  output = r.output ++ drop (r.expected - segment.sequence) segment.payload;
  time_markers = r.time_markers ++ (length r.output, segment.timestamp) ∷ [];
  warnings = r.warnings;
  expected = segment.sequence + length segment.payload;
}

-- The body of the loop.
unfoldable pub take_segment : Reassembly → TcpSegment → Reassembly
take_segment r segment =
    if leb (segment.sequence + length segment.payload) r.expected
    then r
    else if ltb r.expected segment.sequence
    then append_payload (fill_gap r segment) segment
    else append_payload r segment

unfoldable pub take_segments : Reassembly → List TcpSegment → Reassembly
unfolding take_segment
take_segments r [] = r
take_segments r (segment ∷ segments) = take_segments (take_segment r segment) segments

-- The loop starts with the sequence number of the first segment.
abbrev pub starting_at : ℕ → Reassembly
starting_at sequence = record { output = []; time_markers = []; warnings = []; expected = sequence }

pub reassemble_ordered : List TcpSegment → Reassembly
unfolding take_segments
reassemble_ordered [] = starting_at 0
reassemble_ordered (segment ∷ segments) =
    take_segments (starting_at segment.sequence) (segment ∷ segments)

-- `_reassemble_direction`; its result has no `expected`.
unfoldable pub reassemble_direction : List TcpSegment → Reassembly
unfolding reassemble_ordered sorted
reassemble_direction segments = reassemble_ordered (sorted segments)
