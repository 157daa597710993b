-- ===== src/Audio/Jitter.antt =====
-- `RadioAudioJitterBuffer` of src/ip_commandmic/audio.py. A packet carries the samples that its
-- property `pcm_s16le` gives.
pub mod Counted
use ip_commandmic.Prelude.{
  ℕ, ◌+◌, ◌-◌, ◌%◌, ◌==◌, ltb, leb, if◌then◌else◌, List, [], ◌∷◌, ◌++◌, Bytes, Bool, true, false,
  not, ◌&&◌, Option, none, some, length, replicate,
}

pub record Packet : Type 0 where
  pub session : ℕ
  pub sequence : ℕ
  pub pcm_s16le : Bytes

pub record PlayoutFrame : Type 0 where
  pub session : ℕ
  pub sequence : ℕ
  pub pcm_s16le : Bytes
  pub concealed : Bool

-- The packets wait in a dictionary by their sequence number.
pub record JitterBuffer : Type 0 where
  pub prebuffer_packets : ℕ
  pub max_gap_packets : ℕ
  pub session : Option ℕ
  pub packets : List (ℕ × Bytes)
  pub expected : Option ℕ
  pub started : Bool
  pub received : ℕ
  pub played : ℕ
  pub concealed : ℕ
  pub duplicates : ℕ
  pub late : ℕ
  pub discontinuities : ℕ

abbrev pub empty_buffer : ℕ → ℕ → JitterBuffer
empty_buffer prebuffer_packets max_gap_packets = record {
  prebuffer_packets = prebuffer_packets;
  max_gap_packets = max_gap_packets;
  session = none;
  packets = [];
  expected = none;
  started = false;
  received = 0;
  played = 0;
  concealed = 0;
  duplicates = 0;
  late = 0;
  discontinuities = 0;
}

-- `__init__`; `none` is its ValueError.
unfoldable pub new_buffer : ℕ → ℕ → Option JitterBuffer
new_buffer prebuffer_packets max_gap_packets =
    if not (leb 1 prebuffer_packets && leb prebuffer_packets 25)
    then none
    else if not (leb 1 max_gap_packets && leb max_gap_packets 100)
    then none
    else some (empty_buffer prebuffer_packets max_gap_packets)

-- `(sequence - reference) & 0xFFFF`, of integers.
unfoldable pub forward_distance : ℕ → ℕ → ℕ
forward_distance sequence reference = (sequence + 65536 - reference % 65536) % 65536

-- `start_session` of a positive session.
abbrev pub start_session : JitterBuffer → ℕ → JitterBuffer
start_session b session = record b {
  session = some session;
  packets = [];
  expected = none;
  started = false;
}

-- What `push` returns, or the ValueError of a session that is not positive.
pub data Pushed : Type 0 where
  accepted refused bad_session : Pushed

abbrev pub has_sequence : ℕ → List (ℕ × Bytes) → Bool
has_sequence sequence [] = false
has_sequence sequence (entry ∷ entries) =
    if entry.0 == sequence then true else has_sequence sequence entries

-- The packet is stored, for the expected number given.
abbrev pub store_packet : JitterBuffer → Packet → ℕ → JitterBuffer × Pushed
store_packet b p expected = (
  record b {
    packets = b.packets ++ (p.sequence, p.pcm_s16le) ∷ [];
    expected = some expected;
    received = b.received + 1;
  },
  accepted,
)

abbrev pub refuse_gap : JitterBuffer → JitterBuffer × Pushed
refuse_gap b = (record b { discontinuities = b.discontinuities + 1 }, refused)

-- A packet of a new sequence number, by the number that is expected.
pub push_new : JitterBuffer → Packet → Option ℕ → JitterBuffer × Pushed
unfolding forward_distance
push_new b p none = store_packet b p p.sequence
push_new b p (some expected) =
    let distance = forward_distance p.sequence expected in
    if b.started
    then (if leb 0x8000 distance
        then (record b { late = b.late + 1 }, refused)
        else if ltb b.max_gap_packets distance
        then refuse_gap b
        else store_packet b p expected)
    else if ltb distance 0x8000
    then (if ltb b.max_gap_packets distance then refuse_gap b else store_packet b p expected)
    else if ltb b.max_gap_packets (forward_distance expected p.sequence)
    then refuse_gap b
    else store_packet b p p.sequence

-- Within the session of the packet.
pub push_in_session : JitterBuffer → Packet → JitterBuffer × Pushed
unfolding push_new
push_in_session b p =
    if has_sequence p.sequence b.packets
    then (record b { duplicates = b.duplicates + 1 }, refused)
    else push_new b p b.expected

abbrev pub same_session : Option ℕ → ℕ → Bool
same_session none session = false
same_session (some current) session = current == session

unfoldable pub push : JitterBuffer → Packet → JitterBuffer × Pushed
unfolding push_in_session
push b p =
    if same_session b.session p.session
    then push_in_session b p
    else if ltb p.session 1
    then (b, bad_session)
    else push_in_session (start_session b p.session) p

-- packets.pop(sequence, None): the value, and the entries that are left.
abbrev pub take_packet : ℕ → List (ℕ × Bytes) → Option Bytes × List (ℕ × Bytes)
take_packet sequence [] = (none, [])
take_packet sequence (entry ∷ entries) =
    let later = take_packet sequence entries in
    if entry.0 == sequence then (some entry.1, entries) else (later.0, entry ∷ later.1)

-- The frame of the expected number, or silence.
pub play :
    JitterBuffer → ℕ → ℕ → Option Bytes × List (ℕ × Bytes) → JitterBuffer × Option PlayoutFrame
play b session sequence (some payload, left) = (
  record b {
    packets = left;
    expected = some ((sequence + 1) % 65536);
    started = true;
    played = b.played + 1;
  },
  some (record { session = session; sequence = sequence; pcm_s16le = payload; concealed = false }),
)
play b session sequence (none, left) = (
  record b {
    packets = left;
    expected = some ((sequence + 1) % 65536);
    started = true;
    played = b.played + 1;
    concealed = b.concealed + 1;
  },
  some (record {
    session = session;
    sequence = sequence;
    pcm_s16le = replicate 320 0;
    concealed = true;
  }),
)

pub pop_expected : JitterBuffer → Option ℕ → Option ℕ → JitterBuffer × Option PlayoutFrame
unfolding play
pop_expected b none expected = (b, none)
pop_expected b (some session) none = (b, none)
pop_expected b (some session) (some sequence) =
    if not b.started && ltb (length b.packets) b.prebuffer_packets
    then (b, none)
    else play b session sequence (take_packet sequence b.packets)

unfoldable pub pop : JitterBuffer → JitterBuffer × Option PlayoutFrame
unfolding pop_expected
pop b = pop_expected b b.session b.expected
