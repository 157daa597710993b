-- ===== src/Audio/Jitter/Counted.antt =====
-- The jitter buffer counts its packets, whatever is pushed and popped.
use ip_commandmic.Prelude.{
  ℕ, ◌+◌, ◌≤◌, ◌≡◌, arith, List, [], ◌∷◌, Bytes, Bool, true, false, Bool-cases, inl, inr, Option,
  none, some, length, length-append, ◌==◌, ltb, leb, not, ◌&&◌, if◌then◌else◌,
}
use ip_commandmic.Audio.Jitter.{
  Packet, JitterBuffer, start_session, store_packet, push_new, push_in_session, push, take_packet,
  play, pop_expected, pop, refuse_gap, Pushed, refused, bad_session, forward_distance, has_sequence,
  same_session,
}

-- Every frame played that is not concealed, and every packet that waits, was received; and no more
-- frames are concealed than are played.
pub record IsCounted (b : JitterBuffer) : Type 0 where
  pub packets : length b.packets + b.played ≤ b.received + b.concealed
  pub concealed : b.concealed ≤ b.played

abbrev count : Option Bytes → ℕ
count none = 0
count (some payload) = 1

take_packet-length :
    (sequence : ℕ) (entries : List (ℕ × Bytes))
    → length (take_packet sequence entries).1 + count (take_packet sequence entries).0
      ≡ length entries
take_packet-length sequence [] = omega arith
take_packet-length sequence (entry ∷ entries) = elim (Bool-cases (entry.0 == sequence)) [
  | inl e ↦ simp e (omega arith)
  | inr e ↦ simp e (omega (arith, take_packet-length sequence entries))
]

-- What a call leaves behind is counted, whatever it returns.
record Keeps {A : Type 0} (step : JitterBuffer × A) : Type 0 where
  counted : IsCounted step.0

if-Keeps :
    {A : Type 0} (t : Bool) (x y : JitterBuffer × A)
    → Keeps x
    → Keeps y
    → Keeps (if t then x else y)
if-Keeps true x y hx hy = hx
if-Keeps false x y hx hy = hy

module _ (b : JitterBuffer) (h : IsCounted b) where
  store_packet-Keeps : (p : Packet) (expected : ℕ) → Keeps (store_packet b p expected)
  store_packet-Keeps p expected = record {
    counted = record {
      packets = omega (arith, h.packets, length-append b.packets ((p.sequence, p.pcm_s16le) ∷ []));
      concealed = h.concealed;
    };
  }

  refuse_gap-Keeps : Keeps (refuse_gap b)
  refuse_gap-Keeps = record { counted = record { packets = h.packets; concealed = h.concealed } }

  late-Keeps : Keeps (record b { late = b.late + 1 }, refused)
  late-Keeps = record { counted = record { packets = h.packets; concealed = h.concealed } }

  duplicate-Keeps : Keeps (record b { duplicates = b.duplicates + 1 }, refused)
  duplicate-Keeps = record { counted = record { packets = h.packets; concealed = h.concealed } }

  push_new-Keeps : (p : Packet) (expected : Option ℕ) → Keeps (push_new b p expected)
  unfolding push_new
  push_new-Keeps p none = store_packet-Keeps p p.sequence
  push_new-Keeps p (some expected) =
      let distance = forward_distance p.sequence expected in
      let earlier = forward_distance expected p.sequence in
      let store = store_packet b p expected in
      let store_earlier = store_packet b p p.sequence in
      let gap = refuse_gap b in
      let far = ltb b.max_gap_packets distance in
      let ahead = if far then gap else store in
      let ahead-Keeps = if-Keeps far gap store refuse_gap-Keeps (store_packet-Keeps p expected) in
      let drop_late : JitterBuffer × Pushed = (record b { late = b.late + 1 }, refused) in
      if-Keeps b.started (if leb 0x8000 distance then drop_late else ahead)
        (if ltb distance 0x8000
          then ahead
          else if ltb b.max_gap_packets earlier
          then gap
          else store_earlier)
        (if-Keeps (leb 0x8000 distance) drop_late ahead late-Keeps ahead-Keeps)
        (if-Keeps (ltb distance 0x8000) ahead
          (if ltb b.max_gap_packets earlier then gap else store_earlier) ahead-Keeps
          (if-Keeps (ltb b.max_gap_packets earlier) gap store_earlier refuse_gap-Keeps
            (store_packet-Keeps p p.sequence)))

  push_in_session-Keeps : (p : Packet) → Keeps (push_in_session b p)
  unfolding push_in_session
  push_in_session-Keeps p =
      if-Keeps (has_sequence p.sequence b.packets)
        (record b { duplicates = b.duplicates + 1 }, refused) (push_new b p b.expected)
        duplicate-Keeps (push_new-Keeps p b.expected)

  start_session-IsCounted : (session : ℕ) → IsCounted (start_session b session)
  start_session-IsCounted session = record {
    packets = omega (arith, h.packets);
    concealed = h.concealed;
  }

  play-Keeps :
      (session sequence : ℕ) (taken : Option Bytes × List (ℕ × Bytes))
      → length taken.1 + count taken.0 ≡ length b.packets
      → Keeps (play b session sequence taken)
  unfolding play
  play-Keeps session sequence (some payload, left) e = record {
    counted = record {
      packets = omega (arith, h.packets, e);
      concealed = omega (arith, h.concealed);
    };
  }
  play-Keeps session sequence (none, left) e = record {
    counted = record {
      packets = omega (arith, h.packets, e);
      concealed = omega (arith, h.concealed);
    };
  }

  pop_expected-Keeps : (session expected : Option ℕ) → Keeps (pop_expected b session expected)
  unfolding pop_expected
  pop_expected-Keeps none expected = record { counted = h }
  pop_expected-Keeps (some session) none = record { counted = h }
  pop_expected-Keeps (some session) (some sequence) =
      if-Keeps (not b.started && ltb (length b.packets) b.prebuffer_packets) (b, none)
        (play b session sequence (take_packet sequence b.packets)) (record { counted = h })
        (play-Keeps session sequence (take_packet sequence b.packets)
          (take_packet-length sequence b.packets))

push-Keeps : (b : JitterBuffer) (p : Packet) → IsCounted b → Keeps (push b p)
unfolding push
push-Keeps b p h =
    let fresh = start_session b p.session in
    let anew = push_in_session-Keeps fresh (start_session-IsCounted b h p.session) p in
    if-Keeps (same_session b.session p.session) (push_in_session b p)
      (if ltb p.session 1 then (b, bad_session) else push_in_session fresh p)
      (push_in_session-Keeps b h p)
      (if-Keeps (ltb p.session 1) (b, bad_session) (push_in_session fresh p)
        (record { counted = h }) anew)

-- The calls of the network and of the playback clock, as they interleave.
pub data Call : Type 0 where
  pushing : Packet → Call
  popping : Call

abbrev pub after_call : JitterBuffer → Call → JitterBuffer
after_call b (pushing p) = (push b p).0
after_call b popping = (pop b).0

abbrev pub after_calls : JitterBuffer → List Call → JitterBuffer
after_calls b [] = b
after_calls b (call ∷ calls) = after_calls (after_call b call) calls

after_call-IsCounted :
    (b : JitterBuffer) (call : Call) → IsCounted b → IsCounted (after_call b call)
unfolding pop
after_call-IsCounted b (pushing p) h = (push-Keeps b p h).counted
after_call-IsCounted b popping h = (pop_expected-Keeps b h b.session b.expected).counted

-- If the frames played without concealment and the packets that wait are together no more than the
-- packets received, and no more frames are concealed than played, then the same holds after any
-- pushes and pops, in any interleaving and over any sessions.
pub after_calls-IsCounted :
    (b : JitterBuffer) (calls : List Call) → IsCounted b → IsCounted (after_calls b calls)
after_calls-IsCounted b [] h = h
after_calls-IsCounted b (call ∷ calls) h =
    after_calls-IsCounted (after_call b call) calls (after_call-IsCounted b call h)
