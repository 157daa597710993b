-- ===== src/Emulator/Udp/Recorded.antt =====
-- The microphone's RTP stream, recorded by the radio.
use ip_commandmic.Prelude.{
  ℕ, suc, ◌+◌, ◌%◌, ◌<◌, ◌≡◌, refl, arith, ◌∙◌, ap, ap₂, sym, ◌==◌, ==_refl, ==_iff, leb,
  if◌then◌else◌, List, [], ◌∷◌, ◌++◌, append-nil, append_assoc, map, Bytes, All, Bool, true, false,
  not, ◌&&◌, ◌||◌, Option, none, length, slice,
}
use ip_commandmic.Protocol.Frame.{from_bytes_big}
use ip_commandmic.Emulator.Frames.{mic_rtp_ssrc}
use ip_commandmic.Emulator.Udp.{
  RtpSender, next_sender, next_deadline, SentPacket, Timed, send_transmit_stream, rtp_packet,
  MicRecorder, sequence_error, timestamp_error, counted, record_mic_rtp, finish_mic_recording,
  datagram_received, start_mic_recording,
}
use ip_commandmic.Emulator.Udp.Packets.{
  IsSender, next-IsSender, packet, sequence_field, timestamp_field, ssrc_field, sized,
}

-- The branches that a packet in order takes.
taken :
    (b c : Bool) (x y z : MicRecorder × Option Bytes)
    → b ≡ true
    → c ≡ true
    → (if not (true && (b && true)) then x else if c then y else z).0 ≡ y.0
taken b c x y z h k = rw (h, k) refl

kept_open :
    (b c : Bool) (x y z : MicRecorder)
    → b ≡ true
    → c ≡ false
    → (if not b then x else if c then y else z) ≡ z
kept_open b c x y z h k = rw (h, k) refl

-- The recorder that the packets of a sender reach, from the peer and in order.
module _ (to_file callback : Bool) (max_packets : ℕ) (exists : Bool) where
  abbrev pub receive_all : List SentPacket → MicRecorder → MicRecorder
  receive_all [] r = r
  receive_all (p ∷ ps) r =
      receive_all ps (datagram_received to_file callback max_packets exists true p.packet r).0

  -- A recorder that a packet of the sender continues without an error.
  record Awaits (s : RtpSender) (r : MicRecorder) : Type 0 where
    pub recording : r.recording ≡ true
    pub sequence : sequence_error r.last s.sequence ≡ 0
    pub timestamp : timestamp_error r.last s.timestamp ≡ 0

  abbrev after : RtpSender → Bytes → MicRecorder → MicRecorder
  after s payload r = counted to_file callback max_packets exists r s.sequence s.timestamp payload

  recorded :
      (s : RtpSender) (h : IsSender s) (payload : Bytes) (r : MicRecorder)
      → r.packet_count + 1 < max_packets
      → record_mic_rtp to_file callback max_packets exists (packet s h payload) r
        ≡ after s payload r
  unfolding record_mic_rtp
  recorded s h payload r fits =
      kept_open (from_bytes_big (slice (packet s h payload) 8 12) == mic_rtp_ssrc)
        (leb max_packets (r.packet_count + 1)) r
        (finish_mic_recording to_file callback max_packets exists (
          counted to_file callback max_packets exists r
            (from_bytes_big (slice (packet s h payload) 2 4))
            (from_bytes_big (slice (packet s h payload) 4 8)) payload))
        (counted to_file callback max_packets exists r
          (from_bytes_big (slice (packet s h payload) 2 4))
          (from_bytes_big (slice (packet s h payload) 4 8)) payload)
        (ap (λ n. n == mic_rtp_ssrc) (ssrc_field s h payload)) (ground arith)
      ∙ ap₂ (λ q t. counted to_file callback max_packets exists r q t payload)
          (sequence_field s h payload) (timestamp_field s h payload)

  received :
      (s : RtpSender) (h : IsSender s) (payload : Bytes) (r : MicRecorder)
      → length payload ≡ 320
      → Awaits s r
      → r.packet_count + 1 < max_packets
      → (datagram_received to_file callback max_packets exists true (packet s h payload) r).0
        ≡ after s payload r
  unfolding datagram_received
  received s h payload r size awaits fits =
      taken (length (packet s h payload) == 332) r.recording _ _ _ (sized s h payload size)
        awaits.recording
      ∙ recorded s h payload r fits

  Awaits-next :
      (s : RtpSender) (payload : Bytes) (r : MicRecorder)
      → Awaits s r
      → Awaits (next_sender s) (after s payload r)
  Awaits-next s payload r awaits = record {
    recording = unfold counted in awaits.recording;
    sequence = unfold counted sequence_error in rw (==_refl ((s.sequence + 1) % 65536)) refl;
    timestamp =
        unfold counted timestamp_error in rw (==_refl ((s.timestamp + 160) % 4294967296)) refl;
  }

  -- What recording some payloads adds.
  record Keeps (r : MicRecorder) (ps : List Bytes) (r' : MicRecorder) : Type 0 where
    pub sequence : r'.sequence_errors ≡ r.sequence_errors
    pub timestamp : r'.timestamp_errors ≡ r.timestamp_errors
    pub count : r'.packet_count ≡ r.packet_count + length ps
    pub payloads : r'.payloads ≡ (if to_file then r.payloads ++ ps else r.payloads)
    pub heard : r'.heard ≡ (if callback then r.heard ++ ps else r.heard)

  one_more :
      (b : Bool) (xs ps : List Bytes) (p : Bytes)
      → (if b then (if b then xs ++ p ∷ [] else xs) ++ ps else (if b then xs ++ p ∷ [] else xs))
        ≡ (if b then xs ++ p ∷ ps else xs)
  one_more true xs ps p = append_assoc xs (p ∷ []) ps
  one_more false xs ps p = refl

  none_more : (b : Bool) (xs : List Bytes) → xs ≡ (if b then xs ++ [] else xs)
  none_more true xs = sym (append-nil xs)
  none_more false xs = refl

  Keeps-after :
      (s : RtpSender) (payload : Bytes) (ps : List Bytes) (r r' : MicRecorder)
      → Awaits s r
      → Keeps (after s payload r) ps r'
      → Keeps r (payload ∷ ps) r'
  unfolding counted
  Keeps-after s payload ps r r' awaits k = record {
    sequence = k.sequence ∙ omega (arith, awaits.sequence);
    timestamp = k.timestamp ∙ omega (arith, awaits.timestamp);
    count = k.count ∙ omega arith;
    payloads = k.payloads ∙ one_more to_file r.payloads ps payload;
    heard = k.heard ∙ one_more callback r.heard ps payload;
  }

  -- A stream that is sent, and what the recorder then holds.
  abbrev IsHeard : List Bytes → MicRecorder → RtpSender × List SentPacket × Bool → Type 0
  IsHeard ps r out = (out.2 ≡ true) × Keeps r ps (receive_all out.1 r)

  joined :
      (s : RtpSender) (h : IsSender s) (payload : Bytes) (sent_at : ℕ) (ps : List Bytes)
      (r : MicRecorder) (out : RtpSender × List SentPacket × Bool)
      → length payload ≡ 320
      → Awaits s r
      → r.packet_count + 1 < max_packets
      → IsHeard ps (after s payload r) out
      → IsHeard (payload ∷ ps) r (
        out.0,
        record { sent_at = sent_at; packet = rtp_packet mic_rtp_ssrc s payload } ∷ out.1,
        out.2,
      )
  joined s h payload sent_at ps r out size awaits fits k = (
    k.0,
    rw (received s h payload r size awaits fits)
        (Keeps-after s payload ps r (receive_all out.1 (after s payload r)) awaits k.1),
  )

  fits_later :
      (r : MicRecorder) (s : RtpSender) (payload : Bytes) (n : ℕ)
      → r.packet_count + 1 + n < max_packets
      → (after s payload r).packet_count + n < max_packets
  unfolding counted
  fits_later r s payload n h = h

  stream-IsHeard :
      (s : RtpSender) (deadline : ℕ) (payloads : List Timed) (r : MicRecorder)
      → IsSender s
      → All (λ t. length t.0 ≡ 320) payloads
      → Awaits s r
      → r.packet_count + length payloads < max_packets
      → IsHeard (map (λ t. t.0) payloads) r (send_transmit_stream s deadline payloads)
  unfolding send_transmit_stream
  stream-IsHeard s deadline [] r h sizes awaits fits = (
    refl,
    record {
      sequence = refl;
      timestamp = refl;
      count = omega arith;
      payloads = none_more to_file r.payloads;
      heard = none_more callback r.heard;
    },
  )
  stream-IsHeard s deadline ((payload, late) ∷ payloads) r h (size, sizes) awaits fits =
      rw ((==_iff (length payload) 320).1 size) (
        joined s h payload (deadline + late) (map (λ t. t.0) payloads) r
          (send_transmit_stream (next_sender s) (next_deadline deadline (deadline + late)) payloads)
          size awaits (omega arith)
          (stream-IsHeard (next_sender s) (next_deadline deadline (deadline + late)) payloads
            (after s payload r) (next-IsSender s) sizes (Awaits-next s payload r awaits)
            (fits_later r s payload (length payloads) (omega arith))))

  -- A recorder that was just started.
  record IsFresh (r : MicRecorder) : Type 0 where
    pub recording : r.recording ≡ true
    pub last : r.last ≡ none
    pub sequence : r.sequence_errors ≡ 0
    pub timestamp : r.timestamp_errors ≡ 0
    pub count : r.packet_count ≡ 0
    pub payloads : r.payloads ≡ []

  abbrev first_open : Bool → Bool → MicRecorder → MicRecorder → MicRecorder × Bool
  first_open b c r y = if b then (r, false) else if c then (r, false) else (y, true)

  IsFresh-first_open :
      (b c : Bool) (r y : MicRecorder)
      → IsFresh y
      → (first_open b c r y).1 ≡ true
      → IsFresh (first_open b c r y).0
  IsFresh-first_open true c r y h e = absurd (never e)
    where
      never : false ≡ true → ⊥
      never k = cc
  IsFresh-first_open false true r y h e = absurd (never e)
    where
      never : false ≡ true → ⊥
      never k = cc
  IsFresh-first_open false false r y h e = h

  start_mic_recording-IsFresh :
      (r : MicRecorder)
      → (start_mic_recording to_file callback max_packets exists r).1 ≡ true
      → IsFresh (start_mic_recording to_file callback max_packets exists r).0
  unfolding start_mic_recording
  start_mic_recording-IsFresh r e =
      IsFresh-first_open (not (to_file || callback)) (r.recording_complete && to_file) r _
        (record {
          recording = refl;
          last = refl;
          sequence = refl;
          timestamp = refl;
          count = refl;
          payloads = refl;
        })
        e

  fresh-Awaits : (s : RtpSender) (r : MicRecorder) → IsFresh r → Awaits s r
  fresh-Awaits s r f = record {
    recording = f.recording;
    sequence = ap (λ l. sequence_error l s.sequence) f.last ∙ unfold sequence_error in refl;
    timestamp = ap (λ l. timestamp_error l s.timestamp) f.last ∙ unfold timestamp_error in refl;
  }

  length-payloads : (ts : List Timed) → length (map (λ t. t.0) ts) ≡ length ts
  length-payloads [] = refl
  length-payloads (t ∷ ts) = ap suc (length-payloads ts)

  from_empty :
      (b : Bool) (xs ps : List Bytes)
      → xs ≡ []
      → (if b then xs ++ ps else xs) ≡ (if b then ps else [])
  from_empty true xs ps e = ap (λ l. l ++ ps) e
  from_empty false xs ps e = e

  -- A recorder that starts, and then hears a stream of 320-byte payloads from its peer that is
  -- shorter than its limit: the sender sends them all, the recorder reports no error of sequence
  -- or timestamp, also where they wrap around, counts every packet, and keeps and passes on
  -- exactly the payloads, in order.
  pub send_transmit_stream-recorded :
      (s : RtpSender) (deadline : ℕ) (payloads : List Timed) (r : MicRecorder)
      → IsSender s
      → All (λ t. length t.0 ≡ 320) payloads
      → length payloads < max_packets
      → (start_mic_recording to_file callback max_packets exists r).1 ≡ true
      → ((send_transmit_stream s deadline payloads).2 ≡ true)
        × (let started = (start_mic_recording to_file callback max_packets exists r).0 in
            let heard = receive_all (send_transmit_stream s deadline payloads).1 started in
            (heard.sequence_errors ≡ 0)
            × (heard.timestamp_errors ≡ 0)
            × (heard.packet_count ≡ length payloads)
            × (heard.payloads ≡ (if to_file then map (λ t. t.0) payloads else []))
            × (heard.heard
                ≡ (if callback then started.heard ++ map (λ t. t.0) payloads else started.heard)))
  send_transmit_stream-recorded s deadline payloads r h sizes fits starts =
      let started = (start_mic_recording to_file callback max_packets exists r).0 in
      let fresh : IsFresh started = start_mic_recording-IsFresh r starts in
      let ps = map (λ t. t.0) payloads in
      let out =
        stream-IsHeard s deadline payloads started h sizes (fresh-Awaits s started fresh)
          (omega (arith, fresh.count, fits)) in
      (
        out.0,
        (
          out.1.sequence ∙ fresh.sequence,
          out.1.timestamp ∙ fresh.timestamp,
          out.1.count ∙ omega (arith, fresh.count, length-payloads payloads),
          out.1.payloads ∙ from_empty to_file started.payloads ps fresh.payloads,
          out.1.heard,
        ),
      )
