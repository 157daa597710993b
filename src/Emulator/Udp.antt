-- ===== src/Emulator/Udp.antt =====
-- The RTP streams of src/ip_commandmic/emulator.py: the two senders, and the recorder of
-- VerifiedRadioUdpProtocol. Times are in microseconds.
pub mod Gate
pub mod Pacing
pub mod Packets
pub mod Recorded
use ip_commandmic.Prelude.{
  ℕ, ◌+◌, ◌/◌, ◌%◌, ◌==◌, ltb, leb, if◌then◌else◌, List, [], ◌∷◌, ◌++◌, Bytes, Bool, true, false,
  not, ◌&&◌, ◌||◌, ◌=?◌, Option, none, some, length, slice, take, drop, concat,
}
use ip_commandmic.Protocol.Frame.{to_bytes_big, from_bytes_big}
use ip_commandmic.Emulator.Frames.{radio_rtp_ssrc, mic_rtp_ssrc, radio_boot_rtp}

-- `_mic_tx_sequence` and `_mic_tx_timestamp`, or `_sequence` and `_timestamp`.
pub record RtpSender : Type 0 where
  pub sequence : ℕ
  pub timestamp : ℕ

-- struct.pack("!I", n)
abbrev pub four_bytes : ℕ → Bytes
four_bytes n = to_bytes_big (n / 65536) ++ to_bytes_big (n % 65536)

-- struct.pack("!BBHII", 0x80, 0x7D, sequence, timestamp, ssrc) + payload
abbrev pub rtp_packet : ℕ → RtpSender → Bytes → Bytes
rtp_packet ssrc s payload =
    0x80
    ∷ 0x7D
    ∷ (to_bytes_big s.sequence ++ (four_bytes s.timestamp ++ (four_bytes ssrc ++ payload)))

abbrev pub next_sender : RtpSender → RtpSender
next_sender s = record {
  sequence = (s.sequence + 1) % 65536;
  timestamp = (s.timestamp + 160) % 4294967296;
}

-- The deadline of the packet behind one that was sent.
unfoldable pub next_deadline : ℕ → ℕ → ℕ
next_deadline deadline sent_at =
    if ltb (deadline + 20000) (sent_at + 18000) then sent_at + 20000 else deadline + 20000

-- A packet that was sent, and when.
pub record SentPacket : Type 0 where
  pub sent_at : ℕ
  pub packet : Bytes

-- A payload with the time that passes between its deadline and its sending.
abbrev pub Timed : Type 0
Timed = Bytes × ℕ

-- The loop of `_send_audio_payloads`.
unfoldable pub send_audio_payloads : RtpSender → ℕ → List Timed → RtpSender × List SentPacket
unfolding next_deadline
send_audio_payloads s deadline [] = (s, [])
send_audio_payloads s deadline ((payload, late) ∷ payloads) =
    let sent_at = deadline + late in
    let later = send_audio_payloads (next_sender s) (next_deadline deadline sent_at) payloads in
    (later.0, record { sent_at = sent_at; packet = rtp_packet radio_rtp_ssrc s payload } ∷ later.1)

-- The loop of `_send_transmit_stream`, with the packets that were sent also before an error, and
-- whether it ends without one (`false` is its ValueError).
unfoldable pub send_transmit_stream :
    RtpSender → ℕ → List Timed → RtpSender × List SentPacket × Bool
unfolding next_deadline
send_transmit_stream s deadline [] = (s, [], true)
send_transmit_stream s deadline ((payload, late) ∷ payloads) =
    let sent_at = deadline + late in
    let later = send_transmit_stream (next_sender s) (next_deadline deadline sent_at) payloads in
    if not (length payload == 320) then (s, [], false) else (
      later.0,
      record { sent_at = sent_at; packet = rtp_packet mic_rtp_ssrc s payload } ∷ later.1,
      later.2,
    )

-- The recorder of VerifiedRadioUdpProtocol. `last` is the last sequence and timestamp, which are
-- set together; `heard` is what the callback was given, and `written` what `write_wav` was.
pub record MicRecorder : Type 0 where
  pub peer_ready : Bool
  pub recording : Bool
  pub ptt_session_active : Bool
  pub recording_complete : Bool
  pub payloads : List Bytes
  pub packet_count : ℕ
  pub first_sequence : Option ℕ
  pub last : Option (ℕ × ℕ)
  pub sequence_errors : ℕ
  pub timestamp_errors : ℕ
  pub withheld_packets : ℕ
  pub heard : List Bytes
  pub written : Option Bytes

abbrev pub new_recorder : MicRecorder
new_recorder = record {
  peer_ready = false;
  recording = false;
  ptt_session_active = false;
  recording_complete = false;
  payloads = [];
  packet_count = 0;
  first_sequence = none;
  last = none;
  sequence_errors = 0;
  timestamp_errors = 0;
  withheld_packets = 0;
  heard = [];
  written = none;
}

-- The errors of a packet against the one before it.
unfoldable pub sequence_error : Option (ℕ × ℕ) → ℕ → ℕ
sequence_error none sequence = 0
sequence_error (some (q, t)) sequence = if sequence == (q + 1) % 65536 then 0 else 1

unfoldable pub timestamp_error : Option (ℕ × ℕ) → ℕ → ℕ
timestamp_error none timestamp = 0
timestamp_error (some (q, t)) timestamp = if timestamp == (t + 160) % 4294967296 then 0 else 1

first_of : Option (ℕ × ℕ) → Option ℕ → ℕ → Option ℕ
first_of none first sequence = some sequence
first_of (some l) first sequence = first

-- `to_file` is whether `_record_mic_wav` is set, `callback` whether a callback is, `max_packets` is
-- `_mic_recording_max_packets`, and `exists` whether the file exists when it is to be written.
module _ (to_file callback : Bool) (max_packets : ℕ) (exists : Bool) where
  unfoldable pub finish_mic_recording : MicRecorder → MicRecorder
  finish_mic_recording r =
      if not r.recording
      then r
      else if not to_file
      then record r { recording = false; recording_complete = true; payloads = [] }
      else if exists
      then record r { recording = false; recording_complete = true }
      else record r {
        recording = false;
        recording_complete = true;
        written = some (concat r.payloads);
      }

  -- The packet counted, kept and passed on.
  unfoldable pub counted : MicRecorder → ℕ → ℕ → Bytes → MicRecorder
  unfolding sequence_error timestamp_error first_of
  counted r sequence timestamp payload = record r {
    sequence_errors = r.sequence_errors + sequence_error r.last sequence;
    timestamp_errors = r.timestamp_errors + timestamp_error r.last timestamp;
    first_sequence = first_of r.last r.first_sequence sequence;
    last = some (sequence, timestamp);
    packet_count = r.packet_count + 1;
    payloads = if to_file then r.payloads ++ payload ∷ [] else r.payloads;
    heard = if callback then r.heard ++ payload ∷ [] else r.heard;
  }

  -- `_record_mic_rtp`
  unfoldable pub record_mic_rtp : Bytes → MicRecorder → MicRecorder
  unfolding counted finish_mic_recording from_bytes_big
  record_mic_rtp data' r =
      let r' =
        counted r (from_bytes_big (slice data' 2 4)) (from_bytes_big (slice data' 4 8))
          (drop 12 data') in
      if not (from_bytes_big (slice data' 8 12) == mic_rtp_ssrc)
      then r
      else if leb max_packets r'.packet_count
      then finish_mic_recording r'
      else r'

  -- Whether all bytes are zero.
  all_zero : Bytes → Bool
  all_zero [] = true
  all_zero (b ∷ bs) = (b == 0) && all_zero bs

  -- `datagram_received` on an open transport, with the answer that it sends; `from_peer` is
  -- whether the address is the peer's.
  unfoldable pub datagram_received : Bool → Bytes → MicRecorder → MicRecorder × Option Bytes
  unfolding record_mic_rtp all_zero
  datagram_received from_peer data' r =
      if not (from_peer && ((length data' == 332) && (take 2 data' =? (0x80 ∷ 0x7D ∷ []))))
      then (r, none)
      else if r.recording
      then (record_mic_rtp data' r, none)
      else if all_zero (drop 12 data')
      then (record r { peer_ready = true }, some radio_boot_rtp)
      else (record r { withheld_packets = r.withheld_packets + 1 }, none)

  -- `start_mic_recording`, with what it returns.
  unfoldable pub start_mic_recording : MicRecorder → MicRecorder × Bool
  start_mic_recording r =
      if not (to_file || callback)
      then (r, false)
      else if r.recording_complete && to_file
      then (r, false)
      else (
        record r {
          recording = true;
          ptt_session_active = true;
          payloads = [];
          packet_count = 0;
          first_sequence = none;
          last = none;
          sequence_errors = 0;
          timestamp_errors = 0;
          withheld_packets = 0;
        },
        true,
      )

  -- `release_mic_recording`, with what it returns; `finish_mic_recording` follows later.
  unfoldable pub release_mic_recording : MicRecorder → MicRecorder × Bool
  release_mic_recording r =
      if not r.ptt_session_active
      then (r, false)
      else (record r { ptt_session_active = false }, true)
