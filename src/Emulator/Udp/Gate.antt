-- ===== src/Emulator/Udp/Gate.antt =====
-- The audio of the radio at VerifiedMicUdpProtocol of src/ip_commandmic/emulator.py: the boot
-- packets, the gate and the recording.
pub mod Balance
pub mod Audio
pub mod Passed
pub mod Delivered
pub mod Received
pub mod Sound
use ip_commandmic.Prelude.{
  ℕ, ◌+◌, ◌-◌, ◌%◌, ◌==◌, ltb, leb, if◌then◌else◌, List, [], ◌∷◌, ◌++◌, Bytes, Bool, true, false,
  not, ◌&&◌, ◌||◌, ◌=?◌, Option, none, some, length, slice, take, drop, concat, bit_and,
}
use ip_commandmic.Protocol.Frame.{from_bytes_big}
use ip_commandmic.Emulator.Frames.{radio_rtp_ssrc, radio_boot_rtp}
use ip_commandmic.Emulator.Udp.{sequence_error, timestamp_error}

pub record RadioAudioPacket : Type 0 where
  pub session : ℕ
  pub sequence : ℕ
  pub timestamp : ℕ
  pub ssrc : ℕ
  pub payload_s16be : Bytes
  pub sample_rate : ℕ

pub record RadioAudioGateEvent : Type 0 where
  pub session : ℕ
  pub opened : Bool
  pub packet_count : ℕ

-- The fields without their prefix `_radio`. `last` is the last sequence and timestamp, which are
-- set and reset together; `heard` and `gates` are what the two callbacks were given, and `written`
-- what `write_wav` was.
pub record RadioCapture : Type 0 where
  pub boot_sent : Bool
  pub boot_verified : Bool
  pub audio_gate_open : Bool
  pub recording_complete : Bool
  pub payloads : List Bytes
  pub gate_sessions : ℕ
  pub gate_packet_start : ℕ
  pub total_packets : ℕ
  pub first_sequence : Option ℕ
  pub last : Option (ℕ × ℕ)
  pub sequence_errors : ℕ
  pub timestamp_errors : ℕ
  pub withheld_packets : ℕ
  pub heard : List RadioAudioPacket
  pub gates : List RadioAudioGateEvent
  pub written : Option Bytes

abbrev pub new_capture : RadioCapture
new_capture = record {
  boot_sent = false;
  boot_verified = false;
  audio_gate_open = false;
  recording_complete = false;
  payloads = [];
  gate_sessions = 0;
  gate_packet_start = 0;
  total_packets = 0;
  first_sequence = none;
  last = none;
  sequence_errors = 0;
  timestamp_errors = 0;
  withheld_packets = 0;
  heard = [];
  gates = [];
  written = none;
}

-- `send_boot`, with what it returns; `transport` is whether there is one.
unfoldable pub send_boot : Bool → RadioCapture → RadioCapture × Bool
send_boot transport c = if not transport then (c, false) else (record c { boot_sent = true }, true)

-- The first sequence of all, kept when a new session begins.
unfoldable pub radio_first : Option (ℕ × ℕ) → Option ℕ → ℕ → Option ℕ
radio_first none none sequence = some sequence
radio_first none (some first) sequence = some first
radio_first (some l) first sequence = first

-- The version and the payload type of a packet.
unfoldable pub radio_shape : Bytes → Bool
radio_shape (a ∷ b ∷ rest) = (a == 0x80) && (bit_and b 0x7F == 0x7D)
radio_shape (a ∷ []) = false
radio_shape [] = false

-- What may happen to the protocol, `close` included.
pub data RadioCall : Type 0 where
  boots : Bool → RadioCall
  receives : Bool → Bytes → RadioCall
  sets_gate : Bool → RadioCall
  closes : RadioCall

-- `to_file` is whether `_record_radio_wav` is set, `callback` and `gate_callback` whether these
-- callbacks are, `max_packets` is `_radio_recording_max_packets`, and `exists` whether the file
-- exists when it is to be written.
module _ (to_file callback gate_callback : Bool) (max_packets : ℕ) (exists : Bool) where
  unfoldable pub finish_radio_recording : RadioCapture → RadioCapture
  finish_radio_recording c =
      if not to_file || c.recording_complete
      then c
      else if exists
      then record c { audio_gate_open = false; recording_complete = true }
      else record c {
        audio_gate_open = false;
        recording_complete = true;
        written = some (concat c.payloads);
      }

  -- The packet counted, kept and passed on.
  unfoldable pub radio_counted : RadioCapture → ℕ → ℕ → Bytes → RadioCapture
  unfolding sequence_error timestamp_error radio_first
  radio_counted c sequence timestamp payload = record c {
    sequence_errors = c.sequence_errors + sequence_error c.last sequence;
    timestamp_errors = c.timestamp_errors + timestamp_error c.last timestamp;
    first_sequence = radio_first c.last c.first_sequence sequence;
    last = some (sequence, timestamp);
    total_packets = c.total_packets + 1;
    payloads = if to_file then c.payloads ++ payload ∷ [] else c.payloads;
    heard =
        if callback
        then c.heard
          ++ record {
            session = c.gate_sessions;
            sequence = sequence;
            timestamp = timestamp;
            ssrc = radio_rtp_ssrc;
            payload_s16be = payload;
            sample_rate = 8000;
          }
            ∷ []
        else c.heard;
  }

  -- `_record_radio_rtp`
  unfoldable pub record_radio_rtp : Bytes → RadioCapture → RadioCapture
  unfolding radio_counted finish_radio_recording from_bytes_big
  record_radio_rtp data' c =
      let counted =
        radio_counted c (from_bytes_big (slice data' 2 4)) (from_bytes_big (slice data' 4 8))
          (drop 12 data') in
      if not (from_bytes_big (slice data' 8 12) == radio_rtp_ssrc)
      then c
      else if to_file && leb max_packets (length counted.payloads)
      then finish_radio_recording counted
      else counted

  -- `datagram_received`; `from_peer` is whether the address is the peer's.
  unfoldable pub radio_datagram_received : Bool → Bytes → RadioCapture → RadioCapture
  unfolding record_radio_rtp radio_shape
  radio_datagram_received from_peer data' c =
      if c.boot_sent && from_peer && (data' =? radio_boot_rtp)
      then record c { boot_verified = true }
      else if not (c.boot_verified && from_peer && (length data' == 332) && radio_shape data')
      then c
      else if not to_file && not callback
      then c
      else if not c.audio_gate_open || c.recording_complete
      then record c { withheld_packets = c.withheld_packets + 1 }
      else record_radio_rtp data' c

  -- `_notify_radio_gate`
  unfoldable pub notify_radio_gate : Bool → ℕ → RadioCapture → RadioCapture
  notify_radio_gate open_ packet_count c = if not gate_callback then c else record c {
    gates =
        c.gates
        ++ record { session = c.gate_sessions; opened = open_; packet_count = packet_count } ∷ [];
  }

  unfoldable pub set_radio_audio_gate : Bool → RadioCapture → RadioCapture
  unfolding notify_radio_gate
  set_radio_audio_gate open_ c =
      if open_
      then (if (not to_file && not callback) || c.recording_complete
          then c
          else notify_radio_gate true 0 (record c {
            audio_gate_open = true;
            gate_sessions = c.gate_sessions + 1;
            gate_packet_start = c.total_packets;
            last = none;
            withheld_packets = 0;
          }))
      else if not c.audio_gate_open
      then c
      else notify_radio_gate false (c.total_packets - c.gate_packet_start)
          (record c { audio_gate_open = false })

  unfoldable pub radio_call : RadioCall → RadioCapture → RadioCapture
  unfolding send_boot radio_datagram_received set_radio_audio_gate finish_radio_recording
  radio_call (boots transport) c = (send_boot transport c).0
  radio_call (receives from_peer data') c = radio_datagram_received from_peer data' c
  radio_call (sets_gate open_) c = set_radio_audio_gate open_ c
  radio_call closes c = finish_radio_recording c

  unfoldable pub radio_calls : List RadioCall → RadioCapture → RadioCapture
  unfolding radio_call
  radio_calls [] c = c
  radio_calls (call ∷ calls) c = radio_calls calls (radio_call call c)
