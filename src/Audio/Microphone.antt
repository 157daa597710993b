-- ===== src/Audio/Microphone.antt =====
-- `BufferedMicrophoneSource` of src/ip_commandmic/audio.py. Each method holds the lock from its
-- first reading to its last writing, so that it is one step from a state to a state.
pub mod Bounded
pub mod Newest
use ip_commandmic.Prelude.{
  ℕ, ◌+◌, ◌==◌, leb, if◌then◌else◌, List, [], ◌∷◌, ◌++◌, Bytes, Bool, true, false, not, ◌&&◌,
  length, drop, replicate,
}

pub data SourceError : Type 0 where
  bad_queue_packets bad_payload_size already_started not_started : SourceError

pub data Outcome {ℓ} (A : Type ℓ) : Type ℓ where
  ok : A → Outcome A
  err : SourceError → Outcome A

-- The frames of the deque, the oldest first; the counters of `stats`.
pub record Source : Type 0 where
  pub queue_packets : ℕ
  pub frames : List Bytes
  pub started : Bool
  pub captured : ℕ
  pub delivered : ℕ
  pub overwritten : ℕ
  pub underruns : ℕ

-- `__init__`
unfoldable pub new_source : ℕ → Outcome Source
new_source queue_packets =
    if not (leb 1 queue_packets && leb queue_packets 3)
    then err bad_queue_packets
    else ok (record {
      queue_packets = queue_packets;
      frames = [];
      started = false;
      captured = 0;
      delivered = 0;
      overwritten = 0;
      underruns = 0;
    })

unfoldable pub start : Source → Source × Outcome {0} Unit
start s =
    if s.started
    then (s, err already_started)
    else (record s { frames = []; started = true }, ok tt)

-- deque.append, which drops the oldest frame of a deque that is full.
abbrev pub append_frame : ℕ → List Bytes → Bytes → List Bytes
append_frame maxlen frames payload =
    if length frames == maxlen then drop 1 frames ++ payload ∷ [] else frames ++ payload ∷ []

unfoldable pub push_payload : Source → Bytes → Source × Outcome {0} Unit
push_payload s payload =
    if not (length payload == 320)
    then (s, err bad_payload_size)
    else if not s.started
    then (s, err not_started)
    else (
      record s {
        frames = append_frame s.queue_packets s.frames payload;
        captured = s.captured + 1;
        overwritten =
            if length s.frames == s.queue_packets then s.overwritten + 1 else s.overwritten;
      },
      ok tt,
    )

-- frames[-1] of a deque that is not empty.
abbrev pub newest : Bytes → List Bytes → Bytes
newest frame [] = frame
newest frame (next ∷ frames) = newest next frames

pub deliver : Source → List Bytes → Source × Outcome Bytes
deliver s [] = (record s { underruns = s.underruns + 1 }, ok (replicate 320 0))
deliver s (frame ∷ frames) =
    (record s { frames = []; delivered = s.delivered + 1 }, ok (newest frame frames))

unfoldable pub latest_payload : Source → Source × Outcome Bytes
unfolding deliver
latest_payload s = if not s.started then (s, err not_started) else deliver s s.frames

unfoldable pub close : Source → Source
close s = record s { frames = []; started = false }
