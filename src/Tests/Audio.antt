-- ===== src/Tests/Audio.antt =====
-- The theorems on the audio queues at concrete inputs.
use ip_commandmic.Prelude.{ℕ, arith, List, ◌≡◌, refl, [], ◌∷◌, Bytes, true, false, replicate}
use ip_commandmic.Audio.Microphone.{Source, ok, new_source, push_payload, latest_payload}
use ip_commandmic.Audio.Microphone.Bounded.{
  IsSource, starting, pushing, taking, closing, after_calls, new_source-calls,
}
use ip_commandmic.Audio.Microphone.Newest.{push_payload-latest}
use ip_commandmic.Audio.Jitter.{Packet, empty_buffer}
use ip_commandmic.Audio.Jitter.Counted.{IsCounted, popping, after_calls-IsCounted}
use ip_commandmic.Audio.Jitter.Counted

abbrev tone : Bytes
tone = replicate 320 7

abbrev unused : Source
unused = record {
  queue_packets = 1;
  frames = [];
  started = false;
  captured = 0;
  delivered = 0;
  overwritten = 0;
  underruns = 0;
}

constructed : new_source 1 ≡ ok unused
unfolding new_source
constructed = refl

new_source-calls_example : IsSource (
    after_calls unused
      (starting ∷ pushing tone ∷ pushing tone ∷ pushing [] ∷ taking ∷ taking ∷ closing ∷ []))
new_source-calls_example =
    new_source-calls 1 unused
      (starting ∷ pushing tone ∷ pushing tone ∷ pushing [] ∷ taking ∷ taking ∷ closing ∷ [])
      constructed

abbrev running : Source
running = record unused { frames = replicate 320 1 ∷ []; started = true; captured = 1 }

push_payload-latest_example :
    let taken = latest_payload (push_payload running tone).0 in
    (taken.1 ≡ ok tone) × ((latest_payload taken.0).1 ≡ ok (replicate 320 0))
push_payload-latest_example = push_payload-latest running tone refl refl

abbrev packet_of : ℕ → Packet
packet_of sequence = record { session = 1; sequence = sequence; pcm_s16le = tone }

-- A packet, a gap of one, a repeat and three frames played.
abbrev calls : List Counted.Call
calls =
    Counted.pushing (packet_of 65535)
    ∷ Counted.pushing (packet_of 1)
    ∷ Counted.pushing (packet_of 1)
    ∷ popping
    ∷ popping
    ∷ popping
    ∷ []

after_calls-IsCounted_example : IsCounted (Counted.after_calls (empty_buffer 2 25) calls)
after_calls-IsCounted_example =
    after_calls-IsCounted (empty_buffer 2 25) calls
      (record { packets = omega arith; concealed = omega arith })
