-- ===== src/Emulator/Udp/Pacing.antt =====
-- The pacing of the RTP senders.
use ip_commandmic.Prelude.{ℕ, ◌+◌, ◌≤◌, arith, List, [], ◌∷◌}
use ip_commandmic.Emulator.Udp.{
  RtpSender, next_sender, next_deadline, SentPacket, Timed, send_audio_payloads,
}

-- The first packet is sent no earlier than a time.
abbrev pub NotBefore : ℕ → List SentPacket → Type 0
NotBefore deadline [] = Unit {0}
NotBefore deadline (p ∷ ps) = deadline ≤ p.sent_at

-- Between a packet and the next one pass 18 ms at least.
abbrev pub Paced : List SentPacket → Type 0
Paced [] = Unit {0}
Paced (p ∷ ps) = NotBefore (p.sent_at + 18000) ps × Paced ps

next_deadline-late :
    (deadline late : ℕ) → deadline + late + 18000 ≤ next_deadline deadline (deadline + late)
unfolding next_deadline
next_deadline-late deadline late = ground arith

NotBefore-sooner : (a b : ℕ) (ps : List SentPacket) → a ≤ b → NotBefore b ps → NotBefore a ps
NotBefore-sooner a b [] h k = tt
NotBefore-sooner a b (p ∷ ps) h k = omega arith

starts :
    (s : RtpSender) (deadline : ℕ) (payloads : List Timed)
    → NotBefore deadline (send_audio_payloads s deadline payloads).1
starts s deadline [] = unfold send_audio_payloads in tt
starts s deadline ((payload, late) ∷ payloads) = unfold send_audio_payloads in omega arith

paced :
    (s : RtpSender) (deadline : ℕ) (ps : List Timed) → Paced (send_audio_payloads s deadline ps).1
unfolding send_audio_payloads
paced s d [] = tt
paced s d ((payload, late) ∷ ps) = (
  NotBefore-sooner (d + late + 18000) (next_deadline d (d + late)) _ (next_deadline-late d late)
      (starts (next_sender s) (next_deadline d (d + late)) ps),
  paced (next_sender s) (next_deadline d (d + late)) ps,
)

-- However late each packet is sent, no burst follows: the audio of the radio starts no earlier than
-- its deadline, and between a packet and the next one pass 18 ms at least.
pub send_audio_payloads-Paced :
    (s : RtpSender) (deadline : ℕ) (payloads : List Timed)
    → NotBefore deadline (send_audio_payloads s deadline payloads).1
      × Paced (send_audio_payloads s deadline payloads).1
send_audio_payloads-Paced s deadline payloads =
    (starts s deadline payloads, paced s deadline payloads)
