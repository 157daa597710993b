-- ===== src/Emulator/Mic/Handled.antt =====
-- The microphone's answer to one frame from the radio.
use mathlib.Core.Path.{subst}
use ip_commandmic.Prelude.{
  ℕ, ◌<◌, ◌≡◌, refl, arith, ◌∙◌, ap, sym, List, [], ◌∷◌, ◌++◌, Bytes, IsBytes, IsBytes-append, All,
  Bool, true, false, ◌||◌, ◌=?◌, =?→eq, ◌⊎◌, inl, inr, Option, none, some, Bool-cases,
}
use ip_commandmic.Models.{radio_to_mic, Message}
use ip_commandmic.Display.State.{
  DisplayStateModel, Consumed, ignored, event, invalid_payload, consume,
}
use ip_commandmic.Display.State.Valid.{IsValid, consume-IsValid}
use ip_commandmic.Protocol.Frame.RoundTrip.{IsSendable}
use ip_commandmic.Protocol.Readings.{read_ordinary}
use ip_commandmic.Protocol.Classify.{radio_idle_heartbeat, classify_message}
use ip_commandmic.Protocol.Classify.Raw.{raw-classify_message}
use ip_commandmic.Protocol.Classify.Built.{classify-build_frame}
use ip_commandmic.Protocol.Classify.Readable.{
  IsReadable, classify_message-IsReadable, body-IsReadable,
}
use ip_commandmic.Protocol.Stuffing.{IsPlain}
use ip_commandmic.Protocol.Stream.Frames.{IsWire}
use ip_commandmic.Emulator.Actions.{Action, audits, ◌>>=◌}
use ip_commandmic.Emulator.Frames.{display_after, radio_startup_hello, radio_startup_ready}
use ip_commandmic.Emulator.Sessions.{Answer, goes_on}
use ip_commandmic.Emulator.Mic.{MicSession, answer_mic, handle_mic, take_display, is_audio_state}
use ip_commandmic.Emulator.Mic.Replies.{
  answered, answered-append, prompt_of, asks_probe, probe_after, replies, IsReply,
}
use ip_commandmic.Emulator.Mic.Answers.{answer_mic-IsReply}

-- Frames as they come from the wire.
pub record IsFrame (raw : Bytes) : Type 0 where
  pub first : ℕ
  pub others : Bytes
  pub shape : raw ≡ first ∷ others
  pub bytes : IsBytes raw

plain-IsBytes : (bs : Bytes) → All IsPlain bs → IsBytes bs
plain-IsBytes [] h = tt
plain-IsBytes (b ∷ bs) (inl less, hs) = (omega arith, plain-IsBytes bs hs)
plain-IsBytes (b ∷ bs) (inr e, hs) = (omega arith, plain-IsBytes bs hs)

start-lt : (b : ℕ) → (b ≡ 0xF3) ⊎ (b ≡ 0xF5) → b < 256
start-lt b (inl e) = omega arith
start-lt b (inr e) = omega arith

wire-IsFrame : (frame : Bytes) → IsWire frame → IsFrame frame
wire-IsFrame frame w = record {
  first = w.start_byte;
  others = 0x41 ∷ 0x71 ∷ (w.inner ++ 0xFD ∷ []);
  shape = w.shape;
  bytes = subst IsBytes (sym w.shape) (
    start-lt w.start_byte w.start,
    (
      omega arith,
      (
        omega arith,
        IsBytes-append w.inner (0xFD ∷ []) (plain-IsBytes w.inner w.plain) (omega arith, tt),
      ),
    ),
  );
}

pub wires-IsFrame : (frames : List Bytes) → All IsWire frames → All IsFrame frames
wires-IsFrame [] h = tt
wires-IsFrame (frame ∷ frames) (h, hs) = (wire-IsFrame frame h, wires-IsFrame frames hs)

after-IsSendable : IsSendable 0x02 0x08 (0x00 ∷ 0x44 ∷ []) 0xF3
after-IsSendable = record {
  start = inl refl;
  class_byte = omega arith;
  command_byte = omega arith;
  short = omega arith;
  bytes = omega arith;
}

display_after-kind : is_audio_state (classify_message display_after radio_to_mic).kind ≡ false
unfolding display_after
display_after-kind =
    ap is_audio_state (classify-build_frame after-IsSendable radio_to_mic (omega arith)).3
    ∙ unfold read_ordinary in refl

heartbeat-kind : is_audio_state (classify_message radio_idle_heartbeat radio_to_mic).kind ≡ false
unfolding classify_message
heartbeat-kind = refl

-- Neither of the two is an audio state.
no_audio :
    (raw : Bytes)
    → is_audio_state (classify_message raw radio_to_mic).kind ≡ true
    → ((raw =? display_after) ≡ false) × ((raw =? radio_idle_heartbeat) ≡ false)
no_audio raw h =
    (differs display_after display_after-kind, differs radio_idle_heartbeat heartbeat-kind)
  where
    differs :
        (other : Bytes)
        → is_audio_state (classify_message other radio_to_mic).kind ≡ false
        → (raw =? other) ≡ false
    differs other k = elim (Bool-cases (raw =? other)) [
      | inr e ↦ e
      | inl e ↦
          let same =
            ap (λ r. is_audio_state (classify_message r radio_to_mic).kind) (=?→eq raw other e) in
          absurd (never (sym k ∙ (sym same ∙ h)))
    ]
      where
        never : false ≡ true → ⊥
        never e = cc

-- One message.
abbrev pub IsAnswer : MicSession → Bool → Bytes → Option (Answer MicSession) → Type 0
IsAnswer s prompt raw none = ⊥
IsAnswer s prompt raw (some a) =
    (answered a.actions
      ≡ replies s.startup_sync_sent s.identity_sent s.probe_response_sent prompt raw)
    × (a.state.startup_sync_sent ≡ (s.startup_sync_sent || (raw =? radio_startup_hello)))
    × (a.state.identity_sent ≡ (s.identity_sent || (raw =? radio_startup_ready)))
    × (a.state.probe_response_sent
        ≡ probe_after s.startup_sync_sent s.identity_sent s.probe_response_sent prompt raw)
    × (a.returns ≡ false)

module _ (stable has_udp : Bool) where
  logged :
      (s : MicSession) (prompt : Bool) (raw : Bytes) (earlier : List Action)
      (o : Option (MicSession × List Action))
      → answered earlier ≡ []
      → IsReply s prompt raw o
      → IsAnswer s prompt raw (o >>= λ done. goes_on done.0 (earlier ++ done.1))
  logged s prompt raw earlier none e h = h
  logged s prompt raw earlier (some done) e h =
      (answered-append earlier done.1 ∙ rw e h.0, h.1, h.2, h.3, refl)

  -- The tracker first, then the answer.
  tracked-then :
      (s : MicSession) (m : Message) (c : DisplayStateModel × Consumed)
      → IsValid c.1
      → ((d : DisplayStateModel)
          → IsReply s
              (prompt_of m)
              m.raw
              (answer_mic stable has_udp (record s { display_state = d }) m))
      → IsAnswer s (prompt_of m) m.raw (
          take_display stable has_udp s c >>= λ l.
          answer_mic stable has_udp l.0 m >>= λ done. goes_on done.0 (l.1 ++ done.1))
  unfolding take_display
  tracked-then s m (d, ignored) v h =
      logged (record s { display_state = d }) (prompt_of m) m.raw (audits "received" ∷ [])
        (answer_mic stable has_udp (record s { display_state = d }) m) refl (h d)
  tracked-then s m (d, event e) v h =
      logged (record s { display_state = d }) (prompt_of m) m.raw
        (audits "received" ∷ audits "display_event" ∷ [])
        (answer_mic stable has_udp (record s { display_state = d }) m) refl (h d)
  tracked-then s m (d, invalid_payload) v h = elim v [ ]

  -- A frame is answered, whatever it holds.
  pub handle_mic-IsAnswer :
      (s : MicSession) (raw : Bytes)
      → IsFrame raw
      → IsAnswer s
          (asks_probe raw)
          raw
          (handle_mic stable has_udp s (classify_message raw radio_to_mic))
  unfolding handle_mic
  handle_mic-IsAnswer s raw f =
      let m = classify_message raw radio_to_mic in
      let same : m.raw ≡ raw = raw-classify_message raw radio_to_mic in
      let readable : IsReadable m = classify_message-IsReadable raw radio_to_mic f.bytes in
      let payload = body-IsReadable m readable in
      subst
        (λ r. IsAnswer s (prompt_of m) r (
          take_display stable has_udp s (consume s.display_state m) >>= λ l.
          answer_mic stable has_udp l.0 m >>= λ done. goes_on done.0 (l.1 ++ done.1)))
        same
        (tracked-then s m (consume s.display_state m) (consume-IsValid s.display_state m readable)
          (λ d.
            answer_mic-IsReply stable has_udp (record s { display_state = d }) m f.first f.others
              (same ∙ f.shape) payload.0 payload.1
              (λ h.
                let quiet = no_audio raw h in
                (
                  ap (λ r. r =? display_after) same ∙ quiet.0,
                  ap (λ r. r =? radio_idle_heartbeat) same ∙ quiet.1,
                ))))
