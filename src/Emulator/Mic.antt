-- ===== src/Emulator/Mic.antt =====
-- `_verified_mic_session` of src/ip_commandmic/emulator.py: the microphone's answer to a message.
pub mod Replies
pub mod Quiet
pub mod Answers
pub mod Handled
pub mod Streams
pub mod Split
use ip_commandmic.Prelude.{
  ℕ, ◌+◌, ◌==◌, leb, if◌then◌else◌, List, [], ◌∷◌, ◌++◌, Bytes, Bool, true, false, not, ◌&&◌, ◌||◌,
  ◌=?◌, Option, none, some, codes,
}
use Prim.Native.String.{String}
use ip_commandmic.Models.{Value, int, chars, str, get, body, Message, MessageKind, Metadata}
use text.Mathlib.Text.{◌==◌ as str_eq}
use ip_commandmic.Protocol.Classify.{radio_idle_heartbeat, mic_idle_heartbeat}
use ip_commandmic.Display.State.{
  DisplayStateModel, Consumed, ignored, event, invalid_payload, consume, initial,
}
use ip_commandmic.Emulator.Actions.{
  Action, sends, audits, sleeps, begins_task, cancels_task, sets_gate, sends_boot, ◌>>=◌,
}
use ip_commandmic.Emulator.Frames.{
  radio_startup_hello, radio_startup_ready, mic_startup_sync, mic_identity, mic_display_ack,
  mic_probe_response, display_after,
}
use ip_commandmic.Emulator.Sessions.{Answer, goes_on}
use ip_commandmic.Emulator.Transmit.{Transmit}

-- The flags of a session, whether `_mic_ready_task` is set, the tracker and the transmission state.
pub record MicSession : Type 0 where
  pub startup_sync_sent : Bool
  pub identity_sent : Bool
  pub probe_response_sent : Bool
  pub stable_display_count : ℕ
  pub ready_task : Bool
  pub display_state : DisplayStateModel
  pub transmit : Transmit

abbrev pub new_mic_session : DisplayStateModel → Transmit → MicSession
new_mic_session display transmit = record {
  startup_sync_sent = false;
  identity_sent = false;
  probe_response_sent = false;
  stable_display_count = 0;
  ready_task = false;
  display_state = display;
  transmit = transmit;
}

-- value == n, for a value of the metadata
abbrev pub is_int : ℕ → Option Value → Bool
is_int n (some (int k)) = k == n
is_int n _ = false

abbrev pub is_str : String → Option Value → Bool
is_str s (some (str t)) = str_eq t s
is_str s _ = false

-- message.raw[0] == 0xF5; `none` is its IndexError.
abbrev pub starts_special : Bytes → Option Bool
starts_special [] = none
starts_special (b ∷ bs) = some (b == 0xF5)

abbrev pub is_audio_state : MessageKind → Bool
is_audio_state MessageKind.audio_state = true
is_audio_state _ = false

-- The text of a transition does not depend on more than the body.
abbrev pub transition : Bytes → String
transition payload =
    if payload =? (0x02 ∷ [])
    then "shutdown"
    else if payload =? (0x01 ∷ [])
    then "wake"
    else "unknown"

-- `stable` is the kind of the session, and `has_udp` whether `_udp_protocol` is a
-- VerifiedMicUdpProtocol.
module _ (stable has_udp : Bool) where
  -- The audio state that the radio announces.
  pub on_audio_state : MicSession → Option Value → MicSession × List Action
  on_audio_state s audio_state =
      if is_str "receive_open" audio_state
      then (s, (sets_gate true ∷ []))
      else if is_str "transmit_active" audio_state
      then (
        record s { transmit = record s.transmit { tx_active = true } },
        (audits "accepted_verified_tx_active" ∷ []),
      )
      else if is_str "closed" audio_state
      then (
        (if s.transmit.ptt_asserted || s.transmit.tx_active
            then record s { transmit = record s.transmit { tx_closed = true } }
            else s),
        (sleeps 150000 ∷ sets_gate false ∷ []),
      )
      else (s, [])

  -- The steps behind the acknowledgement of a display, in a stable session.
  pub on_display : MicSession → MicSession × List Action
  on_display s =
      let s' = record s { stable_display_count = s.stable_display_count + 1 } in
      if not stable
      then (s, [])
      else if s'.stable_display_count == 1
      then (record s' { ready_task = true }, (begins_task "mic_ready" ∷ []))
      else (
        record s' { ready_task = false },
        ((if s'.ready_task then cancels_task "mic_ready" ∷ [] else [])
            ++ (begins_task "mic_controls" ∷ [])),
      )

  -- The branches behind the power prompt.
  unfoldable pub answer_state : MicSession → Message → MicSession × List Action
  unfolding on_audio_state on_display display_after mic_display_ack get
  answer_state s m =
      let heard = on_audio_state s (get m.metadata "audio_state") in
      let shown = on_display s in
      if has_udp && is_audio_state m.kind
      then (heard.0, (heard.1 ++ (audits "accepted_verified_radio_audio_state" ∷ [])))
      else if m.raw =? display_after
      then (shown.0, (sends (mic_display_ack ∷ []) ∷ shown.1))
      else if m.raw =? radio_idle_heartbeat
      then (s, (sends (mic_idle_heartbeat ∷ []) ∷ []))
      else (s, (audits "accepted_verified_radio_state" ∷ []))

  -- The answer to a prompt of the special framing, the first time.
  on_prompt : MicSession → Message → Option (MicSession × List Action)
  unfolding body
  on_prompt s m = do
    payload ← body m
    some (
      record s { probe_response_sent = true },
      (audits (transition payload) ∷ begins_task "mic_probe_response" ∷ []),
    )

  -- Whether a message is such a prompt.
  unfoldable pub is_prompt : Message → Option Bool
  unfolding get
  is_prompt m = do
    special ← starts_special m.raw
    some (
        special
        && (is_int 0x05 (get m.metadata "message_class") && is_int 0x03 (get m.metadata "command")))

  prompted : MicSession → Message → Bool → Option (MicSession × List Action)
  unfolding on_prompt answer_state
  prompted s m prompt =
      if prompt && not s.probe_response_sent then on_prompt s m else some (answer_state s m)

  -- The chain of branches of a message.
  unfoldable pub answer_mic : MicSession → Message → Option (MicSession × List Action)
  unfolding prompted is_prompt radio_startup_hello radio_startup_ready mic_startup_sync mic_identity
  answer_mic s m =
      if (m.raw =? radio_startup_hello) && not s.startup_sync_sent
      then some (record s { startup_sync_sent = true }, (sends mic_startup_sync ∷ []))
      else if (m.raw =? radio_startup_ready) && not s.identity_sent
      then some (
        record s { identity_sent = true },
        ((if has_udp then sends_boot ∷ [] else []) ++ (sends (mic_identity ∷ []) ∷ [])),
      )
      else (do prompt ← is_prompt m; prompted s m prompt)

  -- The tracker's part, with the entries of the log.
  take_display : MicSession → DisplayStateModel × Consumed → Option (MicSession × List Action)
  take_display s (d, ignored) = some (record s { display_state = d }, (audits "received" ∷ []))
  take_display s (d, event e) =
      some (record s { display_state = d }, (audits "received" ∷ audits "display_event" ∷ []))
  take_display s (d, invalid_payload) = none

  -- A message of the session.
  unfoldable pub handle_mic : MicSession → Message → Option (Answer MicSession)
  unfolding take_display answer_mic consume
  handle_mic s m = do
    logged ← take_display s (consume s.display_state m)
    done ← answer_mic logged.0 m
    goes_on done.0 (logged.1 ++ done.1)

-- `_mic_probe_response_after_special_prompt`, while the connection is there.
unfoldable pub mic_probe_response_after_special_prompt : Bool → List Action
unfolding mic_probe_response
mic_probe_response_after_special_prompt closing =
    sleeps 5000 ∷ (if closing then [] else sends mic_probe_response ∷ [])
