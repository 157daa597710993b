-- ===== src/Emulator/Radio.antt =====
-- `_verified_radio_session` of src/ip_commandmic/emulator.py: the radio's answer to a message.
use ip_commandmic.Prelude.{
  ◌==◌, if◌then◌else◌, List, [], ◌∷◌, Bytes, Bool, true, false, not, ◌&&◌, ◌=?◌, Option, none, some,
  length,
}
use ip_commandmic.Models.{Value, flag, get, body, Message, MessageKind}
use ip_commandmic.Protocol.Classify.{mic_idle_heartbeat}
use ip_commandmic.Emulator.Actions.{Action, sends, audits, sleeps, begins_task, ◌>>=◌}
use ip_commandmic.Emulator.Frames.{
  radio_startup_ready, radio_probe_head, radio_probe_tail, radio_tx_active, radio_tx_status_active,
  radio_audio_close, radio_audio_status_closed,
}
use ip_commandmic.Emulator.Panel.{Panel, handle_verified_key}
use ip_commandmic.Emulator.Sessions.{Answer, goes_on}
use ip_commandmic.Emulator.Mic.{is_int}

-- Whether `startup_task` is set, the panel, and the recorder of the UDP protocol.
pub record RadioSession (R : Type 0) : Type 0 where
  pub startup_task : Bool
  pub panel : Panel
  pub recorder : R

-- A test on the body of a message, where the tests in front of it hold.
abbrev pub tests : Bool → Message → (Bytes → Bool) → Option Bool
tests false m holds = some false
tests true m holds = do payload ← body m; some (holds payload)

abbrev pub is_key_state : MessageKind → Bool
is_key_state MessageKind.key_state = true
is_key_state _ = false

abbrev pub is_ptt_state : MessageKind → Bool
is_ptt_state MessageKind.ptt_state = true
is_ptt_state _ = false

-- bool(message.metadata["ptt_active"]); `none` is the KeyError.
abbrev pub ptt_active_of : Option Value → Option Bool
ptt_active_of (some (flag active)) = some active
ptt_active_of _ = none

-- `capturing` is whether `_udp_protocol` is a VerifiedRadioUdpProtocol with a capture enabled, and
-- the recorder's two calls return whether they have an effect.
module _ {R : Type 0} (stable automatic_keys automatic_ptt capturing : Bool)
    (start_mic_recording release_mic_recording : R → R × Bool) where
  -- The frames that answer PTT, which the recorder has to be ready for.
  ptt_frames : Bool → Bool → List Action
  unfolding radio_tx_active radio_tx_status_active radio_audio_close radio_audio_status_closed
  ptt_frames true true =
      sleeps 8000
      ∷ sends (radio_tx_active ∷ [])
      ∷ sleeps 5500
      ∷ sends (radio_tx_status_active ∷ [])
      ∷ []
  ptt_frames false true =
      sleeps 220000
      ∷ sends (radio_audio_status_closed ∷ [])
      ∷ sleeps 1500
      ∷ sends (radio_audio_close ∷ [])
      ∷ []
  ptt_frames active false = audits "ptt_response_withheld" ∷ []

  -- A PTT state of the microphone.
  unfoldable pub on_ptt : RadioSession R → Bool → RadioSession R × List Action
  unfolding ptt_frames
  on_ptt s active =
      let done =
        if active then start_mic_recording s.recorder else release_mic_recording s.recorder in
      let s' = if capturing then record s { recorder = done.0 } else s in
      if not automatic_ptt
      then (s', (audits "ptt_response_withheld" ∷ []))
      else if capturing
      then (s', ptt_frames active done.1)
      else (s', (audits "ptt_response_withheld" ∷ []))

  -- The last branches of the chain, for a message that starts nothing.
  unfoldable pub answer_input : RadioSession R → Message → Option (RadioSession R × List Action)
  unfolding on_ptt handle_verified_key get
  answer_input s m =
      if stable && is_key_state m.kind
      then (do
        done ← handle_verified_key automatic_keys s.panel m.metadata
        some (record s { panel = done.0 }, done.1))
      else if stable && is_ptt_state m.kind
      then (do active ← ptt_active_of (get m.metadata "ptt_active"); some (on_ptt s active))
      else if m.raw =? mic_idle_heartbeat
      then some (s, (audits "received_heartbeat_response" ∷ []))
      else some (s, (audits "withheld_unknown_response" ∷ []))

  -- The identity of the microphone: the head of the probe, or the startup, the first time.
  unfoldable pub on_identity : RadioSession R → RadioSession R × List Action
  unfolding radio_probe_head
  on_identity s =
      if not stable
      then (s, (sends radio_probe_head ∷ []))
      else if s.startup_task
      then (s, [])
      else (
        record s { startup_task = true },
        (begins_task "stable_startup" ∷ begins_task "heartbeat_loop" ∷ []),
      )

  by_branch : RadioSession R → Message → Bool → Bool → Bool → Option (Answer (RadioSession R))
  unfolding on_identity answer_input radio_startup_ready radio_probe_tail
  by_branch s m true identity complete =
      goes_on s (audits "received" ∷ sends (radio_startup_ready ∷ []) ∷ [])
  by_branch s m false true complete =
      goes_on (on_identity s).0 (audits "received" ∷ (on_identity s).1)
  by_branch s m false false true = some (record {
    state = s;
    actions = audits "received" ∷ sends radio_probe_tail ∷ [];
    returns = true;
  })
  by_branch s m false false false = do
    done ← answer_input s m
    goes_on done.0 (audits "received" ∷ done.1)

  -- A message of the session.
  unfoldable pub handle_radio : RadioSession R → Message → Option (Answer (RadioSession R))
  unfolding by_branch get
  handle_radio s m =
      let of_class = is_int 0x05 (get m.metadata "message_class") in
      let command = get m.metadata "command" in
      do
        ready ← tests (of_class && is_int 0x06 command) m (λ b. b =? (0x00 ∷ []))
        identity ← tests (not ready && (of_class && is_int 0x02 command)) m (λ b. length b == 26)
        complete ←
            tests (not ready && (not identity && (not stable && (of_class && is_int 0x04 command))))
              m (λ b. b =? (0x01 ∷ []))
        by_branch s m ready identity complete
