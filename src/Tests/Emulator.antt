-- ===== src/Tests/Emulator.antt =====
-- The theorems about the emulated endpoints at concrete inputs.
use ip_commandmic.Prelude.{
  ◌≡◌, refl, arith, ◌≤◌, List, [], ◌∷◌, Bytes, Text, codes, All, Bool, true, false, ◌&&◌, none,
  some, replicate, ◌++◌, inr,
}
use ip_commandmic.Errors.{ok}
use ip_commandmic.Models.{radio_to_mic, Metadata, str, chars, get}
use ip_commandmic.Display.State.{initial}
use ip_commandmic.Protocol.Stream.Frames.{IsWire}
use ip_commandmic.Emulator.Actions.{sends, sleeps, audits}
use ip_commandmic.Emulator.Actions.Wire.{all_bytes}
use ip_commandmic.Emulator.Frames.{
  radio_startup_hello, radio_startup_ready, display_after, mic_startup_sync, mic_identity,
  mic_probe_response, mic_display_ack, built, radio_boot_rtp, radio_rtp_ssrc,
}
use ip_commandmic.Emulator.Frames.Wire.{byte-IsWire, built-IsWire}
use ip_commandmic.Emulator.Config.{EmulatorConfig, default_config}
use ip_commandmic.Emulator.Guards.{
  config_error, first_error, role_guards, receive_guards, beep_guards, recording_guards,
  display_guards, key_guards, tx_guards, display_test_count, verified_radio, listening_mic,
  some_key,
}
use ip_commandmic.Emulator.Guards.Accepted.{
  guarded_radio, guarded_mic, config_error-roles, config_error-transmitter,
}
use ip_commandmic.Emulator.Panel.{fresh_panel, handle_verified_key}
use ip_commandmic.Emulator.Panel.Shown.{IsPanel, IsHandled, handle_verified_key-IsHandled}
use ip_commandmic.Emulator.Transmit.{PttCall, presses, releases, ends_session, idle_transmit}
use ip_commandmic.Emulator.Sessions.{Answer, run_reads}
use ip_commandmic.Emulator.Mic.{MicSession, new_mic_session, handle_mic}
use ip_commandmic.Emulator.Mic.Replies.{answered, all_replies}
use ip_commandmic.Emulator.Mic.Streams.{reads_of, frames_of, replies_of, run_reads-IsSession}
use ip_commandmic.Emulator.Mic.Split.{in_two, in_two-AreCuts}
use ip_commandmic.Checksum.{crc16}
use ip_commandmic.Protocol.Stuffing.{stuff_bytes, unstuff_bytes}
use ip_commandmic.Protocol.Frame.{frame_of, crc16_commandmic, decode_wire_frame, from_bytes_big}
use ip_commandmic.Protocol.Stream.Sequence.{frame_of-IsWire}
use ip_commandmic.Protocol.Classify.{classify_message}
use ip_commandmic.Controls.{key_wire_value}
use ip_commandmic.Emulator.Keys.{press_interactive_key, release_interactive_key}
use ip_commandmic.Emulator.Keys.Held.{press-release}
use ip_commandmic.Emulator.Udp.{
  rtp_packet, RtpSender, Timed, MicRecorder, new_recorder, send_audio_payloads,
  send_transmit_stream, start_mic_recording,
}
use ip_commandmic.Emulator.Udp.Gate.{
  RadioCall, boots, receives, sets_gate, closes, new_capture, radio_calls,
}
use ip_commandmic.Emulator.Udp.Packets.{IsSender}
use ip_commandmic.Emulator.Udp.Pacing.{NotBefore, Paced, send_audio_payloads-Paced}
use ip_commandmic.Emulator.Udp.Recorded.{receive_all, send_transmit_stream-recorded}

-- A press that is acknowledged, its release, one that is not acknowledged, one whose connection
-- closes before its release, another on the next connection, and the end.
abbrev ptt_calls : List PttCall
ptt_calls =
    presses true true true true true true true
    ∷ releases true true
    ∷ presses true true true true false true true
    ∷ presses true true true true true true true
    ∷ releases false true
    ∷ presses true true true true true true true
    ∷ ends_session true
    ∷ []

fresh-IsPanel : IsPanel fresh_panel
fresh-IsPanel = record { channel = omega arith; zone = omega arith; volume = omega arith }

abbrev press_up : Metadata
press_up = ("key_action", str "press") ∷ ("key_button", chars (codes "up")) ∷ []

handle_verified_key-IsHandled_example : IsHandled (handle_verified_key true fresh_panel press_up)
handle_verified_key-IsHandled_example =
    handle_verified_key-IsHandled fresh_panel fresh-IsPanel true press_up

abbrev no_file : Text → Bool
no_file name = false

-- A radio that plays a tone, and a microphone that transmits one.
abbrev radio_config : EmulatorConfig
radio_config = record (default_config (codes "radio") (codes "10.0.0.1") (codes "10.0.0.2")) {
  verified_startup = true;
  enable_rx_audio = true;
  startup_idle_text = none;
}

abbrev mic_config : EmulatorConfig
mic_config = record (default_config (codes "mic") (codes "10.0.0.2") (codes "10.0.0.1")) {
  verified_startup = true;
  listen = true;
  enable_tx = true;
}

radio-accepted : config_error no_file no_file radio_config ≡ none
unfolding config_error first_error role_guards receive_guards beep_guards recording_guards
    display_guards key_guards tx_guards display_test_count
radio-accepted = refl

mic-accepted : config_error no_file no_file mic_config ≡ none
unfolding config_error first_error role_guards receive_guards beep_guards recording_guards
    display_guards key_guards tx_guards display_test_count
mic-accepted = refl

config_error-roles_example :
    (guarded_radio no_file no_file radio_config ≡ true
      → verified_radio no_file no_file radio_config ≡ true)
    × (guarded_mic no_file no_file radio_config ≡ true
        → listening_mic no_file no_file radio_config ≡ true)
    × ((guarded_radio no_file no_file radio_config && guarded_mic no_file no_file radio_config)
        ≡ false)
config_error-roles_example = config_error-roles no_file no_file radio_config radio-accepted

config_error-transmitter_example :
    (listening_mic no_file no_file mic_config ≡ true)
    × ((mic_config.enable_tx && mic_config.interactive_tx) ≡ false)
    × ((mic_config.enable_tx && some_key mic_config.mic_key_script) ≡ false)
    × (500 ≤ mic_config.tx_hold_seconds)
    × (mic_config.tx_hold_seconds ≤ 30000)
config_error-transmitter_example =
    config_error-transmitter no_file no_file mic_config mic-accepted refl

abbrev new_session : MicSession
new_session = new_mic_session initial idle_transmit

-- A prompt of the special framing.
abbrev special_prompt : Bytes
special_prompt = frame_of 0x05 0x03 (0x02 ∷ []) 0xF5

special_prompt-IsWire : IsWire special_prompt
special_prompt-IsWire = frame_of-IsWire (record {
  start = inr refl;
  class_byte = omega arith;
  command_byte = omega arith;
  short = omega arith;
  bytes = omega arith;
})

-- A hello, a readiness, a prompt and the end of a display.
abbrev radio_frames : List Bytes
radio_frames = radio_startup_hello ∷ radio_startup_ready ∷ special_prompt ∷ display_after ∷ []

radio_frames-IsWire : All IsWire radio_frames
unfolding radio_startup_hello radio_startup_ready display_after all_bytes
radio_frames-IsWire = (
  byte-IsWire 0x05 0x05 0x01 (omega arith) (omega arith) (omega arith),
  (
    byte-IsWire 0x05 0x01 0x01 (omega arith) (omega arith) (omega arith),
    (special_prompt-IsWire, (built-IsWire 0x02 0x08 (0x00 ∷ 0x44 ∷ []) refl, tt)),
  ),
)

run_reads-IsSession_example :
    (a : Answer MicSession) × (run_reads
        (handle_mic true true)
        radio_to_mic
        new_session
        []
        (reads_of (in_two radio_frames))
      ≡ some a)
    × (answered a.actions ≡ replies_of new_session (frames_of (in_two radio_frames)))
    × (a.returns ≡ false)
run_reads-IsSession_example =
    run_reads-IsSession true true new_session (in_two radio_frames)
      (in_two-AreCuts radio_frames radio_frames-IsWire)

-- What the specification lists for these frames.
radio_frames_replies :
    replies_of new_session radio_frames
    ≡ mic_startup_sync ++ (mic_identity ∷ (mic_probe_response ++ (mic_display_ack ∷ [])))
unfolding all_replies classify_message stuff_bytes crc16_commandmic crc16 decode_wire_frame
    unstuff_bytes get from_bytes_big
radio_frames_replies = refl

-- The last numbers before both fields wrap around.
abbrev last_numbers : RtpSender
last_numbers = record { sequence = 65535; timestamp = 4294967200 }

last-IsSender : IsSender last_numbers
last-IsSender = record { sequence = omega arith; timestamp = omega arith }

-- Two payloads, the first of them 5 ms late.
abbrev two_payloads : List Timed
two_payloads = (replicate 320 7, 5000) ∷ (replicate 320 9, 0) ∷ []

send_audio_payloads-Paced_example :
    NotBefore 0 (send_audio_payloads last_numbers 0 two_payloads).1
    × Paced (send_audio_payloads last_numbers 0 two_payloads).1
send_audio_payloads-Paced_example = send_audio_payloads-Paced last_numbers 0 two_payloads

abbrev started_recorder : MicRecorder
started_recorder = (start_mic_recording true false 10 false new_recorder).0

send_transmit_stream-recorded_example :
    ((send_transmit_stream last_numbers 0 two_payloads).2 ≡ true)
    × (let heard =
          receive_all true false 10 false
            (send_transmit_stream last_numbers 0 two_payloads).1
            started_recorder in
        (heard.sequence_errors ≡ 0)
        × (heard.timestamp_errors ≡ 0)
        × (heard.packet_count ≡ 2)
        × (heard.payloads ≡ replicate 320 7 ∷ replicate 320 9 ∷ [])
        × (heard.heard ≡ started_recorder.heard))
send_transmit_stream-recorded_example =
    send_transmit_stream-recorded true false 10 false last_numbers 0 two_payloads new_recorder
      last-IsSender (refl, (refl, tt)) (omega arith) (unfold start_mic_recording in refl)

up_pressed : key_wire_value (some (codes "up")) (codes "press") false ≡ ok 0x20
up_pressed = unfold key_wire_value in refl

press-release_example :
    (press_interactive_key true (codes "up") false none ≡ (
      some (codes "up"),
      (sends (built 0x01 0x01 (0x20 ∷ []) ∷ []) ∷ audits "mic_key_asserted" ∷ []),
      none,
    ))
    × (release_interactive_key true [] false (some (codes "up")) ≡ (
      none,
      (sends (built 0x01 0x01 (0xA0 ∷ []) ∷ [])
          ∷ sleeps 2000
          ∷ sends (built 0x01 0x01 (0x7F ∷ []) ∷ [])
          ∷ audits "mic_key_released"
          ∷ []),
      none,
    ))
press-release_example = press-release (codes "up") false 0x20 up_pressed []

-- The boot packets, the gate opened, one packet of the radio, and the gate closed.
abbrev radio_session_calls : List RadioCall
radio_session_calls =
    boots true
    ∷ receives true radio_boot_rtp
    ∷ sets_gate true
    ∷ receives true (rtp_packet radio_rtp_ssrc last_numbers (replicate 320 7))
    ∷ sets_gate false
    ∷ closes
    ∷ []

-- The packet is kept, and the file is written.
radio_session_kept :
    (radio_calls true true true 10 false radio_session_calls new_capture).written
    ≡ some (replicate 320 7)
unfolding radio_calls
radio_session_kept = refl
