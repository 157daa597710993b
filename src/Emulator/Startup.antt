-- ===== src/Emulator/Startup.antt =====
-- `_stable_startup` of src/ip_commandmic/emulator.py, with `_run_key_beep` and `_run_receive_audio`.
-- `udp_ready` is whether `_udp_protocol` is set.
pub mod Sent
pub mod Order
pub mod Heard
use ip_commandmic.Prelude.{
  ℕ, ◌*◌, if◌then◌else◌, List, [], ◌∷◌, ◌++◌, Text, codes, Bool, true, false, Option, none, some,
  replicate,
}
use ip_commandmic.Emulator.Actions.{
  Action, sends, audits, sleeps, plays, ◌>>=◌, display_frames, send_display,
}
use ip_commandmic.Emulator.Frames.{
  radio_stable_sync, radio_status_carousel, radio_audio_open, radio_audio_close,
  radio_audio_status_open, radio_audio_status_closed, display_suffix,
}
use ip_commandmic.Emulator.Config.{EmulatorConfig}
use ip_commandmic.Emulator.Guards.{named, text_or}
use ip_commandmic.Emulator.Panel.{Panel, current_channel_text}
use ip_commandmic.Emulator.Scans.{
  run_display_offset56_test, run_display_offset56_low_bit_test,
  run_display_offset56_rssi_ladder_test, run_display_offset56_remaining_bits_test,
  run_display_offset57_bit_scan, run_display_offset58_bit_scan, run_display_offset59_bit_scan,
  run_display_offset59_low_all_visible_test, run_display_offset60_bit_scan_all_visible,
  run_display_offset61_bit_scan_all_visible, run_display_offset62_bit_scan_all_visible,
  run_display_offset63_bit_scan_all_visible, run_display_offset64_bit_scan_all_visible,
  run_display_offset65_bit_scan_all_visible, run_display_offset66_bit_scan_all_visible,
  run_display_offset67_bit_scan_all_visible, run_display_offsets8_33_observed_probe,
  run_display_character_blink_position_scan, run_display_character_attribute_bit_scan,
  run_status_led_observed_scan, run_backlight_timeout_wake_test,
}

-- A diagnostic with the setting that asks for it.
abbrev pub Diagnostic : Type 0
Diagnostic = Bool × Option (List Action)

-- The first diagnostic that is asked for, a second after the display; or what follows.
unfoldable pub first_diagnostic : Option (List Action) → List Diagnostic → Option (List Action)
first_diagnostic otherwise [] = otherwise
first_diagnostic otherwise ((asked, run) ∷ diagnostics) =
    let later = first_diagnostic otherwise diagnostics in
    if asked then (do actions ← run; some (sleeps 1000000 ∷ actions)) else later

-- What is played while the gate is open: nothing for `rx_open_only_seconds`, or the given file.
received_audio : Option ℕ → Bool → List Action
received_audio (some seconds) wav =
    audits "rx_audio_open_only_started"
    ∷ sleeps (seconds * 1000)
    ∷ audits "rx_audio_open_only_completed"
    ∷ []
received_audio none wav = if wav then plays "wav" ∷ [] else plays "tone" ∷ []

-- A text that is given, or that of the channel.
unfoldable pub text_or_channel : Panel → Option Text → Option Text
unfolding current_channel_text
text_or_channel panel none = current_channel_text panel
text_or_channel panel (some shown) = some shown

module _ (udp_ready : Bool) (config : EmulatorConfig) (panel : Panel) where
  unfoldable pub run_key_beep : List Action
  unfolding radio_audio_open radio_audio_close
  run_key_beep =
      if udp_ready
      then sends (radio_audio_open ∷ [])
        ∷ sleeps 10000
        ∷ plays "key_beep"
        ∷ sleeps 8000
        ∷ sends (radio_audio_close ∷ [])
        ∷ []
      else audits "key_beep_withheld" ∷ []

  unfoldable pub run_receive_audio : Option (List Action)
  unfolding received_audio display_frames radio_audio_open radio_audio_close radio_audio_status_open
      radio_audio_status_closed
  run_receive_audio =
      if udp_ready
      then (do
        frames ← display_frames (text_or config.startup_idle_text) display_suffix
        some (
            sends (radio_audio_open ∷ [])
            ∷ sends frames
            ∷ sends (radio_audio_status_open ∷ [])
            ∷ sleeps 10000
            ∷ (received_audio config.rx_open_only_seconds (named config.rx_wav)
                ++ (sleeps 8000
                    ∷ sends (radio_audio_close ∷ radio_audio_status_closed ∷ [])
                    ∷ []))))
      else some (audits "rx_audio_withheld" ∷ [])

  -- The last steps of the startup, where no diagnostic is asked for.
  unfoldable pub after_startup : Option (List Action)
  unfolding run_receive_audio run_key_beep
  after_startup =
      if config.enable_rx_audio
      then run_receive_audio
      else if named config.key_beep
      then some run_key_beep
      else some (audits "startup_complete" ∷ [])

  unfoldable pub diagnostics : List Diagnostic
  unfolding run_display_offset56_test run_display_offset56_low_bit_test
      run_display_offset56_rssi_ladder_test run_display_offset56_remaining_bits_test
      run_display_offset57_bit_scan run_display_offset58_bit_scan run_display_offset59_bit_scan
      run_display_offset59_low_all_visible_test run_display_offset60_bit_scan_all_visible
      run_display_offset61_bit_scan_all_visible run_display_offset62_bit_scan_all_visible
      run_display_offset63_bit_scan_all_visible run_display_offset64_bit_scan_all_visible
      run_display_offset65_bit_scan_all_visible run_display_offset66_bit_scan_all_visible
      run_display_offset67_bit_scan_all_visible run_display_offsets8_33_observed_probe
      run_display_character_blink_position_scan run_display_character_attribute_bit_scan
      run_status_led_observed_scan run_backlight_timeout_wake_test
  diagnostics =
      (config.display_offset56_test, run_display_offset56_test config panel)
      ∷ (config.display_offset56_low_bit_test, run_display_offset56_low_bit_test config panel)
      ∷ (
        config.display_offset56_rssi_ladder_test,
        run_display_offset56_rssi_ladder_test config panel,
      )
      ∷ (
        config.display_offset56_remaining_bits_test,
        run_display_offset56_remaining_bits_test config panel,
      )
      ∷ (config.display_offset57_bit_scan, run_display_offset57_bit_scan config panel)
      ∷ (config.display_offset58_bit_scan, run_display_offset58_bit_scan config panel)
      ∷ (config.display_offset59_bit_scan, run_display_offset59_bit_scan config panel)
      ∷ (
        config.display_offset59_low_all_visible_test,
        run_display_offset59_low_all_visible_test config panel,
      )
      ∷ (
        config.display_offset60_bit_scan_all_visible,
        run_display_offset60_bit_scan_all_visible config panel,
      )
      ∷ (
        config.display_offset61_bit_scan_all_visible,
        run_display_offset61_bit_scan_all_visible config panel,
      )
      ∷ (
        config.display_offset62_bit_scan_all_visible,
        run_display_offset62_bit_scan_all_visible config panel,
      )
      ∷ (
        config.display_offset63_bit_scan_all_visible,
        run_display_offset63_bit_scan_all_visible config panel,
      )
      ∷ (
        config.display_offset64_bit_scan_all_visible,
        run_display_offset64_bit_scan_all_visible config panel,
      )
      ∷ (
        config.display_offset65_bit_scan_all_visible,
        run_display_offset65_bit_scan_all_visible config panel,
      )
      ∷ (
        config.display_offset66_bit_scan_all_visible,
        run_display_offset66_bit_scan_all_visible config panel,
      )
      ∷ (
        config.display_offset67_bit_scan_all_visible,
        run_display_offset67_bit_scan_all_visible config panel,
      )
      ∷ (
        config.display_offsets8_33_observed_probe,
        run_display_offsets8_33_observed_probe config panel,
      )
      ∷ (
        config.display_character_blink_position_scan,
        run_display_character_blink_position_scan config panel,
      )
      ∷ (
        config.display_character_attribute_bit_scan,
        run_display_character_attribute_bit_scan config panel,
      )
      ∷ (config.status_led_observed_scan, run_status_led_observed_scan config panel)
      ∷ (config.backlight_timeout_wake_test, run_backlight_timeout_wake_test config panel)
      ∷ []

  unfoldable pub carousel : List Action
  unfolding radio_status_carousel
  carousel =
      if config.startup_status_carousel
      then sends radio_status_carousel ∷ sleeps 1000000 ∷ []
      else []

  unfoldable pub stable_startup : Option (List Action)
  unfolding text_or_channel carousel first_diagnostic diagnostics after_startup radio_stable_sync
      display_frames
  stable_startup = do
    sync ←
        radio_stable_sync config.mic_gain config.experimental_mic_gain_companion
          config.backlight_state
    opening ← display_frames config.startup_opening_text (replicate 60 0)
    shown ← text_or_channel panel config.startup_idle_text
    idle ← display_frames shown display_suffix
    later ← first_diagnostic after_startup diagnostics
    some (sends sync ∷ sends opening ∷ sleeps 110000 ∷ (carousel ++ (sends idle ∷ later)))
