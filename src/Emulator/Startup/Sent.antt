-- ===== src/Emulator/Startup/Sent.antt =====
-- `_stable_startup` raises nothing and sends frames only.
use ip_commandmic.Prelude.{
  ℕ, ◌≡◌, refl, arith, if◌then◌else◌, List, [], ◌∷◌, ◌++◌, Text, All, Bool, true, false, Option,
  none, some, replicate, Bool-cases, inl, inr,
}
use ip_commandmic.Protocol.Stream.Frames.{IsWire}
use ip_commandmic.Emulator.Actions.{Action, sends, sleeps, plays, audits, sent, display_frames}
use ip_commandmic.Emulator.Actions.Wire.{
  IsSent, IsText, IsTail, IsSent-append, with_frames, with_actions, with_text,
  display_frames-IsFramed, all_bytes, all_bytes→IsBytes, All-append,
}
use ip_commandmic.Emulator.Frames.{
  display_suffix, radio_stable_sync, radio_status_carousel, radio_audio_open, radio_audio_close,
  radio_audio_status_closed,
}
use ip_commandmic.Emulator.Frames.Wire.{
  radio_stable_sync-IsFramed, radio_status_carousel-IsWire, audio_frames-IsWire,
}
use ip_commandmic.Emulator.Config.{EmulatorConfig}
use ip_commandmic.Emulator.Guards.{config_error, named, text_or}
use ip_commandmic.Emulator.Guards.Accepted.{config_error-sync}
use ip_commandmic.Emulator.Panel.{Panel}
use ip_commandmic.Emulator.Panel.Shown.{IsPanel, current_channel_text-IsText, suffix-IsTail}
use ip_commandmic.Emulator.Startup.{
  Diagnostic, first_diagnostic, run_key_beep, received_audio, run_receive_audio, after_startup,
  diagnostics, text_or_channel, carousel, stable_startup,
}
use ip_commandmic.Emulator.Scans.Runs.{
  run_display_offset56_test-IsSent, run_display_offset56_low_bit_test-IsSent,
  run_display_offset56_rssi_ladder_test-IsSent, run_display_offset56_remaining_bits_test-IsSent,
  run_display_offset57_bit_scan-IsSent, run_display_offset58_bit_scan-IsSent,
  run_display_offset59_bit_scan-IsSent, run_display_offset59_low_all_visible_test-IsSent,
  run_display_offset60_bit_scan_all_visible-IsSent,
  run_display_offset61_bit_scan_all_visible-IsSent,
  run_display_offset62_bit_scan_all_visible-IsSent,
  run_display_offset63_bit_scan_all_visible-IsSent,
  run_display_offset64_bit_scan_all_visible-IsSent,
  run_display_offset65_bit_scan_all_visible-IsSent,
  run_display_offset66_bit_scan_all_visible-IsSent,
  run_display_offset67_bit_scan_all_visible-IsSent, run_display_offsets8_33_observed_probe-IsSent,
  run_display_character_blink_position_scan-IsSent, run_display_character_attribute_bit_scan-IsSent,
  run_status_led_observed_scan-IsSent, run_backlight_timeout_wake_test-IsSent,
}

-- A text to show in place of the channel, where one is given.
abbrev pub IsShownText : Option Text → Type 0
IsShownText none = Unit {0}
IsShownText (some t) = IsText (some t)

pub first_diagnostic-IsSent :
    (otherwise : Option (List Action)) (ds : List Diagnostic)
    → IsSent otherwise
    → All (λ d. IsSent d.1) ds
    → IsSent (first_diagnostic otherwise ds)
unfolding first_diagnostic
first_diagnostic-IsSent otherwise [] h k = h
first_diagnostic-IsSent otherwise ((true, run) ∷ ds) h (k, ks) =
    with_actions run _ k (λ actions is_sent. is_sent)
first_diagnostic-IsSent otherwise ((false, run) ∷ ds) h (k, ks) =
    first_diagnostic-IsSent otherwise ds h ks

pub blank-IsTail : IsTail (some (replicate 60 0))
unfolding all_bytes
blank-IsTail = (refl, all_bytes→IsBytes (replicate 60 0) refl)

module _ (udp_ready : Bool) (config : EmulatorConfig) (panel : Panel) (ranges : IsPanel panel)
    (idle : IsShownText config.startup_idle_text) where
  run_key_beep-IsWire : All IsWire (sent (run_key_beep udp_ready config panel))
  unfolding run_key_beep
  run_key_beep-IsWire = by_flag udp_ready
    where
      by_flag :
          (b : Bool)
          → All IsWire (
              sent (
                if b
                then sends (radio_audio_open ∷ [])
                  ∷ sleeps 10000
                  ∷ plays "key_beep"
                  ∷ sleeps 8000
                  ∷ sends (radio_audio_close ∷ [])
                  ∷ []
                else audits "key_beep_withheld" ∷ []))
      by_flag true = (audio_frames-IsWire.0, (audio_frames-IsWire.1.0, tt))
      by_flag false = tt

  given_or-IsText : IsText (some (text_or config.startup_idle_text))
  given_or-IsText = by_text config.startup_idle_text idle
    where
      by_text : (o : Option Text) → IsShownText o → IsText (some (text_or o))
      by_text none h = (tt, omega arith)
      by_text (some t) h = h

  pub idle-IsText : IsText (text_or_channel panel config.startup_idle_text)
  unfolding text_or_channel
  idle-IsText = by_text config.startup_idle_text idle
    where
      by_text : (o : Option Text) → IsShownText o → IsText (text_or_channel panel o)
      by_text none h = current_channel_text-IsText panel ranges
      by_text (some t) h = h

  -- What is received between the frames that open and close the path.
  between :
      (o : Option ℕ) (wav : Bool) (later : List Action)
      → All IsWire (sent later)
      → All IsWire (sent (received_audio o wav ++ later))
  unfolding received_audio
  between none true later h = h
  between none false later h = h
  between (some seconds) wav later h = h

  run_receive_audio-IsSent : IsSent (run_receive_audio udp_ready config panel)
  unfolding run_receive_audio
  run_receive_audio-IsSent = elim (Bool-cases udp_ready) [
    | inr e ↦ rw e tt
    | inl e ↦ rw e (
        with_frames (display_frames (text_or config.startup_idle_text) display_suffix) _
          (display_frames-IsFramed (text_or config.startup_idle_text) display_suffix given_or-IsText
            suffix-IsTail)
          (λ frames framed. (
            audio_frames-IsWire.0,
            All-append IsWire frames _ framed (
              audio_frames-IsWire.1.1.0,
              between config.rx_open_only_seconds (named config.rx_wav)
                  (sleeps 8000 ∷ sends (radio_audio_close ∷ radio_audio_status_closed ∷ []) ∷ [])
                  (audio_frames-IsWire.1.0, (audio_frames-IsWire.1.1.1.0, tt)),
            ),
          )))
  ]

  carousel-IsWire : All IsWire (sent (carousel udp_ready config panel))
  unfolding carousel
  carousel-IsWire = by_flag config.startup_status_carousel
    where
      by_flag :
          (b : Bool)
          → All IsWire (sent (if b then sends radio_status_carousel ∷ sleeps 1000000 ∷ [] else []))
      by_flag true = All-append IsWire radio_status_carousel [] radio_status_carousel-IsWire tt
      by_flag false = tt

  pub after_startup-IsSent : IsSent (after_startup udp_ready config panel)
  unfolding after_startup
  after_startup-IsSent = by_flags config.enable_rx_audio (named config.key_beep)
    where
      by_flags :
          (b d : Bool)
          → IsSent (
              if b
              then run_receive_audio udp_ready config panel
              else if d
              then some (run_key_beep udp_ready config panel)
              else some (audits "startup_complete" ∷ []))
      by_flags true d = run_receive_audio-IsSent
      by_flags false true = run_key_beep-IsWire
      by_flags false false = tt

  pub diagnostics-IsSent : All (λ d. IsSent d.1) (diagnostics udp_ready config panel)
  unfolding diagnostics
  diagnostics-IsSent = (
    run_display_offset56_test-IsSent config panel ranges,
    (
      run_display_offset56_low_bit_test-IsSent config panel ranges,
      (
        run_display_offset56_rssi_ladder_test-IsSent config panel ranges,
        (
          run_display_offset56_remaining_bits_test-IsSent config panel ranges,
          (
            run_display_offset57_bit_scan-IsSent config panel ranges,
            (
              run_display_offset58_bit_scan-IsSent config panel ranges,
              (
                run_display_offset59_bit_scan-IsSent config panel ranges,
                (
                  run_display_offset59_low_all_visible_test-IsSent config panel ranges,
                  (
                    run_display_offset60_bit_scan_all_visible-IsSent config panel ranges,
                    (
                      run_display_offset61_bit_scan_all_visible-IsSent config panel ranges,
                      (
                        run_display_offset62_bit_scan_all_visible-IsSent config panel ranges,
                        (
                          run_display_offset63_bit_scan_all_visible-IsSent config panel ranges,
                          (
                            run_display_offset64_bit_scan_all_visible-IsSent config panel ranges,
                            (
                              run_display_offset65_bit_scan_all_visible-IsSent config panel ranges,
                              (
                                run_display_offset66_bit_scan_all_visible-IsSent config panel
                                    ranges,
                                (
                                  run_display_offset67_bit_scan_all_visible-IsSent config panel
                                      ranges,
                                  (
                                    run_display_offsets8_33_observed_probe-IsSent config panel
                                        ranges,
                                    (
                                      run_display_character_blink_position_scan-IsSent config panel
                                          ranges,
                                      (
                                        run_display_character_attribute_bit_scan-IsSent config panel
                                            ranges,
                                        (
                                          run_status_led_observed_scan-IsSent config panel ranges,
                                          (
                                            run_backlight_timeout_wake_test-IsSent config panel
                                                ranges,
                                            tt,
                                          ),
                                        ),
                                      ),
                                    ),
                                  ),
                                ),
                              ),
                            ),
                          ),
                        ),
                      ),
                    ),
                  ),
                ),
              ),
            ),
          ),
        ),
      ),
    ),
  )

  module _ (file_exists wav_loads : Text → Bool)
      (accepted : config_error file_exists wav_loads config ≡ none)
      (opening : IsText (some config.startup_opening_text)) where
    -- For a configuration that is accepted, texts that a display can show and a panel in its
    -- ranges, the startup of a stable session raises nothing, whatever is asked for, and all that
    -- it sends are frames that a stream parser reads one by one.
    pub stable_startup-IsSent : IsSent (stable_startup udp_ready config panel)
    unfolding stable_startup
    stable_startup-IsSent =
        let sync = config_error-sync file_exists wav_loads config accepted in
        with_frames
          (radio_stable_sync config.mic_gain config.experimental_mic_gain_companion
            config.backlight_state)
          _
          (radio_stable_sync-IsFramed config.mic_gain config.experimental_mic_gain_companion
            config.backlight_state sync.0 sync.1 sync.2)
          (λ first first_framed.
            with_frames (display_frames config.startup_opening_text (replicate 60 0)) _
              (display_frames-IsFramed config.startup_opening_text (replicate 60 0) opening
                blank-IsTail)
              (λ opened opened_framed.
                with_text (text_or_channel panel config.startup_idle_text) _ idle-IsText (λ t shown.
                  with_frames (display_frames t display_suffix) _
                    (display_frames-IsFramed t display_suffix shown suffix-IsTail)
                    (λ frames framed.
                      with_actions
                        (first_diagnostic (after_startup udp_ready config panel)
                          (diagnostics udp_ready config panel))
                        _
                        (first_diagnostic-IsSent (after_startup udp_ready config panel)
                          (diagnostics udp_ready config panel) after_startup-IsSent
                          diagnostics-IsSent)
                        (λ later is_sent. All-append IsWire first _ first_framed (
                          All-append IsWire opened _ opened_framed (
                            IsSent-append (carousel udp_ready config panel) (sends frames ∷ later)
                              carousel-IsWire
                              (All-append IsWire frames (sent later) framed is_sent))))))))
