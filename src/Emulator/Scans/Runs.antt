-- ===== src/Emulator/Scans/Runs.antt =====
-- Every diagnostic of the emulated radio raises nothing and sends frames only.
use ip_commandmic.Prelude.{
  ℕ, refl, arith, List, [], ◌∷◌, ◌++◌, codes, All, some, Bool, true, false, if◌then◌else◌, ◌<◌,
}
use ip_commandmic.Protocol.Stream.Frames.{IsWire}
use ip_commandmic.Emulator.Actions.{
  audits, completes_display_test, sleeps, closes, sends, sent, display_frames,
}
use ip_commandmic.Emulator.Actions.Wire.{
  IsSent, IsText, IsSent-append, with_frames, with_text, display_frames-IsFramed, all_bytes,
  All-append,
}
use ip_commandmic.Emulator.Frames.{display_suffix, radio_audio_status_closed}
use ip_commandmic.Emulator.Frames.Wire.{byte-IsWire}
use ip_commandmic.Emulator.Config.{EmulatorConfig}
use ip_commandmic.Emulator.Panel.{Panel, current_channel_text}
use ip_commandmic.Emulator.Panel.Shown.{
  IsPanel, current_channel_text-IsText, suffix-IsTail, is_text, is_text→IsText,
}
use ip_commandmic.Emulator.Tails.{
  set_at, one_bit, ladder_values, all_visible, keypad_tail, tail_with_offset56,
  tail_with_offset56_low_candidate, tail_with_offset56_rssi_candidate,
  tail_with_offset56_remaining_candidate, tail_with_offset57_candidate,
  tail_with_offset58_candidate, tail_with_offset59_candidate,
  tail_with_offset59_low_and_all_visible, tail_with_offset60_and_all_visible,
  tail_with_offset61_and_all_visible, tail_with_offset62_and_all_visible,
  tail_with_offset63_and_all_visible, tail_with_offset64_and_all_visible,
  tail_with_offset65_and_all_visible, tail_with_offset66_and_all_visible,
  tail_with_offset67_and_all_visible, tail_for_offsets8_33_observed_probe,
  tail_for_character_blink_position, tail_for_character_attribute_value,
}
use ip_commandmic.Emulator.Scans.{
  display_test_text, status_states, run_status_led_observed_scan, run_backlight_timeout_wake_test,
  run_display_offset56_test, run_display_offset56_low_bit_test,
  run_display_offset56_rssi_ladder_test, run_display_offset56_remaining_bits_test,
  run_display_offset57_bit_scan, run_display_offset58_bit_scan, run_display_offset59_bit_scan,
  run_display_offset59_low_all_visible_test, run_display_offset60_bit_scan_all_visible,
  run_display_offset61_bit_scan_all_visible, run_display_offset62_bit_scan_all_visible,
  run_display_offset63_bit_scan_all_visible, run_display_offset64_bit_scan_all_visible,
  run_display_offset65_bit_scan_all_visible, run_display_offset66_bit_scan_all_visible,
  run_display_offset67_bit_scan_all_visible, run_display_offsets8_33_observed_probe,
  run_display_character_blink_position_scan, run_display_character_attribute_bit_scan,
}
use ip_commandmic.Emulator.Scans.Sent.{tail_ok, tails_ok, run_scan-IsSent}

module _ (config : EmulatorConfig) (panel : Panel) (ranges : IsPanel panel) where
  display_test_text-IsText : IsText (display_test_text config panel)
  unfolding display_test_text
  display_test_text-IsText = by_flag config.display_test_blank_text
    where
      by_flag : (b : Bool) → IsText (if b then some [] else current_channel_text panel)
      by_flag true = (tt, omega arith)
      by_flag false = current_channel_text-IsText panel ranges

  pub run_display_offset56_test-IsSent : IsSent (run_display_offset56_test config panel)
  unfolding run_display_offset56_test tails_ok tail_ok all_bytes tail_with_offset56 set_at
  run_display_offset56_test-IsSent =
      run_scan-IsSent panel ranges config _ _ (display_test_text config panel) tail_with_offset56
        (0x88 ∷ 0x8A ∷ 0xFA ∷ 0x00 ∷ []) display_test_text-IsText refl

  pub run_display_offset56_low_bit_test-IsSent :
      IsSent (run_display_offset56_low_bit_test config panel)
  unfolding run_display_offset56_low_bit_test tails_ok tail_ok all_bytes
      tail_with_offset56_low_candidate set_at
  run_display_offset56_low_bit_test-IsSent =
      run_scan-IsSent panel ranges config _ _ (display_test_text config panel)
        tail_with_offset56_low_candidate (0x88 ∷ 0x08 ∷ 0x80 ∷ 0x00 ∷ []) display_test_text-IsText
        refl

  pub run_display_offset56_rssi_ladder_test-IsSent :
      IsSent (run_display_offset56_rssi_ladder_test config panel)
  unfolding run_display_offset56_rssi_ladder_test tails_ok tail_ok all_bytes
      tail_with_offset56_rssi_candidate set_at
  run_display_offset56_rssi_ladder_test-IsSent =
      run_scan-IsSent panel ranges config _ _ (display_test_text config panel)
        tail_with_offset56_rssi_candidate ladder_values display_test_text-IsText refl

  pub run_display_offset56_remaining_bits_test-IsSent :
      IsSent (run_display_offset56_remaining_bits_test config panel)
  unfolding run_display_offset56_remaining_bits_test tails_ok tail_ok all_bytes
      tail_with_offset56_remaining_candidate set_at
  run_display_offset56_remaining_bits_test-IsSent =
      run_scan-IsSent panel ranges config _ _ (display_test_text config panel)
        tail_with_offset56_remaining_candidate (0x00 ∷ 0x01 ∷ 0x04 ∷ 0x05 ∷ [])
        display_test_text-IsText refl

  pub run_display_offset57_bit_scan-IsSent : IsSent (run_display_offset57_bit_scan config panel)
  unfolding run_display_offset57_bit_scan tails_ok tail_ok all_bytes tail_with_offset57_candidate
      set_at
  run_display_offset57_bit_scan-IsSent =
      run_scan-IsSent panel ranges config _ _ (display_test_text config panel)
        tail_with_offset57_candidate one_bit display_test_text-IsText refl

  pub run_display_offset58_bit_scan-IsSent : IsSent (run_display_offset58_bit_scan config panel)
  unfolding run_display_offset58_bit_scan tails_ok tail_ok all_bytes tail_with_offset58_candidate
      set_at
  run_display_offset58_bit_scan-IsSent =
      run_scan-IsSent panel ranges config _ _ (display_test_text config panel)
        tail_with_offset58_candidate one_bit display_test_text-IsText refl

  pub run_display_offset59_bit_scan-IsSent : IsSent (run_display_offset59_bit_scan config panel)
  unfolding run_display_offset59_bit_scan tails_ok tail_ok all_bytes tail_with_offset59_candidate
      set_at
  run_display_offset59_bit_scan-IsSent =
      run_scan-IsSent panel ranges config _ _ (display_test_text config panel)
        tail_with_offset59_candidate one_bit display_test_text-IsText refl

  pub run_display_offset59_low_all_visible_test-IsSent :
      IsSent (run_display_offset59_low_all_visible_test config panel)
  unfolding run_display_offset59_low_all_visible_test tails_ok tail_ok all_bytes
      tail_with_offset59_low_and_all_visible all_visible is_text set_at
  run_display_offset59_low_all_visible_test-IsSent =
      run_scan-IsSent panel ranges config _ _ (some (codes "88888888"))
        tail_with_offset59_low_and_all_visible (0x00 ∷ 0x01 ∷ 0x02 ∷ 0x04 ∷ 0x08 ∷ 0x0F ∷ [])
        (is_text→IsText (codes "88888888") refl) refl

  pub run_display_offset60_bit_scan_all_visible-IsSent :
      IsSent (run_display_offset60_bit_scan_all_visible config panel)
  unfolding run_display_offset60_bit_scan_all_visible tails_ok tail_ok all_bytes
      tail_with_offset60_and_all_visible all_visible is_text set_at
  run_display_offset60_bit_scan_all_visible-IsSent =
      run_scan-IsSent panel ranges config _ _ (some (codes "88888888"))
        tail_with_offset60_and_all_visible one_bit (is_text→IsText (codes "88888888") refl) refl

  pub run_display_offset61_bit_scan_all_visible-IsSent :
      IsSent (run_display_offset61_bit_scan_all_visible config panel)
  unfolding run_display_offset61_bit_scan_all_visible tails_ok tail_ok all_bytes
      tail_with_offset61_and_all_visible all_visible is_text set_at
  run_display_offset61_bit_scan_all_visible-IsSent =
      run_scan-IsSent panel ranges config _ _ (some (codes "88888888"))
        tail_with_offset61_and_all_visible one_bit (is_text→IsText (codes "88888888") refl) refl

  pub run_display_offset62_bit_scan_all_visible-IsSent :
      IsSent (run_display_offset62_bit_scan_all_visible config panel)
  unfolding run_display_offset62_bit_scan_all_visible tails_ok tail_ok all_bytes
      tail_with_offset62_and_all_visible all_visible is_text set_at
  run_display_offset62_bit_scan_all_visible-IsSent =
      run_scan-IsSent panel ranges config _ _ (some (codes "88888888"))
        tail_with_offset62_and_all_visible one_bit (is_text→IsText (codes "88888888") refl) refl

  pub run_display_offset63_bit_scan_all_visible-IsSent :
      IsSent (run_display_offset63_bit_scan_all_visible config panel)
  unfolding run_display_offset63_bit_scan_all_visible tails_ok tail_ok all_bytes
      tail_with_offset63_and_all_visible all_visible is_text set_at
  run_display_offset63_bit_scan_all_visible-IsSent =
      run_scan-IsSent panel ranges config _ _ (some (codes "88888888"))
        tail_with_offset63_and_all_visible one_bit (is_text→IsText (codes "88888888") refl) refl

  pub run_display_offset64_bit_scan_all_visible-IsSent :
      IsSent (run_display_offset64_bit_scan_all_visible config panel)
  unfolding run_display_offset64_bit_scan_all_visible tails_ok tail_ok all_bytes
      tail_with_offset64_and_all_visible all_visible is_text set_at
  run_display_offset64_bit_scan_all_visible-IsSent =
      run_scan-IsSent panel ranges config _ _ (some (codes "88888888"))
        tail_with_offset64_and_all_visible one_bit (is_text→IsText (codes "88888888") refl) refl

  pub run_display_offset65_bit_scan_all_visible-IsSent :
      IsSent (run_display_offset65_bit_scan_all_visible config panel)
  unfolding run_display_offset65_bit_scan_all_visible tails_ok tail_ok all_bytes
      tail_with_offset65_and_all_visible all_visible is_text set_at
  run_display_offset65_bit_scan_all_visible-IsSent =
      run_scan-IsSent panel ranges config _ _ (some (codes "88888888"))
        tail_with_offset65_and_all_visible one_bit (is_text→IsText (codes "88888888") refl) refl

  pub run_display_offset66_bit_scan_all_visible-IsSent :
      IsSent (run_display_offset66_bit_scan_all_visible config panel)
  unfolding run_display_offset66_bit_scan_all_visible tails_ok tail_ok all_bytes
      tail_with_offset66_and_all_visible all_visible is_text set_at
  run_display_offset66_bit_scan_all_visible-IsSent =
      run_scan-IsSent panel ranges config _ _ (some (codes "88888888"))
        tail_with_offset66_and_all_visible one_bit (is_text→IsText (codes "88888888") refl) refl

  pub run_display_offset67_bit_scan_all_visible-IsSent :
      IsSent (run_display_offset67_bit_scan_all_visible config panel)
  unfolding run_display_offset67_bit_scan_all_visible tails_ok tail_ok all_bytes
      tail_with_offset67_and_all_visible all_visible is_text set_at
  run_display_offset67_bit_scan_all_visible-IsSent =
      run_scan-IsSent panel ranges config _ _ (some (codes "88888888"))
        tail_with_offset67_and_all_visible one_bit (is_text→IsText (codes "88888888") refl) refl

  pub run_display_offsets8_33_observed_probe-IsSent :
      IsSent (run_display_offsets8_33_observed_probe config panel)
  unfolding run_display_offsets8_33_observed_probe tails_ok tail_ok all_bytes
      tail_for_offsets8_33_observed_probe is_text set_at keypad_tail
  run_display_offsets8_33_observed_probe-IsSent =
      run_scan-IsSent panel ranges config _ _ (some (codes "ABCDEFGH"))
        tail_for_offsets8_33_observed_probe
        (codes "plain" ∷ codes "keypad_base" ∷ codes "offset32" ∷ codes "offset33" ∷ [])
        (is_text→IsText (codes "ABCDEFGH") refl) refl

  pub run_display_character_blink_position_scan-IsSent :
      IsSent (run_display_character_blink_position_scan config panel)
  unfolding run_display_character_blink_position_scan tails_ok tail_ok all_bytes
      tail_for_character_blink_position is_text set_at
  run_display_character_blink_position_scan-IsSent =
      run_scan-IsSent panel ranges config _ _ (some (codes "ABCDEFGH"))
        tail_for_character_blink_position (1 ∷ 2 ∷ 3 ∷ 4 ∷ 5 ∷ 6 ∷ 7 ∷ 8 ∷ [])
        (is_text→IsText (codes "ABCDEFGH") refl) refl

  pub run_display_character_attribute_bit_scan-IsSent :
      IsSent (run_display_character_attribute_bit_scan config panel)
  unfolding run_display_character_attribute_bit_scan tails_ok tail_ok all_bytes
      tail_for_character_attribute_value is_text set_at
  run_display_character_attribute_bit_scan-IsSent =
      run_scan-IsSent panel ranges config _ _ (some (codes "ABCDEFGH"))
        (λ value. tail_for_character_attribute_value value 5) one_bit
        (is_text→IsText (codes "ABCDEFGH") refl) refl

  status_states-IsSent :
      (values : List ℕ)
      → All (λ v. v < 256) values
      → All IsWire (sent (status_states config panel values))
  unfolding status_states
  status_states-IsSent [] h = tt
  status_states-IsSent (v ∷ values) (h, hs) =
      (byte-IsWire 0x02 0x02 v (omega arith) (omega arith) h, status_states-IsSent values hs)

  pub run_status_led_observed_scan-IsSent : IsSent (run_status_led_observed_scan config panel)
  unfolding run_status_led_observed_scan radio_audio_status_closed
  run_status_led_observed_scan-IsSent =
      IsSent-append (status_states config panel (0x00 ∷ 0x02 ∷ 0x04 ∷ 0x06 ∷ []))
        (sends (radio_audio_status_closed ∷ [])
          ∷ audits "status_led_observed_scan_complete"
          ∷ completes_display_test
          ∷ sleeps 1000000
          ∷ closes
          ∷ [])
        (status_states-IsSent (0x00 ∷ 0x02 ∷ 0x04 ∷ 0x06 ∷ [])
          (omega arith, (omega arith, (omega arith, (omega arith, tt)))))
        (byte-IsWire 0x02 0x02 0x00 (omega arith) (omega arith) (omega arith), tt)

  pub run_backlight_timeout_wake_test-IsSent : IsSent (run_backlight_timeout_wake_test config panel)
  unfolding run_backlight_timeout_wake_test
  run_backlight_timeout_wake_test-IsSent =
      with_text (current_channel_text panel) _ (current_channel_text-IsText panel ranges)
        (λ t shown.
          with_frames (display_frames t display_suffix) _
            (display_frames-IsFramed t display_suffix shown suffix-IsTail)
            (λ frames framed.
              All-append IsWire frames (frames ++ []) framed
                (All-append IsWire frames [] framed tt)))
