-- ===== src/Emulator/Scans.antt =====
-- The display diagnostics of src/ip_commandmic/emulator.py, each as the actions of its whole run.

pub mod Sent
pub mod Runs
use Prim.Native.String.{String}
use ip_commandmic.Prelude.{
  ℕ, ◌+◌, ◌*◌, ◌==◌, if◌then◌else◌, List, [], ◌∷◌, ◌++◌, Bytes, Text, codes, Option, none, some,
  get_elem?,
}
use ip_commandmic.Emulator.Actions.{
  Action, sends, audits, sleeps, completes_display_test, closes, ◌>>=◌, display_frames,
}
use ip_commandmic.Emulator.Frames.{built, display_suffix, radio_audio_status_closed}
use ip_commandmic.Emulator.Config.{EmulatorConfig}
use ip_commandmic.Emulator.Panel.{Panel, current_channel_text}
use ip_commandmic.Emulator.Tails.{
  one_bit, ladder_values, tail_with_offset56, tail_with_offset56_low_candidate,
  tail_with_offset56_rssi_candidate, tail_with_offset56_remaining_candidate,
  tail_with_offset57_candidate, tail_with_offset58_candidate, tail_with_offset59_candidate,
  tail_with_offset59_low_and_all_visible, tail_with_offset60_and_all_visible,
  tail_with_offset61_and_all_visible, tail_with_offset62_and_all_visible,
  tail_with_offset63_and_all_visible, tail_with_offset64_and_all_visible,
  tail_with_offset65_and_all_visible, tail_with_offset66_and_all_visible,
  tail_with_offset67_and_all_visible, tail_for_offsets8_33_observed_probe,
  tail_for_character_blink_position, tail_for_character_attribute_value,
}
use ip_commandmic.Protocol.Frame.{frame_of}

-- `_display_test_text`
unfoldable pub display_test_text : EmulatorConfig → Panel → Option Text
display_test_text config panel =
    if config.display_test_blank_text then some [] else current_channel_text panel

-- The end of a diagnostic: the channel is shown again, and the connection closed.
pub restored : Panel → String → Option (List Action)
unfolding display_frames
restored panel complete = do
  text ← current_channel_text panel
  frames ← display_frames text display_suffix
  some (sends frames ∷ audits complete ∷ completes_display_test ∷ sleeps 1000000 ∷ closes ∷ [])

-- The values one after the other, each shown for a while: `hold` in milliseconds.
module _ {A : Type 0} (hold : ℕ) (state : String) (text : Text) (tail_of : A → Option Bytes) where
  pub states_shown : List A → Option (List Action)
  unfolding display_frames
  states_shown [] = some []
  states_shown (value ∷ values) = do
    tail ← tail_of value
    frames ← display_frames text tail
    later ← states_shown values
    some (audits state ∷ sends frames ∷ sleeps (hold * 1000) ∷ later)

module _ {A : Type 0} (config : EmulatorConfig) (panel : Panel) (state complete : String) where
  -- A run over some values under a text.
  unfoldable pub run_scan : Option Text → (A → Option Bytes) → List A → Option (List Action)
  unfolding states_shown restored
  run_scan shown tail_of values = do
    text ← shown
    steps ← states_shown config.display_test_hold_seconds state text tail_of values
    last ← restored panel complete
    some (steps ++ last)

module _ (config : EmulatorConfig) (panel : Panel) where
  unfoldable pub run_display_offset56_test : Option (List Action)
  unfolding run_scan display_test_text tail_with_offset56
  run_display_offset56_test =
      run_scan config panel "display_offset56_test_state" "display_offset56_test_complete"
        (display_test_text config panel) tail_with_offset56 (0x88 ∷ 0x8A ∷ 0xFA ∷ 0x00 ∷ [])

  unfoldable pub run_display_offset56_low_bit_test : Option (List Action)
  unfolding run_scan display_test_text tail_with_offset56_low_candidate
  run_display_offset56_low_bit_test =
      run_scan config panel "display_offset56_low_bit_test_state"
        "display_offset56_low_bit_test_complete" (display_test_text config panel)
        tail_with_offset56_low_candidate (0x88 ∷ 0x08 ∷ 0x80 ∷ 0x00 ∷ [])

  unfoldable pub run_display_offset56_rssi_ladder_test : Option (List Action)
  unfolding run_scan display_test_text tail_with_offset56_rssi_candidate
  run_display_offset56_rssi_ladder_test =
      run_scan config panel "display_offset56_rssi_ladder_state"
        "display_offset56_rssi_ladder_complete" (display_test_text config panel)
        tail_with_offset56_rssi_candidate ladder_values

  unfoldable pub run_display_offset56_remaining_bits_test : Option (List Action)
  unfolding run_scan display_test_text tail_with_offset56_remaining_candidate
  run_display_offset56_remaining_bits_test =
      run_scan config panel "display_offset56_remaining_bits_state"
        "display_offset56_remaining_bits_complete" (display_test_text config panel)
        tail_with_offset56_remaining_candidate (0x00 ∷ 0x01 ∷ 0x04 ∷ 0x05 ∷ [])

  unfoldable pub run_display_offset57_bit_scan : Option (List Action)
  unfolding run_scan display_test_text tail_with_offset57_candidate
  run_display_offset57_bit_scan =
      run_scan config panel "display_offset57_bit_scan_state" "display_offset57_bit_scan_complete"
        (display_test_text config panel) tail_with_offset57_candidate one_bit

  unfoldable pub run_display_offset58_bit_scan : Option (List Action)
  unfolding run_scan display_test_text tail_with_offset58_candidate
  run_display_offset58_bit_scan =
      run_scan config panel "display_offset58_bit_scan_state" "display_offset58_bit_scan_complete"
        (display_test_text config panel) tail_with_offset58_candidate one_bit

  unfoldable pub run_display_offset59_bit_scan : Option (List Action)
  unfolding run_scan display_test_text tail_with_offset59_candidate
  run_display_offset59_bit_scan =
      run_scan config panel "display_offset59_bit_scan_state" "display_offset59_bit_scan_complete"
        (display_test_text config panel) tail_with_offset59_candidate one_bit

  unfoldable pub run_display_offset59_low_all_visible_test : Option (List Action)
  unfolding run_scan tail_with_offset59_low_and_all_visible
  run_display_offset59_low_all_visible_test =
      run_scan config panel "display_offset59_low_all_visible_state"
        "display_offset59_low_all_visible_complete" (some (codes "88888888"))
        tail_with_offset59_low_and_all_visible (0x00 ∷ 0x01 ∷ 0x02 ∷ 0x04 ∷ 0x08 ∷ 0x0F ∷ [])

  unfoldable pub run_display_offset60_bit_scan_all_visible : Option (List Action)
  unfolding run_scan tail_with_offset60_and_all_visible
  run_display_offset60_bit_scan_all_visible =
      run_scan config panel "display_offset60_bit_scan_all_visible_state"
        "display_offset60_bit_scan_all_visible_complete" (some (codes "88888888"))
        tail_with_offset60_and_all_visible one_bit

  unfoldable pub run_display_offset61_bit_scan_all_visible : Option (List Action)
  unfolding run_scan tail_with_offset61_and_all_visible
  run_display_offset61_bit_scan_all_visible =
      run_scan config panel "display_offset61_bit_scan_all_visible_state"
        "display_offset61_bit_scan_all_visible_complete" (some (codes "88888888"))
        tail_with_offset61_and_all_visible one_bit

  unfoldable pub run_display_offset62_bit_scan_all_visible : Option (List Action)
  unfolding run_scan tail_with_offset62_and_all_visible
  run_display_offset62_bit_scan_all_visible =
      run_scan config panel "display_offset62_bit_scan_all_visible_state"
        "display_offset62_bit_scan_all_visible_complete" (some (codes "88888888"))
        tail_with_offset62_and_all_visible one_bit

  unfoldable pub run_display_offset63_bit_scan_all_visible : Option (List Action)
  unfolding run_scan tail_with_offset63_and_all_visible
  run_display_offset63_bit_scan_all_visible =
      run_scan config panel "display_offset63_bit_scan_all_visible_state"
        "display_offset63_bit_scan_all_visible_complete" (some (codes "88888888"))
        tail_with_offset63_and_all_visible one_bit

  unfoldable pub run_display_offset64_bit_scan_all_visible : Option (List Action)
  unfolding run_scan tail_with_offset64_and_all_visible
  run_display_offset64_bit_scan_all_visible =
      run_scan config panel "display_offset64_bit_scan_all_visible_state"
        "display_offset64_bit_scan_all_visible_complete" (some (codes "88888888"))
        tail_with_offset64_and_all_visible one_bit

  unfoldable pub run_display_offset65_bit_scan_all_visible : Option (List Action)
  unfolding run_scan tail_with_offset65_and_all_visible
  run_display_offset65_bit_scan_all_visible =
      run_scan config panel "display_offset65_bit_scan_all_visible_state"
        "display_offset65_bit_scan_all_visible_complete" (some (codes "88888888"))
        tail_with_offset65_and_all_visible one_bit

  unfoldable pub run_display_offset66_bit_scan_all_visible : Option (List Action)
  unfolding run_scan tail_with_offset66_and_all_visible
  run_display_offset66_bit_scan_all_visible =
      run_scan config panel "display_offset66_bit_scan_all_visible_state"
        "display_offset66_bit_scan_all_visible_complete" (some (codes "88888888"))
        tail_with_offset66_and_all_visible one_bit

  unfoldable pub run_display_offset67_bit_scan_all_visible : Option (List Action)
  unfolding run_scan tail_with_offset67_and_all_visible
  run_display_offset67_bit_scan_all_visible =
      run_scan config panel "display_offset67_bit_scan_all_visible_state"
        "display_offset67_bit_scan_all_visible_complete" (some (codes "88888888"))
        tail_with_offset67_and_all_visible one_bit

  unfoldable pub run_display_offsets8_33_observed_probe : Option (List Action)
  unfolding run_scan tail_for_offsets8_33_observed_probe
  run_display_offsets8_33_observed_probe =
      run_scan config panel "display_offsets8_33_observed_probe_state"
        "display_offsets8_33_observed_probe_complete" (some (codes "ABCDEFGH"))
        tail_for_offsets8_33_observed_probe
        (codes "plain" ∷ codes "keypad_base" ∷ codes "offset32" ∷ codes "offset33" ∷ [])

  unfoldable pub run_display_character_blink_position_scan : Option (List Action)
  unfolding run_scan tail_for_character_blink_position
  run_display_character_blink_position_scan =
      run_scan config panel "display_character_blink_position_state"
        "display_character_blink_position_scan_complete" (some (codes "ABCDEFGH"))
        tail_for_character_blink_position (1 ∷ 2 ∷ 3 ∷ 4 ∷ 5 ∷ 6 ∷ 7 ∷ 8 ∷ [])

  unfoldable pub run_display_character_attribute_bit_scan : Option (List Action)
  unfolding run_scan tail_for_character_attribute_value
  run_display_character_attribute_bit_scan =
      run_scan config panel "display_character_attribute_bit_state"
        "display_character_attribute_bit_scan_complete" (some (codes "ABCDEFGH"))
        (λ value. tail_for_character_attribute_value value 5) one_bit

  -- Both ends of the status LED scan send a frame of their own.
  pub status_states : List ℕ → List Action
  unfolding frame_of
  status_states [] = []
  status_states (value ∷ values) =
      audits "status_led_observed_state"
      ∷ sends (built 0x02 0x02 (value ∷ []) ∷ [])
      ∷ sleeps (config.display_test_hold_seconds * 1000)
      ∷ status_states values

  unfoldable pub run_status_led_observed_scan : Option (List Action)
  unfolding status_states radio_audio_status_closed
  run_status_led_observed_scan = some (
      status_states (0x00 ∷ 0x02 ∷ 0x04 ∷ 0x06 ∷ [])
      ++ (sends (radio_audio_status_closed ∷ [])
          ∷ audits "status_led_observed_scan_complete"
          ∷ completes_display_test
          ∷ sleeps 1000000
          ∷ closes
          ∷ []))

  unfoldable pub run_backlight_timeout_wake_test : Option (List Action)
  unfolding display_frames
  run_backlight_timeout_wake_test = do
    text ← current_channel_text panel
    frames ← display_frames text display_suffix
    some (
        audits "backlight_timeout_observation"
        ∷ sleeps 8000000
        ∷ audits "backlight_display_refresh"
        ∷ sends frames
        ∷ audits "backlight_timeout_observation"
        ∷ sleeps 8000000
        ∷ audits "backlight_display_refresh"
        ∷ sends frames
        ∷ sleeps 2000000
        ∷ audits "backlight_timeout_wake_test_complete"
        ∷ completes_display_test
        ∷ closes
        ∷ [])
