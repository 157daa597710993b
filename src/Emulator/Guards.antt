-- ===== src/Emulator/Guards.antt =====
-- `__post_init__` of src/ip_commandmic/emulator.py: the tests of a configuration in their order.
pub mod Accepted
use ip_commandmic.Prelude.{
  ℕ, ◌+◌, ltb, leb, if◌then◌else◌, List, [], ◌∷◌, ◌++◌, Text, codes, Bool, true, false, not, ◌&&◌,
  ◌||◌, ◌=?◌, Option, none, some, one_of, ℤ, pos, negsuc, leb_int,
}
use ip_commandmic.Controls.{ordinary_key_buttons}
use ip_commandmic.Emulator.Frames.{backlight_states}
use ip_commandmic.Emulator.Config.{
  EmulatorConfig, ConfigError, bad_role, bad_mic_gain, bad_backlight_state, bad_beep_level,
  companion_not_allowed, companion_without_radio, bad_companion, mic_without_listen,
  rx_audio_without_radio, bad_rx_tone_hz, bad_rx_level, bad_rx_tone_seconds, rx_wav_without_audio,
  rx_open_only_without_audio, rx_open_only_with_wav, bad_rx_open_only, bad_key_beep,
  key_beep_without_radio, key_beep_with_rx_audio, key_beep_with_recording_or_tx,
  record_mic_without_radio, record_mic_with_rx_audio, record_mic_exists, bad_mic_recording_max,
  record_radio_without_mic, record_radio_exists, bad_radio_recording_max, play_radio_without_mic,
  bad_radio_jitter, several_display_tests, display_test_without_radio, display_test_with_audio,
  blank_text_without_test, bad_display_test_hold, key_script_without_mic, bad_key_script,
  bad_key_hold, bad_key_interval, bad_key_start_delay, exit_without_key_script, several_tx_modes,
  tx_without_mic, tx_with_key_script, bad_tx_tone_hz, bad_tx_level, bad_tx_hold, bad_tx_start_delay,
  tx_wav_with_device, bad_tx_wav, bad_tx_device_buffer, bad_tx_capture_queue, tx_setting_without_tx,
  interactive_without_device, interactive_with_script,
}

-- A test and what is raised where it holds.
abbrev pub Guard : Type 0
Guard = Bool × ConfigError

-- The first test that holds; a test stands behind those in front of it.
unfoldable pub first_error : List Guard → Option ConfigError
first_error [] = none
first_error ((test, error) ∷ guards) =
    let later = first_error guards in if test then some error else later

-- lo <= x <= hi
abbrev pub within : ℕ → ℕ → ℕ → Bool
within lo hi x = leb lo x && leb x hi

-- Whether a setting is given; a `str` also has to be not empty where the source asks for its truth.
abbrev pub given : Option ℕ → Bool
given none = false
given (some x) = true

abbrev pub named : Option Text → Bool
named none = false
named (some []) = false
named (some (c ∷ s)) = true

abbrev pub given_text : Option Text → Bool
given_text none = false
given_text (some s) = true

abbrev pub value_or : ℕ → Option ℕ → ℕ
value_or default none = default
value_or default (some x) = x

abbrev pub text_or : Option Text → Text
text_or none = []
text_or (some s) = s

abbrev pub some_key : List Text → Bool
some_key [] = false
some_key (button ∷ buttons) = true

-- Whether every button of a script is an ordinary one.
all_ordinary : List Text → Bool
unfolding ordinary_key_buttons
all_ordinary [] = true
all_ordinary (button ∷ buttons) = one_of button ordinary_key_buttons && all_ordinary buttons

count_set : List Bool → ℕ
count_set [] = 0
count_set (b ∷ bs) = (if b then 1 else 0) + count_set bs

-- `file_exists` is `Path(...).exists()`, and `wav_loads` whether `load_s16be_wav_payloads` returns,
-- for a file of that name.
module _ (file_exists wav_loads : Text → Bool) (c : EmulatorConfig) where
  abbrev pub is_mic : Bool
  is_mic = c.role =? codes "mic"

  abbrev pub is_radio : Bool
  is_radio = c.role =? codes "radio"

  abbrev pub verified_radio : Bool
  verified_radio = is_radio && c.verified_startup

  abbrev pub listening_mic : Bool
  listening_mic = is_mic && (c.verified_startup && c.listen)

  unfoldable pub role_guards : List Guard
  role_guards =
      (not (is_mic || is_radio), bad_role)
      ∷ (not (within 1 5 c.mic_gain), bad_mic_gain)
      ∷ (not (one_of c.backlight_state backlight_states), bad_backlight_state)
      ∷ (not (within 1 5 c.beep_level), bad_beep_level)
      ∷ (
        given c.experimental_mic_gain_companion && not c.allow_experimental_gain_pair,
        companion_not_allowed,
      )
      ∷ (given c.experimental_mic_gain_companion && not verified_radio, companion_without_radio)
      ∷ (
        given c.experimental_mic_gain_companion
            && not (within 1 6 (value_or 1 c.experimental_mic_gain_companion)),
        bad_companion,
      )
      ∷ (is_mic && (c.verified_startup && not c.listen), mic_without_listen)
      ∷ (c.enable_rx_audio && not verified_radio, rx_audio_without_radio)
      ∷ []

  unfoldable pub receive_guards : List Guard
  receive_guards =
      (not (within 20000 3500000 c.rx_tone_hz), bad_rx_tone_hz)
      ∷ (
        not (leb_int (negsuc 59999) c.rx_level_dbfs && leb_int c.rx_level_dbfs (negsuc 5999)),
        bad_rx_level,
      )
      ∷ (not (within 20 30000 c.rx_tone_seconds), bad_rx_tone_seconds)
      ∷ (named c.rx_wav && not c.enable_rx_audio, rx_wav_without_audio)
      ∷ (given c.rx_open_only_seconds && not c.enable_rx_audio, rx_open_only_without_audio)
      ∷ (given c.rx_open_only_seconds && named c.rx_wav, rx_open_only_with_wav)
      ∷ (
        given c.rx_open_only_seconds && not (within 20 30000 (value_or 20 c.rx_open_only_seconds)),
        bad_rx_open_only,
      )
      ∷ []

  -- `get_key_beep_profile` knows two names; the level was tested before.
  unfoldable pub beep_guards : List Guard
  beep_guards =
      (
        given_text c.key_beep
            && not (one_of (text_or c.key_beep) (codes "normal" ∷ codes "low" ∷ [])),
        bad_key_beep,
      )
      ∷ (given_text c.key_beep && not verified_radio, key_beep_without_radio)
      ∷ (given_text c.key_beep && c.enable_rx_audio, key_beep_with_rx_audio)
      ∷ (
        given_text c.key_beep && (named c.record_mic_wav || c.enable_tx),
        key_beep_with_recording_or_tx,
      )
      ∷ []

  unfoldable pub recording_guards : List Guard
  recording_guards =
      (named c.record_mic_wav && not verified_radio, record_mic_without_radio)
      ∷ (named c.record_mic_wav && c.enable_rx_audio, record_mic_with_rx_audio)
      ∷ (named c.record_mic_wav && file_exists (text_or c.record_mic_wav), record_mic_exists)
      ∷ (not (within 100 30000 c.mic_recording_max_seconds), bad_mic_recording_max)
      ∷ (named c.record_radio_wav && not listening_mic, record_radio_without_mic)
      ∷ (named c.record_radio_wav && file_exists (text_or c.record_radio_wav), record_radio_exists)
      ∷ (not (within 100 30000 c.radio_recording_max_seconds), bad_radio_recording_max)
      ∷ (c.play_radio_audio && not listening_mic, play_radio_without_mic)
      ∷ (not (within 1 25 c.radio_jitter_packets), bad_radio_jitter)
      ∷ []

  unfoldable pub display_test_count : ℕ
  unfolding count_set
  display_test_count = count_set (
      c.display_offset56_test ∷ c.display_offset56_low_bit_test
      ∷ c.display_offset56_rssi_ladder_test ∷ c.display_offset56_remaining_bits_test
      ∷ c.display_offset57_bit_scan ∷ c.display_offset58_bit_scan ∷ c.display_offset59_bit_scan
      ∷ c.display_offset59_low_all_visible_test ∷ c.display_offset60_bit_scan_all_visible
      ∷ c.display_offset61_bit_scan_all_visible ∷ c.display_offset62_bit_scan_all_visible
      ∷ c.display_offset63_bit_scan_all_visible ∷ c.display_offset64_bit_scan_all_visible
      ∷ c.display_offset65_bit_scan_all_visible ∷ c.display_offset66_bit_scan_all_visible
      ∷ c.display_offset67_bit_scan_all_visible ∷ c.display_offsets8_33_observed_probe
      ∷ c.display_character_blink_position_scan ∷ c.display_character_attribute_bit_scan
      ∷ c.status_led_observed_scan ∷ c.backlight_timeout_wake_test ∷ [])

  unfoldable pub display_guards : List Guard
  unfolding display_test_count
  display_guards =
      (ltb 1 display_test_count, several_display_tests)
      ∷ (ltb 0 display_test_count && not verified_radio, display_test_without_radio)
      ∷ (
        ltb 0 display_test_count
            && (c.enable_rx_audio || (named c.key_beep || (named c.record_mic_wav || c.enable_tx))),
        display_test_with_audio,
      )
      ∷ (not (ltb 0 display_test_count) && c.display_test_blank_text, blank_text_without_test)
      ∷ (not (within 2000 10000 c.display_test_hold_seconds), bad_display_test_hold)
      ∷ []

  unfoldable pub key_guards : List Guard
  unfolding all_ordinary
  key_guards =
      (some_key c.mic_key_script && not listening_mic, key_script_without_mic)
      ∷ (some_key c.mic_key_script && not (all_ordinary c.mic_key_script), bad_key_script)
      ∷ (not (within 20 10000 c.mic_key_hold_seconds), bad_key_hold)
      ∷ (not (within 0 10000 c.mic_key_interval_seconds), bad_key_interval)
      ∷ (not (within 0 30000 c.mic_key_start_delay_seconds), bad_key_start_delay)
      ∷ (c.exit_after_key_script && not (some_key c.mic_key_script), exit_without_key_script)
      ∷ []

  abbrev pub tx_capable : Bool
  tx_capable = c.enable_tx || c.interactive_tx

  unfoldable pub tx_guards : List Guard
  tx_guards =
      (c.enable_tx && c.interactive_tx, several_tx_modes)
      ∷ (tx_capable && not listening_mic, tx_without_mic)
      ∷ (tx_capable && (c.enable_tx && some_key c.mic_key_script), tx_with_key_script)
      ∷ (tx_capable && not (within 20000 3500000 c.tx_tone_hz), bad_tx_tone_hz)
      ∷ (
        tx_capable
            && not
                (leb_int (negsuc 59999) c.tx_level_dbfs && leb_int c.tx_level_dbfs (negsuc 5999)),
        bad_tx_level,
      )
      ∷ (tx_capable && not (within 500 30000 c.tx_hold_seconds), bad_tx_hold)
      ∷ (tx_capable && not (within 0 30000 c.tx_start_delay_seconds), bad_tx_start_delay)
      ∷ (tx_capable && (named c.tx_wav && named c.tx_live_device), tx_wav_with_device)
      ∷ (tx_capable && (named c.tx_wav && not (wav_loads (text_or c.tx_wav))), bad_tx_wav)
      ∷ (tx_capable && not (within 5 100 c.tx_device_buffer_ms), bad_tx_device_buffer)
      ∷ (tx_capable && not (within 1 3 c.tx_capture_queue_packets), bad_tx_capture_queue)
      ∷ (
        not tx_capable && (named c.tx_wav || (named c.tx_live_device || c.exit_after_tx_script)),
        tx_setting_without_tx,
      )
      ∷ (c.interactive_tx && not (named c.tx_live_device), interactive_without_device)
      ∷ (c.interactive_tx && (named c.tx_wav || c.exit_after_tx_script), interactive_with_script)
      ∷ []

  -- `__post_init__`; `none` is a configuration that is accepted.
  unfoldable pub config_error : Option ConfigError
  unfolding first_error role_guards receive_guards beep_guards recording_guards display_guards
      key_guards tx_guards
  config_error = first_error (
      role_guards
      ++ (receive_guards
          ++ (beep_guards ++ (recording_guards ++ (display_guards ++ (key_guards ++ tx_guards))))))
