-- ===== src/Emulator/Config.antt =====
-- `EmulatorConfig` of src/ip_commandmic/emulator.py and the errors of its `__post_init__`. A float setting is in
-- thousandths: milliseconds, millihertz, and thousandths of a decibel.

use ip_commandmic.Prelude.{ℕ, List, [], Text, codes, Bool, false, Option, none, some, ℤ, negsuc}

pub record EmulatorConfig : Type 0 where
  pub role : Text
  pub local_ip : Text
  pub peer_ip : Text
  pub port : ℕ
  pub listen : Bool
  pub reconnect_delay : ℕ
  pub read_timeout : ℕ
  pub enable_tx : Bool
  pub interactive_tx : Bool
  pub verified_startup : Bool
  pub voice_port : ℕ
  pub probe_source_port : ℕ
  pub source_port : Option ℕ
  pub enable_rx_audio : Bool
  pub rx_tone_hz : ℕ
  pub rx_level_dbfs : ℤ
  pub rx_tone_seconds : ℕ
  pub rx_wav : Option Text
  pub rx_open_only_seconds : Option ℕ
  pub key_beep : Option Text
  pub beep_level : ℕ
  pub record_mic_wav : Option Text
  pub mic_recording_max_seconds : ℕ
  pub record_radio_wav : Option Text
  pub radio_recording_max_seconds : ℕ
  pub play_radio_audio : Bool
  pub radio_jitter_packets : ℕ
  pub tx_tone_hz : ℕ
  pub tx_level_dbfs : ℤ
  pub tx_hold_seconds : ℕ
  pub tx_wav : Option Text
  pub tx_live_device : Option Text
  pub tx_device_buffer_ms : ℕ
  pub tx_capture_queue_packets : ℕ
  pub tx_start_delay_seconds : ℕ
  pub exit_after_tx_script : Bool
  pub mic_gain : ℕ
  pub backlight_state : Text
  pub startup_opening_text : Text
  pub startup_idle_text : Option Text
  pub startup_status_carousel : Bool
  pub automatic_key_responses : Bool
  pub automatic_ptt_responses : Bool
  pub experimental_mic_gain_companion : Option ℕ
  pub allow_experimental_gain_pair : Bool
  pub display_offset56_test : Bool
  pub display_offset56_low_bit_test : Bool
  pub display_offset56_rssi_ladder_test : Bool
  pub display_offset56_remaining_bits_test : Bool
  pub display_offset57_bit_scan : Bool
  pub display_offset58_bit_scan : Bool
  pub display_offset59_bit_scan : Bool
  pub display_offset59_low_all_visible_test : Bool
  pub display_offset60_bit_scan_all_visible : Bool
  pub display_offset61_bit_scan_all_visible : Bool
  pub display_offset62_bit_scan_all_visible : Bool
  pub display_offset63_bit_scan_all_visible : Bool
  pub display_offset64_bit_scan_all_visible : Bool
  pub display_offset65_bit_scan_all_visible : Bool
  pub display_offset66_bit_scan_all_visible : Bool
  pub display_offset67_bit_scan_all_visible : Bool
  pub display_offsets8_33_observed_probe : Bool
  pub display_character_blink_position_scan : Bool
  pub display_character_attribute_bit_scan : Bool
  pub status_led_observed_scan : Bool
  pub backlight_timeout_wake_test : Bool
  pub display_test_blank_text : Bool
  pub display_test_hold_seconds : ℕ
  pub mic_key_script : List Text
  pub mic_key_hold_seconds : ℕ
  pub mic_key_interval_seconds : ℕ
  pub mic_key_start_delay_seconds : ℕ
  pub exit_after_key_script : Bool

-- The defaults of the fields.
abbrev pub default_config : Text → Text → Text → EmulatorConfig
default_config role local_ip peer_ip = record {
  role = role;
  local_ip = local_ip;
  peer_ip = peer_ip;
  port = 52001;
  listen = false;
  reconnect_delay = 2000;
  read_timeout = 6000;
  enable_tx = false;
  interactive_tx = false;
  verified_startup = false;
  voice_port = 50000;
  probe_source_port = 52002;
  source_port = none;
  enable_rx_audio = false;
  rx_tone_hz = 1000000;
  rx_level_dbfs = negsuc 29999;
  rx_tone_seconds = 3000;
  rx_wav = none;
  rx_open_only_seconds = none;
  key_beep = none;
  beep_level = 3;
  record_mic_wav = none;
  mic_recording_max_seconds = 30000;
  record_radio_wav = none;
  radio_recording_max_seconds = 30000;
  play_radio_audio = false;
  radio_jitter_packets = 2;
  tx_tone_hz = 1000000;
  tx_level_dbfs = negsuc 29999;
  tx_hold_seconds = 3000;
  tx_wav = none;
  tx_live_device = none;
  tx_device_buffer_ms = 20;
  tx_capture_queue_packets = 1;
  tx_start_delay_seconds = 2000;
  exit_after_tx_script = false;
  mic_gain = 3;
  backlight_state = codes "on";
  startup_opening_text = [];
  startup_idle_text = some [];
  startup_status_carousel = false;
  automatic_key_responses = false;
  automatic_ptt_responses = false;
  experimental_mic_gain_companion = none;
  allow_experimental_gain_pair = false;
  display_offset56_test = false;
  display_offset56_low_bit_test = false;
  display_offset56_rssi_ladder_test = false;
  display_offset56_remaining_bits_test = false;
  display_offset57_bit_scan = false;
  display_offset58_bit_scan = false;
  display_offset59_bit_scan = false;
  display_offset59_low_all_visible_test = false;
  display_offset60_bit_scan_all_visible = false;
  display_offset61_bit_scan_all_visible = false;
  display_offset62_bit_scan_all_visible = false;
  display_offset63_bit_scan_all_visible = false;
  display_offset64_bit_scan_all_visible = false;
  display_offset65_bit_scan_all_visible = false;
  display_offset66_bit_scan_all_visible = false;
  display_offset67_bit_scan_all_visible = false;
  display_offsets8_33_observed_probe = false;
  display_character_blink_position_scan = false;
  display_character_attribute_bit_scan = false;
  status_led_observed_scan = false;
  backlight_timeout_wake_test = false;
  display_test_blank_text = false;
  display_test_hold_seconds = 4000;
  mic_key_script = [];
  mic_key_hold_seconds = 150;
  mic_key_interval_seconds = 250;
  mic_key_start_delay_seconds = 0;
  exit_after_key_script = false;
}

-- The ValueErrors, by the setting that they are about.
pub data ConfigError : Type 0 where
  bad_role bad_mic_gain bad_backlight_state bad_beep_level : ConfigError
  companion_not_allowed companion_without_radio bad_companion : ConfigError
  mic_without_listen rx_audio_without_radio : ConfigError
  bad_rx_tone_hz bad_rx_level bad_rx_tone_seconds rx_wav_without_audio : ConfigError
  rx_open_only_without_audio rx_open_only_with_wav bad_rx_open_only : ConfigError
  bad_key_beep key_beep_without_radio key_beep_with_rx_audio key_beep_with_recording_or_tx :
      ConfigError
  record_mic_without_radio record_mic_with_rx_audio record_mic_exists bad_mic_recording_max :
      ConfigError
  record_radio_without_mic record_radio_exists bad_radio_recording_max : ConfigError
  play_radio_without_mic bad_radio_jitter : ConfigError
  several_display_tests display_test_without_radio display_test_with_audio : ConfigError
  blank_text_without_test bad_display_test_hold : ConfigError
  key_script_without_mic bad_key_script bad_key_hold bad_key_interval bad_key_start_delay :
      ConfigError
  exit_without_key_script several_tx_modes tx_without_mic tx_with_key_script : ConfigError
  bad_tx_tone_hz bad_tx_level bad_tx_hold bad_tx_start_delay tx_wav_with_device bad_tx_wav :
      ConfigError
  bad_tx_device_buffer bad_tx_capture_queue tx_setting_without_tx : ConfigError
  interactive_without_device interactive_with_script : ConfigError
