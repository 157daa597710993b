-- ===== src/Emulator/Frames.antt =====
-- The constant frames of src/ip_commandmic/emulator.py, and `radio_stable_sync`.
pub mod Wire
use ip_commandmic.Prelude.{
  ℕ, ◌+◌, leb, if◌then◌else◌, List, [], ◌∷◌, ◌++◌, Bytes, Text, codes, Bool, not, ◌&&◌, Option,
  none, some, one_of, replicate, drop, take, map, concat,
}
use ip_commandmic.Errors.{Encoded, ok, err}
use ip_commandmic.Protocol.Frame.{frame_of}
use ip_commandmic.Protocol.Encode.{default_start, encode_backlight_state}

-- `build_frame` of arguments in its ranges, where it raises nothing.
abbrev pub built : ℕ → ℕ → Bytes → Bytes
built message_class command payload = frame_of message_class command payload default_start

unfoldable pub radio_startup_hello : Bytes
unfolding frame_of
radio_startup_hello = built 0x05 0x05 (0x01 ∷ [])

unfoldable pub radio_startup_ready : Bytes
unfolding frame_of
radio_startup_ready = built 0x05 0x01 (0x01 ∷ [])

unfoldable pub radio_probe_head : List Bytes
unfolding frame_of
radio_probe_head =
    built 0x02 0x06 (0x01 ∷ replicate 3 0)
    ∷ frame_of 0x05 0x03 (0x01 ∷ []) 0xF5
    ∷ built 0x02 0x0B (0x02 ∷ [])
    ∷ built 0x01 0x04 (replicate 4 0)
    ∷ []

unfoldable pub radio_probe_tail : List Bytes
unfolding frame_of
radio_probe_tail =
    built 0x01 0x08 (0x01 ∷ [])
    ∷ built 0x02 0x07 (0x02 ∷ [])
    ∷ (0xF5 ∷ 0x41 ∷ 0x71 ∷ 0xEE ∷ 0x05 ∷ 0x04 ∷ 0x01 ∷ 0x28 ∷ 0x95 ∷ 0xFD ∷ [])
    ∷ []

unfoldable pub radio_stable_frames : List Bytes
unfolding frame_of
radio_stable_frames =
    built 0x02 0x06 (0x01 ∷ replicate 3 0)
    ∷ built 0x02 0x0B (0x02 ∷ [])
    ∷ built 0x01 0x04 (replicate 4 0)
    ∷ built 0x01 0x08 (0x01 ∷ [])
    ∷ built 0x02 0x02 (0x00 ∷ [])
    ∷ built 0x06 0x09 (replicate 32 0)
    ∷ built 0x06 0x0A (0x7C ∷ 0x70 ∷ 0x60 ∷ 0x50 ∷ 0x42 ∷ 0x3B ∷ 0x34 ∷ 0x2D ∷ 0x26 ∷ 0x20 ∷ [])
    ∷ built 0x02 0x0D (0x00 ∷ 0x04 ∷ 0x01 ∷ [])
    ∷ built 0x02 0x0E (0x03 ∷ [])
    ∷ built 0x02 0x0E (0x04 ∷ [])
    ∷ built 0x02 0x01 (0xFF ∷ [])
    ∷ []

encoded_some : Encoded Bytes → Option Bytes
encoded_some (ok frame) = some frame
encoded_some (err e) = none

-- The sync with the frames of the backlight and of the gain pair put in.
sync_with : ℕ → ℕ → Option Bytes → Option (List Bytes)
unfolding radio_stable_frames frame_of
sync_with mic_gain companion none = none
sync_with mic_gain companion (some backlight) = some (
    take 1 radio_stable_frames
    ++ (backlight
        ∷ (take 6 (drop 2 radio_stable_frames)
            ++ (built 0x02 0x0E (mic_gain ∷ [])
                ∷ built 0x02 0x0E (companion ∷ [])
                ∷ drop 10 radio_stable_frames))))

abbrev pub companion_of : ℕ → Option ℕ → ℕ
companion_of mic_gain none = mic_gain + 1
companion_of mic_gain (some companion) = companion

abbrev pub backlight_states : List Text
backlight_states = codes "off" ∷ codes "dim" ∷ codes "on" ∷ []

-- `radio_stable_sync`; `none` is its ValueError.
unfoldable pub radio_stable_sync : ℕ → Option ℕ → Text → Option (List Bytes)
unfolding sync_with encoded_some encode_backlight_state
radio_stable_sync mic_gain companion_value backlight_state =
    if not (leb 1 mic_gain && leb mic_gain 5)
    then none
    else if not (
        leb 1 (companion_of mic_gain companion_value)
        && leb (companion_of mic_gain companion_value) 6)
    then none
    else if not (one_of backlight_state backlight_states)
    then none
    else sync_with mic_gain (companion_of mic_gain companion_value)
        (encoded_some (encode_backlight_state backlight_state))

unfoldable pub radio_status_carousel : List Bytes
unfolding frame_of
radio_status_carousel =
    map (λ value. built 0x02 0x02 (value ∷ []))
      (0x02 ∷ 0x06 ∷ 0x04 ∷ 0x00 ∷ 0x02 ∷ 0x06 ∷ 0x04 ∷ 0x00 ∷ [])

unfoldable pub display_after : Bytes
unfolding frame_of
display_after = built 0x02 0x08 (0x00 ∷ 0x44 ∷ [])

abbrev pub display_suffix : Bytes
display_suffix = replicate 48 0 ++ (0x88 ∷ replicate 11 0)

abbrev pub radio_rtp_sequence : ℕ
radio_rtp_sequence = 0xC9E7

abbrev pub radio_rtp_timestamp : ℕ
radio_rtp_timestamp = 0x462E7834

abbrev pub radio_rtp_ssrc : ℕ
radio_rtp_ssrc = 0xB1947EF9

abbrev pub radio_boot_rtp : Bytes
radio_boot_rtp =
    0x80
    ∷ 0x7D
    ∷ 0xC9
    ∷ 0xE6
    ∷ 0x46
    ∷ 0x2E
    ∷ 0x77
    ∷ 0x94
    ∷ 0xB1
    ∷ 0x94
    ∷ 0x7E
    ∷ 0xF9
    ∷ replicate 320 0

abbrev pub mic_rtp_ssrc : ℕ
mic_rtp_ssrc = 0x7069C2CC

abbrev pub mic_boot_rtp : Bytes
mic_boot_rtp =
    0x80
    ∷ 0x7D
    ∷ 0x08
    ∷ 0xF1
    ∷ 0x4D
    ∷ 0x5A
    ∷ 0x65
    ∷ 0x9C
    ∷ 0x70
    ∷ 0x69
    ∷ 0xC2
    ∷ 0xCC
    ∷ replicate 320 0

unfoldable pub radio_audio_open : Bytes
unfolding frame_of
radio_audio_open = built 0x01 0x04 (0x01 ∷ replicate 3 0)

unfoldable pub radio_audio_close : Bytes
unfolding frame_of
radio_audio_close = built 0x01 0x04 (replicate 4 0)

unfoldable pub radio_audio_status_open : Bytes
unfolding frame_of
radio_audio_status_open = built 0x02 0x02 (0x04 ∷ [])

unfoldable pub radio_audio_status_closed : Bytes
unfolding frame_of
radio_audio_status_closed = built 0x02 0x02 (0x00 ∷ [])

unfoldable pub radio_tx_active : Bytes
unfolding frame_of
radio_tx_active = built 0x01 0x04 (0x08 ∷ replicate 3 0)

unfoldable pub radio_tx_status_active : Bytes
unfolding frame_of
radio_tx_status_active = built 0x02 0x02 (0x02 ∷ [])

unfoldable pub mic_ptt_down : Bytes
unfolding frame_of
mic_ptt_down = built 0x01 0x00 (0x01 ∷ [])

unfoldable pub mic_ptt_up : Bytes
unfolding frame_of
mic_ptt_up = built 0x01 0x00 (0x00 ∷ [])

unfoldable pub mic_startup_sync : List Bytes
unfolding frame_of
mic_startup_sync =
    built 0x01 0x0A (0x00 ∷ [])
    ∷ built 0x01 0x00 (0x00 ∷ [])
    ∷ built 0x01 0x01 (0x7F ∷ [])
    ∷ built 0x01 0x01 (0x1F ∷ [])
    ∷ built 0x05 0x06 (0x00 ∷ [])
    ∷ []

abbrev pub synthetic_mic_mac : Bytes
synthetic_mic_mac = 0x02 ∷ 0x00 ∷ 0x00 ∷ 0x00 ∷ 0x00 ∷ 0x01 ∷ []

abbrev pub identity_payload : Bytes
identity_payload = concat (
    (0x01 ∷ 0x01 ∷ 0x01 ∷ 0xFF ∷ 0xFF ∷ 0xFF ∷ 0xFF ∷ 0x60 ∷ 0xCC ∷ [])
    ∷ (0x49 ∷ 0x63 ∷ 0x6F ∷ 0x6D ∷ 0x20 ∷ 0x49 ∷ 0x6E ∷ 0x63 ∷ 0x01 ∷ [])
    ∷ synthetic_mic_mac
    ∷ (0x5A ∷ 0x68 ∷ [])
    ∷ [])

unfoldable pub mic_identity : Bytes
unfolding frame_of
mic_identity = built 0x05 0x02 identity_payload

unfoldable pub mic_probe_response : List Bytes
unfolding frame_of
mic_probe_response =
    (0xF5 ∷ 0x41 ∷ 0x71 ∷ 0xEE ∷ 0x05 ∷ 0x03 ∷ 0x01 ∷ 0x18 ∷ 0x97 ∷ 0xFD ∷ [])
    ∷ frame_of 0x05 0x04 (0x01 ∷ []) 0xF5
    ∷ []

unfoldable pub mic_display_ack : Bytes
unfolding frame_of
mic_display_ack = built 0x02 0x09 (0x01 ∷ [])
