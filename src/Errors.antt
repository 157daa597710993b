-- ===== src/Errors.antt =====
-- The `ValueError`s of src/ip_commandmic/controls.py and of the encoders of
-- src/ip_commandmic/protocol.py, one constructor for each message.

-- What an encoder returns, or the `ValueError` that it raises.
pub data EncodeError : Type 0 where
  bad_start_byte bad_class_or_command payload_too_large : EncodeError
  neutral_names_button bad_key_action unknown_button emergency_gate : EncodeError
  bad_status_led bad_backlight_state bad_mic_gain bad_ptt_action bad_power_action : EncodeError
  bad_audio_path : EncodeError

pub data Encoded {ℓ} (A : Type ℓ) : Type ℓ where
  ok : A → Encoded A
  err : EncodeError → Encoded A

infixl 5 ◌>>=◌
abbrev pub ◌>>=◌ {ℓ κ} : {A : Type ℓ} {B : Type κ} → Encoded A → (A → Encoded B) → Encoded B
ok a >>= f = f a
err e >>= f = err e
