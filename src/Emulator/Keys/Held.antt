-- ===== src/Emulator/Keys/Held.antt =====
-- A key that an operator presses and releases.
use ip_commandmic.Prelude.{
  ℕ, ◌<◌, ◌≡◌, refl, arith, [], ◌∷◌, Text, codes, Bool, true, false, not, ◌&&◌, ◌||◌, ◌=?◌, Option,
  none, some, Bool-cases, inl, inr, bit_or,
}
use ip_commandmic.Errors.{ok}
use ip_commandmic.Controls.{key_neutral_value, normalize_button_name, key_wire_value}
use ip_commandmic.Controls.Laws.{IsKeyValue, key_wire_value-IsKeyValue, IsKeyValue-lt, press-base}
use ip_commandmic.Protocol.Frame.RoundTrip.{IsSendable, build_frame-ok}
use ip_commandmic.Protocol.Encode.{encode_key_state}
use ip_commandmic.Emulator.Actions.{sends, sleeps, audits}
use ip_commandmic.Emulator.Frames.{built}
use ip_commandmic.Emulator.Keys.{press_interactive_key, release_interactive_key}

one-IsSendable : (v : ℕ) → v < 256 → IsSendable 0x01 0x01 (v ∷ []) 0xF3
one-IsSendable v h = record {
  start = inl refl;
  class_byte = omega arith;
  command_byte = omega arith;
  short = omega arith;
  bytes = (h, tt);
}

encoded :
    (button : Option Text) (action : Text) (gate : Bool) (v : ℕ)
    → key_wire_value button action gate ≡ ok v
    → v < 256
    → encode_key_state button action gate ≡ ok (built 0x01 0x01 (v ∷ []))
encoded button action gate v e h =
    unfold encode_key_state in rw e (build_frame-ok (one-IsSendable v h))

module _ (button : Text) (gate : Bool) (v : ℕ)
    (pressed : key_wire_value (some button) (codes "press") gate ≡ ok v) where
  k : IsKeyValue button (codes "press") gate v
  k = key_wire_value-IsKeyValue button (codes "press") gate v pressed

  -- The gate that a release of the held key is given.
  abbrev release_gate : Bool
  release_gate = gate || (button =? codes "emergency")

  gate_open : ((normalize_button_name button =? codes "emergency") && not release_gate) ≡ false
  gate_open = elim (Bool-cases (normalize_button_name button =? codes "emergency")) [
    | inr e ↦ rw e refl
    | inl e ↦ rw (k.gate e) (ground arith)
  ]

  release_value :
      key_wire_value (some button) (codes "release") release_gate ≡ ok (bit_or k.base 0x80)
  release_value = unfold key_wire_value in rw (k.found, gate_open) refl

  release_value-lt : bit_or k.base 0x80 < 256
  release_value-lt = IsKeyValue-lt button (codes "release") release_gate (bit_or k.base 0x80) (
      key_wire_value-IsKeyValue button (codes "release") release_gate (bit_or k.base 0x80)
        release_value)

  neutral_value : key_wire_value none (codes "neutral") false ≡ ok key_neutral_value
  neutral_value = unfold key_wire_value in refl

  -- A button that a press with some gate has a wire value for: the press, while no key is held and
  -- the connection is there, holds the button and sends that value; and then a release with the
  -- same gate, whatever button it names, holds no key any more and sends the value with the
  -- release bit, and the neutral value.
  pub press-release :
      (named : Text)
      → (press_interactive_key true button gate none ≡ (
        some button,
        (sends (built 0x01 0x01 (v ∷ []) ∷ []) ∷ audits "mic_key_asserted" ∷ []),
        none,
      ))
        × (release_interactive_key true named gate (some button) ≡ (
          none,
          (sends (built 0x01 0x01 (bit_or v 0x80 ∷ []) ∷ [])
              ∷ sleeps 2000
              ∷ sends (built 0x01 0x01 (key_neutral_value ∷ []) ∷ [])
              ∷ audits "mic_key_released"
              ∷ []),
          none,
        ))
  press-release named = (
    unfold press_interactive_key in
        rw
          (encoded (some button) (codes "press") gate v pressed
            (IsKeyValue-lt button (codes "press") gate v k))
          refl,
    unfold release_interactive_key in
        rw
          (
            encoded (some button) (codes "release") release_gate (bit_or k.base 0x80) release_value
                release_value-lt,
            encoded none (codes "neutral") false key_neutral_value neutral_value (omega arith),
            base_value,
          )
          refl,
  )
    where
      base_value : v ≡ k.base
      base_value = press-base button gate v k
