-- ===== src/Emulator/Keys.antt =====
-- The keys of the emulated microphone in src/ip_commandmic/emulator.py: the keys that an operator
-- holds, and the queue of key taps.
pub mod Held
use ip_commandmic.Prelude.{
  ℕ, ◌*◌, leb, if◌then◌else◌, List, [], ◌∷◌, ◌++◌, Bytes, Text, codes, Bool, false, not, ◌&&◌, ◌||◌,
  ◌=?◌, Option, none, some,
}
use ip_commandmic.Errors.{EncodeError, Encoded, ok, err}
use ip_commandmic.Protocol.Encode.{encode_key_state, encode_key_tap, encode_power_state}
use ip_commandmic.Emulator.Actions.{Action, sends, audits, sleeps}

-- What a call raises: a RuntimeError, or the ValueError of an encoder or of a hold time.
pub data KeyError : Type 0 where
  controls_not_ready already_held bad_hold : KeyError
  refused : EncodeError → KeyError

-- `_interactive_key` after a call, what the call did, and what it raised.
abbrev pub KeyDone : Type 0
KeyDone = Option Text × List Action × Option KeyError

asserted : Text → Option Text → Encoded Bytes → KeyDone
asserted button held (err e) = (held, [], some (refused e))
asserted button held (ok frame) =
    (some button, sends (frame ∷ []) ∷ audits "mic_key_asserted" ∷ [], none)

-- The press of a key while another call left one held or not.
press_held : Text → Bool → Option Text → KeyDone
unfolding asserted encode_key_state
press_held button allow_emergency none =
    asserted button none (encode_key_state (some button) (codes "press") allow_emergency)
press_held button allow_emergency (some held) =
    if held =? button then (some held, [], none) else (some held, [], some already_held)

-- `press_interactive_key`: `ready` is whether there is a writer that is not closing.
unfoldable pub press_interactive_key : Bool → Text → Bool → Option Text → KeyDone
unfolding press_held
press_interactive_key ready button allow_emergency held =
    if not ready
    then (held, [], some controls_not_ready)
    else press_held button allow_emergency held

key_released : Encoded Bytes → Encoded Bytes → KeyDone
key_released (err e) neutral = (none, [], some (refused e))
key_released (ok release) (err e) = (none, [], some (refused e))
key_released (ok release) (ok neutral) = (
  none,
  sends (release ∷ []) ∷ sleeps 2000 ∷ sends (neutral ∷ []) ∷ audits "mic_key_released" ∷ [],
  none,
)

-- `release_interactive_key`; the button it is given is not read.
unfoldable pub release_interactive_key : Bool → Text → Bool → Option Text → KeyDone
unfolding key_released encode_key_state
release_interactive_key ready button allow_emergency none = (none, [], none)
release_interactive_key ready button allow_emergency (some held) =
    if not ready
    then (none, [], some controls_not_ready)
    else key_released
        (encode_key_state (some held) (codes "release")
          (allow_emergency || (held =? codes "emergency")))
        (encode_key_state none (codes "neutral") false)

-- A queued tap: the button, the hold time in thousandths of a second, and the gate.
pub record Tap : Type 0 where
  pub button : Text
  pub hold : ℕ
  pub allow_emergency : Bool

hold_or : ℕ → Option ℕ → ℕ
hold_or default none = default
hold_or default (some hold) = hold

queued : List Tap → Tap → Encoded (Bytes × Bytes × Bytes) → List Tap × Option KeyError
queued taps tap (err e) = (taps, some (refused e))
queued taps tap (ok frames) =
    if not (leb 20 tap.hold && leb tap.hold 10000)
    then (taps, some bad_hold)
    else ((taps ++ tap ∷ []), none)

-- `queue_key_tap`, with the setting `mic_key_hold_seconds`.
unfoldable pub queue_key_tap : ℕ → Text → Option ℕ → Bool → List Tap → List Tap × Option KeyError
unfolding queued hold_or encode_key_tap
queue_key_tap default button hold allow_emergency taps =
    queued taps
      (record { button = button; hold = hold_or default hold; allow_emergency = allow_emergency })
      (encode_key_tap button allow_emergency)

-- `queue_power_tap`
unfoldable pub queue_power_tap : ℕ → List Tap → List Tap × Option KeyError
queue_power_tap hold taps = if not (leb 20 hold && leb hold 450) then (taps, some bad_hold) else (
  (taps ++ record { button = codes "power"; hold = hold; allow_emergency = false } ∷ []),
  none,
)

tap_actions : ℕ → Encoded (Bytes × Bytes × Bytes) → Option (List Action)
tap_actions hold (err e) = none
tap_actions hold (ok (press, release, neutral)) = some (
    sends (press ∷ [])
    ∷ sleeps (hold * 1000)
    ∷ sends (release ∷ [])
    ∷ sleeps 2000
    ∷ sends (neutral ∷ [])
    ∷ audits "mic_key_tap_completed"
    ∷ [])

power_actions : ℕ → Encoded Bytes → Encoded Bytes → Option (List Action)
power_actions hold (ok press) (ok release) = some (
    sends (press ∷ [])
    ∷ sleeps (hold * 1000)
    ∷ sends (release ∷ [])
    ∷ audits "mic_key_tap_completed"
    ∷ [])
power_actions hold _ _ = none

-- A round of `_mic_control_loop`; `none` where an encoder raises.
unfoldable pub perform_tap : Tap → Option (List Action)
unfolding tap_actions power_actions encode_key_tap encode_power_state
perform_tap tap =
    if tap.button =? codes "power"
    then power_actions tap.hold (encode_power_state (codes "press"))
        (encode_power_state (codes "release"))
    else tap_actions tap.hold (encode_key_tap tap.button tap.allow_emergency)
