-- ===== src/Emulator/Scans/Sent.antt =====
-- The diagnostics of the emulated radio raise nothing and send frames only.
use Prim.Native.String.{String}
use ip_commandmic.Prelude.{
  ℕ, ◌≡◌, arith, ◌==◌, List, [], ◌∷◌, Bytes, Text, Bool, true, false, ◌&&◌, Option, none, some,
  length, ==_iff,
}
use ip_commandmic.Protocol.Stream.Frames.{IsWire}
use ip_commandmic.Emulator.Actions.{sent, display_frames}
use ip_commandmic.Emulator.Actions.Wire.{
  IsSent, IsText, IsTail, IsSent-append, with_frames, with_actions, with_text, with_tail,
  display_frames-IsFramed, all_bytes, all_bytes→IsBytes, All-append,
}
use ip_commandmic.Emulator.Frames.{display_suffix}
use ip_commandmic.Emulator.Config.{EmulatorConfig}
use ip_commandmic.Emulator.Panel.{Panel, current_channel_text}
use ip_commandmic.Emulator.Panel.Shown.{IsPanel, current_channel_text-IsText, suffix-IsTail}
use ip_commandmic.Emulator.Scans.{restored, states_shown, run_scan}

-- The test of the tails of some values.
unfoldable pub tail_ok : Option Bytes → Bool
tail_ok none = false
tail_ok (some tail) = (length tail == 60) && all_bytes tail

unfoldable pub tails_ok {ℓ} : {A : Type ℓ} → (A → Option Bytes) → List A → Bool
unfolding tail_ok
tails_ok tail_of [] = true
tails_ok tail_of (value ∷ values) = tail_ok (tail_of value) && tails_ok tail_of values

checked-IsTail : (o : Option Bytes) → tail_ok o ≡ true → IsTail o
unfolding tail_ok
checked-IsTail none h = absurd (never h)
  where
    never : false ≡ true → ⊥
    never e = cc
checked-IsTail (some tail) h =
    ((==_iff (length tail) 60).0 (ground arith), all_bytes→IsBytes tail (ground arith))

module _ {A : Type 0} (hold : ℕ) (state : String) (t : Text) (shown : IsText (some t))
    (tail_of : A → Option Bytes) where
  states_shown-IsSent :
      (values : List A)
      → tails_ok tail_of values ≡ true
      → IsSent (states_shown hold state t tail_of values)
  unfolding states_shown tails_ok
  states_shown-IsSent [] h = tt
  states_shown-IsSent (value ∷ values) h =
      with_tail (tail_of value) _ (checked-IsTail (tail_of value) (ground arith)) (λ tail is_tail.
        with_frames (display_frames t tail) _ (display_frames-IsFramed t tail shown is_tail)
          (λ frames framed.
            with_actions (states_shown hold state t tail_of values) _
              (states_shown-IsSent values (ground arith))
              (λ later is_sent. All-append IsWire frames (sent later) framed is_sent)))

module _ (panel : Panel) (ranges : IsPanel panel) where
  pub restored-IsSent : (complete : String) → IsSent (restored panel complete)
  unfolding restored
  restored-IsSent complete =
      with_text (current_channel_text panel) _ (current_channel_text-IsText panel ranges)
        (λ t shown.
          with_frames (display_frames t display_suffix) _
            (display_frames-IsFramed t display_suffix shown suffix-IsTail)
            (λ frames framed. All-append IsWire frames [] framed tt))

  pub run_scan-IsSent :
      {A : Type 0} (config : EmulatorConfig) (state complete : String) (o : Option Text)
      (tail_of : A → Option Bytes) (values : List A)
      → IsText o
      → tails_ok tail_of values ≡ true
      → IsSent (run_scan config panel state complete o tail_of values)
  unfolding run_scan
  run_scan-IsSent config state complete o tail_of values h k = with_text o _ h (λ t shown.
      with_actions (states_shown config.display_test_hold_seconds state t tail_of values) _
        (states_shown-IsSent config.display_test_hold_seconds state t shown tail_of values k)
        (λ steps steps_sent.
          with_actions (restored panel complete) _ (restored-IsSent complete)
            (λ last last_sent. IsSent-append steps last steps_sent last_sent)))
