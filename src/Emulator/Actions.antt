-- ===== src/Emulator/Actions.antt =====
-- What a handler of src/ip_commandmic/emulator.py does to the outside, in order. `none` in place of
-- actions is a Python exception. Times are in microseconds.
pub mod Sent
pub mod Wire
use Prim.Native.String.{String}
use ip_commandmic.Prelude.{ℕ, Bool, List, [], ◌∷◌, ◌++◌, Bytes, Text, Option, none, some}
use ip_commandmic.Display.Buffer.{DisplayBuffer, Displayed, ok, err, from_primary_text}
use ip_commandmic.Errors.{Encoded}
use ip_commandmic.Errors
use ip_commandmic.Protocol.Encode.{encode_display_transaction}

-- `sends` is `_send_frames`, `audits` an entry of the audit log, by its event,
-- `plays` a call of the UDP protocol that sends audio, and `sets_gate` its `set_radio_audio_gate`.
pub data Action : Type 0 where
  sends : List Bytes → Action
  audits : String → Action
  sleeps : ℕ → Action
  restores_after : ℕ → Action
  begins_task cancels_task plays : String → Action
  sets_gate : Bool → Action
  sends_boot : Action
  completes_display_test closes : Action

infixl 5 ◌>>=◌
abbrev pub ◌>>=◌ {ℓ κ} : {A : Type ℓ} {B : Type κ} → Option A → (A → Option B) → Option B
none >>= f = none
some a >>= f = f a

-- The three frames of a transaction.
transaction_frames : Encoded (Bytes × Bytes × Bytes) → Option (List Bytes)
transaction_frames (Errors.ok (before, buffer, after)) = some (before ∷ buffer ∷ after ∷ [])
transaction_frames (Errors.err e) = none

encoded_display : Displayed DisplayBuffer → Option (List Bytes)
unfolding transaction_frames encode_display_transaction
encoded_display (ok display) = transaction_frames (encode_display_transaction display)
encoded_display (err e) = none

unfoldable pub display_frames : Text → Bytes → Option (List Bytes)
unfolding encoded_display from_primary_text
display_frames text tail = encoded_display (from_primary_text text tail)

-- `_send_display`
unfoldable pub send_display : Text → Bytes → Option (List Action)
unfolding display_frames
send_display text tail = do frames ← display_frames text tail; some (sends frames ∷ [])

-- All the bytes that some actions write to the connection, frame by frame.
abbrev pub sent : List Action → List Bytes
sent [] = []
sent (sends frames ∷ actions) = frames ++ sent actions
sent (audits event ∷ actions) = sent actions
sent (sleeps time ∷ actions) = sent actions
sent (restores_after time ∷ actions) = sent actions
sent (begins_task name ∷ actions) = sent actions
sent (cancels_task name ∷ actions) = sent actions
sent (plays source ∷ actions) = sent actions
sent (sets_gate active ∷ actions) = sent actions
sent (sends_boot ∷ actions) = sent actions
sent (completes_display_test ∷ actions) = sent actions
sent (closes ∷ actions) = sent actions
