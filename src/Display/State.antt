-- ===== src/Display/State.antt =====
-- `DisplayStateModel` of src/ip_commandmic/display.py: the tracker of display transactions.
pub mod Laws
pub mod Steps
pub mod Valid
use Prim.Native.String.{String}
use text.Mathlib.Text.{◌==◌ as str_eq}
use ip_commandmic.Prelude.{
  ℕ, ◌+◌, if◌then◌else◌, List, [], ◌∷◌, ◌++◌, Bool, true, false, not, ◌||◌, Option, none, some,
  from_hex, Bytes,
}
use ip_commandmic.Models.{
  Value, chars, str, int, Metadata, get, Message, MessageKind, display_sync, display_update,
  display_ack,
}
use ip_commandmic.Display.Buffer.{DisplayBuffer, DisplayError, Displayed, ok, err, display_buffer}

pub data DisplayPhase : Type 0 where
  idle before_buffer buffer_received after_buffer acknowledged : DisplayPhase

-- `DisplayPhase.value`
unfoldable pub phase_value : DisplayPhase → String
phase_value idle = "idle"
phase_value before_buffer = "before_buffer"
phase_value buffer_received = "buffer_received"
phase_value after_buffer = "after_buffer"
phase_value acknowledged = "acknowledged"

pub data DisplayEventKind : Type 0 where
  sync_before buffer_updated sync_after acknowledged : DisplayEventKind

-- The warnings, with the phase that they name.
pub data DisplayWarning : Type 0 where
  restarted_during after_marker_during buffer_during ack_during : DisplayPhase → DisplayWarning

pub record DisplayEvent : Type 0 where
  pub kind : DisplayEventKind
  pub phase : DisplayPhase
  pub revision : ℕ
  pub buffer : Option DisplayBuffer
  pub warning : Option DisplayWarning

pub record DisplayStateModel : Type 0 where
  pub current : Option DisplayBuffer
  pub phase : DisplayPhase
  pub revision : ℕ
  pub last_warning : Option DisplayWarning

abbrev pub initial : DisplayStateModel
initial = record { current = none; phase = idle; revision = 0; last_warning = none }

-- What `consume` returns: `None`, an event, or the ValueError of a payload that is no buffer.
pub data Consumed : Type 0 where
  ignored : Consumed
  event : DisplayEvent → Consumed
  invalid_payload : Consumed

abbrev is_before : DisplayPhase → Bool
is_before before_buffer = true
is_before _ = false

abbrev is_received : DisplayPhase → Bool
is_received buffer_received = true
is_received _ = false

abbrev is_after : DisplayPhase → Bool
is_after after_buffer = true
is_after _ = false

-- The part that every accepted message shares, after the fields were assigned.
abbrev report :
    DisplayStateModel
    → DisplayEventKind
    → Option DisplayBuffer
    → Option DisplayWarning
    → DisplayStateModel × Consumed
report s kind shown warning = (
  record s { last_warning = warning },
  event (record {
    kind = kind;
    phase = s.phase;
    revision = s.revision;
    buffer = shown;
    warning = warning;
  }),
)

consume_before : DisplayStateModel → DisplayStateModel × Consumed
consume_before s =
    let warning : Option DisplayWarning =
      if is_before s.phase || is_received s.phase then some (restarted_during s.phase) else none in
    report (record s { phase = before_buffer }) sync_before none warning

consume_after : DisplayStateModel → DisplayStateModel × Consumed
consume_after s =
    let warning : Option DisplayWarning =
      if not (is_received s.phase) then some (after_marker_during s.phase) else none in
    report (record s { phase = after_buffer }) sync_after none warning

consume_sync : DisplayStateModel → Option Value → DisplayStateModel × Consumed
unfolding consume_before consume_after
consume_sync s (some (str sync_phase)) =
    if str_eq sync_phase "before_buffer"
    then consume_before s
    else if str_eq sync_phase "after_buffer"
    then consume_after s
    else (s, ignored)
consume_sync s _ = (s, ignored)

-- The buffer of a payload's hexadecimal text.
payload_buffer : Option Bytes → Displayed DisplayBuffer
unfolding display_buffer
payload_buffer none = err DisplayError.bad_payload_size
payload_buffer (some raw) = display_buffer raw

take_buffer : DisplayStateModel → Displayed DisplayBuffer → DisplayStateModel × Consumed
take_buffer s (err e) = (s, invalid_payload)
take_buffer s (ok d) =
    let warning : Option DisplayWarning =
      if not (is_before s.phase) then some (buffer_during s.phase) else none in
    report (record s { current = some d; revision = s.revision + 1; phase = buffer_received })
      buffer_updated (some d) warning

consume_update : DisplayStateModel → Option Value → DisplayStateModel × Consumed
unfolding take_buffer payload_buffer from_hex
consume_update s (some (chars payload_hex)) = take_buffer s (payload_buffer (from_hex payload_hex))
consume_update s _ = (s, ignored)

consume_ack : DisplayStateModel → DisplayStateModel × Consumed
consume_ack s =
    let warning : Option DisplayWarning =
      if not (is_after s.phase) then some (ack_during s.phase) else none in
    report (record s { phase = acknowledged }) acknowledged none warning

unfoldable pub dispatch : DisplayStateModel → MessageKind → Metadata → DisplayStateModel × Consumed
unfolding consume_sync consume_update consume_ack get
dispatch s display_sync metadata = consume_sync s (get metadata "display_sync_phase")
dispatch s display_update metadata = consume_update s (get metadata "payload_hex")
dispatch s display_ack metadata = consume_ack s
dispatch s _ metadata = (s, ignored)

unfoldable pub consume : DisplayStateModel → Message → DisplayStateModel × Consumed
unfolding dispatch
consume s message = dispatch s message.kind message.metadata

-- The states after each of some messages.
unfoldable pub consume_all : DisplayStateModel → List Message → DisplayStateModel
unfolding consume
consume_all s [] = s
consume_all s (message ∷ rest) = consume_all (consume s message).0 rest
