-- ===== src/Emulator/Panel.antt =====
-- The channel, the zone and the volume that the emulated radio of src/ip_commandmic/emulator.py shows,
-- and `_handle_verified_key`.
pub mod Shown
use Prim.Native.String.{String}
use ip_commandmic.Prelude.{
  ℕ, zero, suc, ◌+◌, ◌-◌, ◌/◌, ◌%◌, ◌==◌, ltb, if◌then◌else◌, min, List, [], ◌∷◌, ◌++◌, Bytes, Text,
  codes, Bool, true, false, not, ◌=?◌, Option, none, some, get_elem?,
}
use text.Mathlib.Text.{◌==◌ as str_eq}
use ip_commandmic.Models.{Message, Metadata, Value, str, chars, get}
use ip_commandmic.Emulator.Actions.{
  Action, sends, audits, restores_after, ◌>>=◌, display_frames, send_display,
}
use ip_commandmic.Emulator.Frames.{display_suffix}

pub record Panel : Type 0 where
  pub channel_index : ℕ
  pub zone_index : ℕ
  pub volume_level : ℕ

-- The values of `__init__`.
abbrev pub fresh_panel : Panel
fresh_panel = record { channel_index = 0; zone_index = 0; volume_level = 1 }

-- `_current_channel_text`; `none` is the IndexError of a channel out of range.
unfoldable pub current_channel_text : Panel → Option Text
current_channel_text panel =
    if panel.zone_index == 1
    then some (codes "ZONE TWO")
    else get_elem? (codes "CHANNEL1" ∷ codes "CHANNEL2" ∷ []) panel.channel_index

-- str(n), from its last digit; one round for each digit, which are no more than n + 1.
digits_before : ℕ → ℕ → Text → Text
digits_before zero n later = later
digits_before (suc fuel) n later =
    let more = digits_before fuel (n / 10) ((b'0' + n % 10) ∷ later) in
    if ltb n 10 then (b'0' + n) ∷ later else more

unfoldable pub decimal : ℕ → Text
unfolding digits_before
decimal n = digits_before (n + 1) n []

-- A format's `>2`.
right_two : Text → Text
right_two [] = codes "  "
right_two (c ∷ []) = b' ' ∷ c ∷ []
right_two (c ∷ d ∷ s) = c ∷ d ∷ s

unfoldable pub volume_text : ℕ → Text
unfolding decimal right_two
volume_text level = codes " VOL " ++ right_two (decimal level)

unfoldable pub zone_text : ℕ → Text
unfolding decimal
zone_text index = codes "ZONE " ++ decimal (index + 1)

-- The panel changed, and its new text shown, for a while where a delay is given.
show_now : Panel → Option Text → Option (Panel × List Action)
unfolding send_display
show_now panel shown = do
  text ← shown
  actions ← send_display text display_suffix
  some (panel, actions)

show_for : ℕ → Panel → Text → Option (Panel × List Action)
unfolding send_display
show_for delay panel text = do
  actions ← send_display text display_suffix
  some (panel, actions ++ restores_after delay ∷ [])

-- The press of a button, by its name.
unfoldable pub press_button : Panel → Text → Option (Panel × List Action)
unfolding show_now show_for current_channel_text zone_text volume_text
press_button panel button =
    if button =? codes "up"
    then (let next = record panel { channel_index = (panel.channel_index + 1) % 2 } in
        show_now next (current_channel_text next))
    else if button =? codes "down"
    then (let next = record panel { channel_index = (panel.channel_index + 2 - 1) % 2 } in
        show_now next (current_channel_text next))
    else if button =? codes "right"
    then (let next = record panel { zone_index = (panel.zone_index + 1) % 2; channel_index = 0 } in
        show_for 2250000 next (zone_text next.zone_index))
    else if button =? codes "left"
    then (let next = record panel {
      zone_index = (panel.zone_index + 2 - 1) % 2;
      channel_index = 0;
    } in
        show_for 2250000 next (zone_text next.zone_index))
    else if button =? codes "volume_up"
    then (let next = record panel { volume_level = min 32 (panel.volume_level + 1) } in
        show_for 1000000 next (volume_text next.volume_level))
    else if button =? codes "volume_down"
    then (let next = record panel { volume_level = panel.volume_level - 1 } in
        show_for 1000000 next (volume_text next.volume_level))
    else some (panel, audits "withheld_key_response" ∷ [])

-- Whether the metadata has the action "press".
is_press : Option Value → Bool
is_press (some (str action)) = str_eq action "press"
is_press _ = false

press_value : Panel → Option Value → Option (Panel × List Action)
unfolding press_button
press_value panel (some (chars button)) = press_button panel button
press_value panel _ = some (panel, audits "withheld_key_response" ∷ [])

-- `_handle_verified_key`, with the setting `automatic_key_responses`.
unfoldable pub handle_verified_key : Bool → Panel → Metadata → Option (Panel × List Action)
unfolding is_press press_value get
handle_verified_key automatic panel metadata =
    if not (is_press (get metadata "key_action"))
    then some (panel, [])
    else if not automatic
    then some (panel, audits "withheld_key_response" ∷ [])
    else press_value panel (get metadata "key_button")
