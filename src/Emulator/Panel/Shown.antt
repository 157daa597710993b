-- ===== src/Emulator/Panel/Shown.antt =====
-- What the panel of the emulated radio can reach and show.
use ip_commandmic.Prelude.{
  ℕ, zero, suc, ◌+◌, ◌-◌, ◌%◌, ◌≤◌, ◌<◌, ◌≡◌, refl, arith, ltb, leb, ◌==◌, if◌then◌else◌, min, List,
  [], ◌∷◌, ◌++◌, Text, codes, All, Bool, true, false, not, ◌&&◌, ◌=?◌, Option, none, some, length,
  get_elem?, append-nil, Bool-cases, ==_iff, inl, inr,
}
use ip_commandmic.Display.Buffer.Primary.{IsShown}
use ip_commandmic.Models.{Metadata, Value, chars, null, get}
use ip_commandmic.Protocol.Stream.Frames.{IsWire}
use ip_commandmic.Emulator.Actions.{
  Action, sends, audits, restores_after, sent, send_display, display_frames, ◌>>=◌,
}
use ip_commandmic.Emulator.Actions.Wire.{
  IsSent, with_frames, IsText, IsTail, IsSent-append, display_frames-IsFramed, all_bytes,
  all_bytes→IsBytes,
}
use ip_commandmic.Emulator.Frames.{display_suffix}
use ip_commandmic.Emulator.Panel.{
  Panel, current_channel_text, decimal, volume_text, zone_text, show_now, show_for, press_button,
  is_press, press_value, handle_verified_key,
}

-- The ranges of a panel.
pub record IsPanel (p : Panel) : Type 0 where
  pub channel : p.channel_index < 2
  pub zone : p.zone_index < 2
  pub volume : p.volume_level ≤ 32

-- A Boolean test of a text that can be shown.
unfoldable pub all_shown : Text → Bool
all_shown [] = true
all_shown (c ∷ t) = ltb 0 c && (ltb c 128 && all_shown t)

pub all_shown→All : (t : Text) → all_shown t ≡ true → All IsShown t
unfolding all_shown
all_shown→All [] h = tt
all_shown→All (c ∷ t) h = ((ground arith, ground arith), all_shown→All t (ground arith))

unfoldable pub is_text : Text → Bool
unfolding all_shown
is_text t = all_shown t && leb (length t) 8

pub is_text→IsText : (t : Text) → is_text t ≡ true → IsText (some t)
unfolding is_text
is_text→IsText t h = (all_shown→All t (ground arith), ground arith)

pub suffix-IsTail : IsTail (some display_suffix)
suffix-IsTail = (refl, all_bytes→IsBytes display_suffix (unfold all_bytes in refl))

-- What holds of all numbers below a bound, by a test of each.
all_below : (ℕ → Bool) → ℕ → Bool
all_below test zero = true
all_below test (suc n) = test n && all_below test n

below→test : (test : ℕ → Bool) (n k : ℕ) → all_below test n ≡ true → k < n → test k ≡ true
unfolding all_below
below→test test zero k h less = absurd (omega arith)
below→test test (suc n) k h less = elim (Bool-cases (k == n)) [
  | inl e ↦ rw ((==_iff k n).0 e) (ground arith)
  | inr e ↦ below→test test n k (ground arith) (ground arith)
]

volume_text-IsText : (level : ℕ) → level ≤ 32 → IsText (some (volume_text level))
volume_text-IsText level h = is_text→IsText (volume_text level) (
    below→test (λ k. is_text (volume_text k)) 33 level
      (unfold all_below is_text volume_text decimal in refl) (omega arith))

zone_text-IsText : (index : ℕ) → index < 2 → IsText (some (zone_text index))
zone_text-IsText index h = is_text→IsText (zone_text index) (
    below→test (λ k. is_text (zone_text k)) 2 index
      (unfold all_below is_text zone_text decimal in refl) h)

named_channel : (i : ℕ) → i < 2 → IsText (get_elem? (codes "CHANNEL1" ∷ codes "CHANNEL2" ∷ []) i)
named_channel zero h = is_text→IsText (codes "CHANNEL1") (unfold is_text in refl)
named_channel (suc zero) h = is_text→IsText (codes "CHANNEL2") (unfold is_text in refl)
named_channel (suc (suc i)) h = absurd (omega arith)

pub current_channel_text-IsText : (p : Panel) → IsPanel p → IsText (current_channel_text p)
unfolding current_channel_text
current_channel_text-IsText p h = by_zone (p.zone_index == 1)
  where
    by_zone :
        (b : Bool)
        → IsText (
            if b
            then some (codes "ZONE TWO")
            else get_elem? (codes "CHANNEL1" ∷ codes "CHANNEL2" ∷ []) p.channel_index)
    by_zone true = is_text→IsText (codes "ZONE TWO") (unfold is_text in refl)
    by_zone false = named_channel p.channel_index h.channel

-- A call that raises nothing, keeps the ranges and sends frames only.
abbrev pub IsHandled : Option (Panel × List Action) → Type 0
IsHandled none = ⊥
IsHandled (some (p, actions)) = IsPanel p × All IsWire (sent actions)

record Kept (o : Option (Panel × List Action)) : Type 0 where
  pub holds : IsHandled o

either :
    (b : Bool) (x y : Option (Panel × List Action))
    → IsHandled x
    → Kept y
    → Kept (if b then x else y)
either true x y h k = record { holds = h }
either false x y h k = k

send_display-IsSent : (t : Text) → IsText (some t) → IsSent (send_display t display_suffix)
unfolding send_display
send_display-IsSent t k =
    with_frames (display_frames t display_suffix) (λ frames. some (sends frames ∷ []))
      (display_frames-IsFramed t display_suffix k suffix-IsTail)
      (λ frames h. rw (append-nil frames) h)

sent_first :
    (o : Option (List Action)) (p : Panel) (after : List Action)
    → IsPanel p
    → IsSent o
    → All IsWire (sent after)
    → IsHandled (o >>= λ actions. some (p, (actions ++ after)))
sent_first none p after h k e = elim k [ ]
sent_first (some actions) p after h k e = (h, IsSent-append actions after k e)

sent_only :
    (o : Option (List Action)) (p : Panel)
    → IsPanel p
    → IsSent o
    → IsHandled (o >>= λ actions. some (p, actions))
sent_only none p h k = elim k [ ]
sent_only (some actions) p h k = (h, k)

show_now-IsHandled : (p : Panel) (o : Option Text) → IsPanel p → IsText o → IsHandled (show_now p o)
unfolding show_now
show_now-IsHandled p none h k = elim k [ ]
show_now-IsHandled p (some t) h k =
    sent_only (send_display t display_suffix) p h (send_display-IsSent t k)

show_for-IsHandled :
    (delay : ℕ) (p : Panel) (t : Text)
    → IsPanel p
    → IsText (some t)
    → IsHandled (show_for delay p t)
unfolding show_for
show_for-IsHandled delay p t h k =
    sent_first (send_display t display_suffix) p (restores_after delay ∷ []) h
      (send_display-IsSent t k) tt

module _ (p : Panel) (h : IsPanel p) where
  on_channel : (i : ℕ) → i < 2 → IsPanel (record p { channel_index = i })
  on_channel i less = record { channel = less; zone = h.zone; volume = h.volume }

  on_zone : (i : ℕ) → i < 2 → IsPanel (record p { zone_index = i; channel_index = 0 })
  on_zone i less = record { channel = omega arith; zone = less; volume = h.volume }

  on_volume : (v : ℕ) → v ≤ 32 → IsPanel (record p { volume_level = v })
  on_volume v less = record { channel = h.channel; zone = h.zone; volume = less }

  for_channel :
      (i : ℕ)
      → i < 2
      → IsHandled (
          show_now
            (record p { channel_index = i })
            (current_channel_text (record p { channel_index = i })))
  for_channel i less =
      show_now-IsHandled (record p { channel_index = i })
        (current_channel_text (record p { channel_index = i })) (on_channel i less)
        (current_channel_text-IsText (record p { channel_index = i }) (on_channel i less))

  for_zone :
      (i : ℕ)
      → i < 2
      → IsHandled (show_for 2250000 (record p { zone_index = i; channel_index = 0 }) (zone_text i))
  for_zone i less =
      show_for-IsHandled 2250000 (record p { zone_index = i; channel_index = 0 }) (zone_text i)
        (on_zone i less) (zone_text-IsText i less)

  for_volume :
      (v : ℕ)
      → v ≤ 32
      → IsHandled (show_for 1000000 (record p { volume_level = v }) (volume_text v))
  for_volume v less =
      show_for-IsHandled 1000000 (record p { volume_level = v }) (volume_text v) (on_volume v less)
        (volume_text-IsText v less)

  below_two : (a : ℕ) → a % 2 < 2
  below_two a = omega arith

  louder : min 32 (p.volume_level + 1) ≤ 32
  louder = omega arith

  softer : p.volume_level - 1 ≤ 32
  softer = omega (arith, h.volume)

  ignored-IsHandled : IsHandled (some (p, (audits "withheld_key_response" ∷ [])))
  ignored-IsHandled = (h, tt)

  press_button-IsHandled : (button : Text) → IsHandled (press_button p button)
  unfolding press_button
  press_button-IsHandled button =
      (either (button =? codes "up") _ _ (for_channel _ (below_two (p.channel_index + 1))) (
        either (button =? codes "down") _ _ (for_channel _ (below_two (p.channel_index + 2 - 1))) (
          either (button =? codes "right") _ _ (for_zone _ (below_two (p.zone_index + 1))) (
            either (button =? codes "left") _ _ (for_zone _ (below_two (p.zone_index + 2 - 1))) (
              either (button =? codes "volume_up") _ _ (for_volume _ louder) (
                either (button =? codes "volume_down") _ _ (for_volume _ softer)
                  (record { holds = ignored-IsHandled }))))))).holds

  press_value-IsHandled : (v : Option Value) → IsHandled (press_value p v)
  unfolding press_value
  press_value-IsHandled (some (chars button)) = press_button-IsHandled button
  press_value-IsHandled none = (h, tt)
  press_value-IsHandled (some null) = (h, tt)
  press_value-IsHandled (some _) = (h, tt)

  -- With the panel in its ranges, a key message raises nothing, leaves the panel in its
  -- ranges, and whatever is sent are frames that a stream parser reads one by one.
  pub handle_verified_key-IsHandled :
      (automatic : Bool) (metadata : Metadata)
      → IsHandled (handle_verified_key automatic p metadata)
  unfolding handle_verified_key
  handle_verified_key-IsHandled automatic metadata =
      (either (not (is_press (get metadata "key_action"))) (some (p, [])) _ (h, tt)
        (either (not automatic) _ _ ignored-IsHandled
          (record { holds = press_value-IsHandled (get metadata "key_button") }))).holds
