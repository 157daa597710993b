-- ===== src/Emulator/Startup/Order.antt =====
-- What `_stable_startup` sends, and in which order.
use ip_commandmic.Prelude.{
  ◌≡◌, refl, ap, if◌then◌else◌, List, [], ◌∷◌, ◌++◌, Bytes, Text, Bool, true, false, Option, none,
  some, replicate,
}
use ip_commandmic.Emulator.Actions.{Action, sends, sleeps, sent, display_frames}
use ip_commandmic.Emulator.Actions.Wire.{IsFramed, IsText, IsSent, display_frames-IsFramed}
use ip_commandmic.Emulator.Frames.{display_suffix, radio_stable_sync, radio_status_carousel}
use ip_commandmic.Emulator.Frames.Wire.{radio_stable_sync-IsFramed}
use ip_commandmic.Emulator.Config.{EmulatorConfig}
use ip_commandmic.Emulator.Guards.{config_error}
use ip_commandmic.Emulator.Guards.Accepted.{config_error-sync}
use ip_commandmic.Emulator.Panel.{Panel}
use ip_commandmic.Emulator.Panel.Shown.{IsPanel, suffix-IsTail}
use ip_commandmic.Emulator.Startup.{
  first_diagnostic, after_startup, diagnostics, text_or_channel, carousel, stable_startup,
}
use ip_commandmic.Emulator.Startup.Sent.{
  IsShownText, idle-IsText, blank-IsTail, after_startup-IsSent, diagnostics-IsSent,
  first_diagnostic-IsSent,
}

there_frames : (o : Option (List Bytes)) → IsFramed o → (frames : List Bytes) × (o ≡ some frames)
there_frames none h = elim h [ ]
there_frames (some frames) h = (frames, refl)

there_text : (o : Option Text) → IsText o → (t : Text) × (o ≡ some t) × IsText (some t)
there_text none h = elim h [ ]
there_text (some t) h = (t, refl, h)

there_actions : (o : Option (List Action)) → IsSent o → (actions : List Action) × (o ≡ some actions)
there_actions none h = elim h [ ]
there_actions (some actions) h = (actions, refl)

module _ (udp_ready : Bool) (config : EmulatorConfig) (panel : Panel) where
  -- The frames sent: the sync of the settings, the opening text over a blank tail, the carousel
  -- where it is set, the idle text or that of the channel, and then the diagnostic, the audio or
  -- the beep that is asked for.
  pub record IsStarted (actions : List Action) : Type 0 where
    pub sync : List Bytes
    pub opening : List Bytes
    pub shown : Text
    pub idle : List Bytes
    pub later : List Action
    pub sync_frames :
        radio_stable_sync config.mic_gain config.experimental_mic_gain_companion
          config.backlight_state
        ≡ some sync
    pub opening_frames : display_frames config.startup_opening_text (replicate 60 0) ≡ some opening
    pub shown_text : text_or_channel panel config.startup_idle_text ≡ some shown
    pub idle_frames : display_frames shown display_suffix ≡ some idle
    pub asked :
        first_diagnostic (after_startup udp_ready config panel) (diagnostics udp_ready config panel)
        ≡ some later
    pub order :
        sent actions
        ≡ sync
          ++ (opening
              ++ ((if config.startup_status_carousel then radio_status_carousel else [])
                  ++ (idle ++ sent later)))

  sent-carousel :
      (later : List Action)
      → sent (carousel udp_ready config panel ++ later)
        ≡ (if config.startup_status_carousel then radio_status_carousel else []) ++ sent later
  unfolding carousel
  sent-carousel later = by_flag config.startup_status_carousel
    where
      by_flag :
          (b : Bool)
          → sent ((if b then sends radio_status_carousel ∷ sleeps 1000000 ∷ [] else []) ++ later)
            ≡ (if b then radio_status_carousel else []) ++ sent later
      by_flag true = refl
      by_flag false = refl

  module _ (ranges : IsPanel panel) (given : IsShownText config.startup_idle_text)
      (file_exists wav_loads : Text → Bool)
      (accepted : config_error file_exists wav_loads config ≡ none)
      (opening : IsText (some config.startup_opening_text)) where
    pub stable_startup-IsStarted :
        (actions : List Action) × (stable_startup udp_ready config panel ≡ some actions)
        × IsStarted actions
    unfolding stable_startup
    stable_startup-IsStarted =
        let checked = config_error-sync file_exists wav_loads config accepted in
        let first = there_frames _ (
          radio_stable_sync-IsFramed config.mic_gain config.experimental_mic_gain_companion
            config.backlight_state checked.0 checked.1 checked.2) in
        let opened = there_frames _ (
          display_frames-IsFramed config.startup_opening_text (replicate 60 0) opening
            blank-IsTail) in
        let text = there_text _ (idle-IsText udp_ready config panel ranges given) in
        let shown =
          there_frames _ (display_frames-IsFramed text.0 display_suffix text.2 suffix-IsTail) in
        let asked = there_actions _ (
          first_diagnostic-IsSent (after_startup udp_ready config panel)
            (diagnostics udp_ready config panel)
            (after_startup-IsSent udp_ready config panel ranges given)
            (diagnostics-IsSent udp_ready config panel ranges given)) in
        (
          sends first.0
              ∷ sends opened.0
              ∷ sleeps 110000
              ∷ (carousel udp_ready config panel ++ (sends shown.0 ∷ asked.0)),
          rw (first.1, opened.1, text.1, shown.1, asked.1) refl,
          record {
            sync = first.0;
            opening = opened.0;
            shown = text.0;
            idle = shown.0;
            later = asked.0;
            sync_frames = first.1;
            opening_frames = opened.1;
            shown_text = text.1;
            idle_frames = shown.1;
            asked = asked.1;
            order = ap (λ l. first.0 ++ (opened.0 ++ l)) (sent-carousel (sends shown.0 ∷ asked.0));
          },
        )
