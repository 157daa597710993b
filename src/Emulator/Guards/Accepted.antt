-- ===== src/Emulator/Guards/Accepted.antt =====
-- What an accepted configuration of src/ip_commandmic/emulator.py is.
use ip_commandmic.Prelude.{
  ℕ, zero, suc, ◌≤◌, ◌≡◌, refl, arith, ◌∙◌, sym, ltb, leb, if◌then◌else◌, List, [], ◌∷◌, ◌++◌, Text,
  codes, Bool, true, false, not, ◌&&◌, ◌||◌, =?→eq, Option, none, some, Bool-cases, inl, inr,
  one_of,
}
use ip_commandmic.Emulator.Config.{EmulatorConfig, ConfigError}
use ip_commandmic.Emulator.Frames.{backlight_states, companion_of}
use ip_commandmic.Emulator.Guards.{
  Guard, first_error, config_error, role_guards, receive_guards, beep_guards, recording_guards,
  display_guards, key_guards, tx_guards, is_mic, is_radio, verified_radio, listening_mic,
  tx_capable, within, given, named, given_text, value_or, some_key, display_test_count,
}

-- The test of the guard at a position.
unfoldable pub test_at : List Guard → ℕ → Bool
test_at [] i = false
test_at ((test, error) ∷ guards) zero = test
test_at ((test, error) ∷ guards) (suc i) = test_at guards i

no_error :
    (test : Bool) (error : ConfigError) (later : Option ConfigError)
    → (if test then some error else later) ≡ none
    → (test ≡ false) × (later ≡ none)
no_error true error later e = absurd (never e)
  where
    never : (◌≡◌ {A = Option ConfigError} (some error) none) → ⊥
    never h = cc
no_error false error later e = (refl, e)

-- Without an error no test holds.
passes : (guards : List Guard) (i : ℕ) → first_error guards ≡ none → test_at guards i ≡ false
unfolding first_error test_at
passes [] i e = refl
passes ((test, error) ∷ guards) zero e = (no_error test error (first_error guards) e).0
passes ((test, error) ∷ guards) (suc i) e =
    passes guards i (no_error test error (first_error guards) e).1

module _ (file_exists wav_loads : Text → Bool) (c : EmulatorConfig) where
  -- Whether a setting is made that __post_init__ reserves for the verified radio, or for the
  -- verified microphone that listens. Settings that a radio reads and no test guards are not here.
  abbrev pub guarded_radio : Bool
  guarded_radio =
      c.enable_rx_audio
      || (given_text c.key_beep
          || (named c.record_mic_wav
              || (ltb 0 (display_test_count file_exists wav_loads c)
                  || given c.experimental_mic_gain_companion)))

  abbrev pub guarded_mic : Bool
  guarded_mic =
      named c.record_radio_wav
      || (c.play_radio_audio || (some_key c.mic_key_script || tx_capable file_exists wav_loads c))

module _ (file_exists wav_loads : Text → Bool) (c : EmulatorConfig)
    (accepted : config_error file_exists wav_loads c ≡ none) where
  abbrev all_guards : List Guard
  all_guards =
      role_guards file_exists wav_loads c
      ++ (receive_guards file_exists wav_loads c
          ++ (beep_guards file_exists wav_loads c
              ++ (recording_guards file_exists wav_loads c
                  ++ (display_guards file_exists wav_loads c
                      ++ (key_guards file_exists wav_loads c
                          ++ tx_guards file_exists wav_loads c)))))

  whole : first_error all_guards ≡ none
  unfolding config_error
  whole = accepted

  at : (i : ℕ) → test_at all_guards i ≡ false
  at i = passes all_guards i whole

  companion_on_radio :
      (given c.experimental_mic_gain_companion && not (verified_radio file_exists wav_loads c))
      ≡ false
  companion_on_radio =
      unfold test_at role_guards receive_guards beep_guards recording_guards display_guards
        key_guards tx_guards in
      at 5

  rx_on_radio : (c.enable_rx_audio && not (verified_radio file_exists wav_loads c)) ≡ false
  rx_on_radio =
      unfold test_at role_guards receive_guards beep_guards recording_guards display_guards
        key_guards tx_guards in
      at 8

  beep_on_radio : (given_text c.key_beep && not (verified_radio file_exists wav_loads c)) ≡ false
  beep_on_radio =
      unfold test_at role_guards receive_guards beep_guards recording_guards display_guards
        key_guards tx_guards in
      at 17

  record_on_radio : (named c.record_mic_wav && not (verified_radio file_exists wav_loads c)) ≡ false
  record_on_radio =
      unfold test_at role_guards receive_guards beep_guards recording_guards display_guards
        key_guards tx_guards in
      at 20

  record_on_mic : (named c.record_radio_wav && not (listening_mic file_exists wav_loads c)) ≡ false
  record_on_mic =
      unfold test_at role_guards receive_guards beep_guards recording_guards display_guards
        key_guards tx_guards in
      at 24

  play_on_mic : (c.play_radio_audio && not (listening_mic file_exists wav_loads c)) ≡ false
  play_on_mic =
      unfold test_at role_guards receive_guards beep_guards recording_guards display_guards
        key_guards tx_guards in
      at 27

  test_on_radio :
      (ltb 0 (display_test_count file_exists wav_loads c)
        && not (verified_radio file_exists wav_loads c))
      ≡ false
  test_on_radio =
      unfold test_at role_guards receive_guards beep_guards recording_guards display_guards
        key_guards tx_guards in
      at 30

  script_on_mic : (some_key c.mic_key_script && not (listening_mic file_exists wav_loads c)) ≡ false
  script_on_mic =
      unfold test_at role_guards receive_guards beep_guards recording_guards display_guards
        key_guards tx_guards in
      at 34

  one_tx_mode : (c.enable_tx && c.interactive_tx) ≡ false
  one_tx_mode =
      unfold test_at role_guards receive_guards beep_guards recording_guards display_guards
        key_guards tx_guards in
      at 40

  tx_on_mic :
      (tx_capable file_exists wav_loads c && not (listening_mic file_exists wav_loads c)) ≡ false
  tx_on_mic =
      unfold test_at role_guards receive_guards beep_guards recording_guards display_guards
        key_guards tx_guards in
      at 41

  tx_without_script :
      (tx_capable file_exists wav_loads c && (c.enable_tx && some_key c.mic_key_script)) ≡ false
  tx_without_script =
      unfold test_at role_guards receive_guards beep_guards recording_guards display_guards
        key_guards tx_guards in
      at 42

  tx_hold : (tx_capable file_exists wav_loads c && not (within 500 30000 c.tx_hold_seconds)) ≡ false
  tx_hold =
      unfold test_at role_guards receive_guards beep_guards recording_guards display_guards
        key_guards tx_guards in
      at 45

  gain : (not (within 1 5 c.mic_gain)) ≡ false
  gain =
      unfold test_at role_guards receive_guards beep_guards recording_guards display_guards
        key_guards tx_guards in
      at 1

  backlight : (not (one_of c.backlight_state backlight_states)) ≡ false
  backlight =
      unfold test_at role_guards receive_guards beep_guards recording_guards display_guards
        key_guards tx_guards in
      at 2

  companion :
      (given c.experimental_mic_gain_companion
        && not (within 1 6 (value_or 1 c.experimental_mic_gain_companion)))
      ≡ false
  companion =
      unfold test_at role_guards receive_guards beep_guards recording_guards display_guards
        key_guards tx_guards in
      at 6

  one_role : (is_mic file_exists wav_loads c && is_radio file_exists wav_loads c) ≡ false
  one_role = elim (Bool-cases (is_mic file_exists wav_loads c)) [
    | inr e ↦ rw e refl
    | inl e ↦ elim (Bool-cases (is_radio file_exists wav_loads c)) [
      | inr k ↦ ground arith
      | inl k ↦
          absurd (different (sym (=?→eq c.role (codes "mic") e) ∙ =?→eq c.role (codes "radio") k))
    ]
  ]
    where
      different : codes "mic" ≡ codes "radio" → ⊥
      different h = cc

  on_radio :
      guarded_radio file_exists wav_loads c ≡ true → verified_radio file_exists wav_loads c ≡ true
  on_radio h =
      ground (arith, rx_on_radio, beep_on_radio, record_on_radio, test_on_radio, companion_on_radio)

  on_mic : guarded_mic file_exists wav_loads c ≡ true → listening_mic file_exists wav_loads c ≡ true
  on_mic h = ground (arith, record_on_mic, play_on_mic, script_on_mic, tx_on_mic)

  both :
      verified_radio file_exists wav_loads c ≡ true
      → listening_mic file_exists wav_loads c ≡ true
      → ⊥
  both r m = ground (arith, one_role)

  apart : (guarded_radio file_exists wav_loads c && guarded_mic file_exists wav_loads c) ≡ false
  apart = elim (Bool-cases (guarded_radio file_exists wav_loads c)) [
    | inr e ↦ rw e refl
    | inl r ↦ elim (Bool-cases (guarded_mic file_exists wav_loads c)) [
      | inr e ↦ ground arith
      | inl m ↦ absurd (both (on_radio r) (on_mic m))
    ]
  ]

  -- In a configuration that is accepted, receive audio, a key beep, a recording of the microphone,
  -- a display test or a gain companion means the verified radio; a recording or the playing of the
  -- radio's audio, a key script or a transmission means the verified microphone that listens; and
  -- no setting of the first kind stands beside one of the second.
  pub config_error-roles :
      (guarded_radio file_exists wav_loads c ≡ true → verified_radio file_exists wav_loads c ≡ true)
      × (guarded_mic file_exists wav_loads c ≡ true → listening_mic file_exists wav_loads c ≡ true)
      × ((guarded_radio file_exists wav_loads c && guarded_mic file_exists wav_loads c) ≡ false)
  config_error-roles = (on_radio, on_mic, apart)

  -- A configuration that is accepted and can transmit is a verified microphone that listens, has
  -- one way to transmit, no key script where the transmission is scripted, and a hold time from
  -- half a second to thirty seconds.
  pub config_error-transmitter :
      tx_capable file_exists wav_loads c ≡ true
      → (listening_mic file_exists wav_loads c ≡ true)
        × ((c.enable_tx && c.interactive_tx) ≡ false)
        × ((c.enable_tx && some_key c.mic_key_script) ≡ false)
        × (500 ≤ c.tx_hold_seconds)
        × (c.tx_hold_seconds ≤ 30000)
  config_error-transmitter h = (
    ground (arith, tx_on_mic),
    one_tx_mode,
    ground (arith, tx_without_script),
    ground (arith, tx_hold),
    ground (arith, tx_hold),
  )

  -- The settings of the first sync are in the ranges that the sync asks for.
  pub config_error-sync :
      ((leb 1 c.mic_gain && leb c.mic_gain 5) ≡ true)
      × ((leb 1 (companion_of c.mic_gain c.experimental_mic_gain_companion)
            && leb (companion_of c.mic_gain c.experimental_mic_gain_companion) 6)
          ≡ true)
      × (one_of c.backlight_state backlight_states ≡ true)
  config_error-sync = (
    ground (arith, gain),
    by_companion c.experimental_mic_gain_companion companion,
    ground (arith, backlight),
  )
    where
      by_companion :
          (o : Option ℕ)
          → (given o && not (within 1 6 (value_or 1 o))) ≡ false
          → (leb 1 (companion_of c.mic_gain o) && leb (companion_of c.mic_gain o) 6) ≡ true
      by_companion none h = ground (arith, gain)
      by_companion (some v) h = ground arith
