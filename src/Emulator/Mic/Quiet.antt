-- ===== src/Emulator/Mic/Quiet.antt =====
-- The steps of a microphone session that answer nothing.
use ip_commandmic.Prelude.{
  ◌+◌, ◌≡◌, refl, ◌==◌, if◌then◌else◌, List, [], ◌∷◌, ◌++◌, Bytes, Bool, true, false, not, ◌||◌,
  inl, inr, Option, Bool-cases,
}
use ip_commandmic.Models.{Value}
use ip_commandmic.Emulator.Actions.{Action, cancels_task, begins_task}
use ip_commandmic.Emulator.Frames.{}
use ip_commandmic.Emulator.Mic.{MicSession, on_audio_state, on_display, is_str}
use ip_commandmic.Emulator.Mic.Replies.{answered}

-- Steps that send some frames and leave the two flags.
pub record Sends (s : MicSession) (frames : List Bytes) (done : MicSession × List Action)
    : Type 0 where
  pub silent : answered done.1 ≡ frames
  pub sync : done.0.startup_sync_sent ≡ s.startup_sync_sent
  pub identity : done.0.identity_sent ≡ s.identity_sent
  pub probe : done.0.probe_response_sent ≡ s.probe_response_sent

module _ (s : MicSession) where
  pub either :
      (frames : List Bytes) (b : Bool) (x y : MicSession × List Action)
      → (b ≡ true → Sends s frames x)
      → (b ≡ false → Sends s frames y)
      → Sends s frames (if b then x else y)
  either frames true x y h k = h refl
  either frames false x y h k = k refl

  closed-Quiet :
      (b : Bool) (t : MicSession) (actions : List Action)
      → Sends s [] (t, actions)
      → Sends s [] (s, actions)
      → Sends s [] ((if b then t else s), actions)
  closed-Quiet true t actions h k = h
  closed-Quiet false t actions h k = k

module _ (stable has_udp : Bool) (s : MicSession) where
  pub audio_state-Quiet : (v : Option Value) → Sends s [] (on_audio_state stable has_udp s v)
  unfolding on_audio_state
  audio_state-Quiet v =
      either s [] (is_str "receive_open" v) _ _
        (λ h. record { silent = refl; sync = refl; identity = refl; probe = refl })
        (λ h.
          either s [] (is_str "transmit_active" v) _ _
            (λ k. record { silent = refl; sync = refl; identity = refl; probe = refl })
            (λ k.
              either s [] (is_str "closed" v) _ _
                (λ l.
                  closed-Quiet s (s.transmit.ptt_asserted || s.transmit.tx_active) _ _
                    (record { silent = refl; sync = refl; identity = refl; probe = refl })
                    (record { silent = refl; sync = refl; identity = refl; probe = refl }))
                (λ l. record { silent = refl; sync = refl; identity = refl; probe = refl })))

  pub display-Quiet : Sends s [] (on_display stable has_udp s)
  unfolding on_display
  display-Quiet = elim (Bool-cases (not stable)) [
    | inl e ↦ rw e (record { silent = refl; sync = refl; identity = refl; probe = refl })
    | inr e ↦ elim (Bool-cases (s.stable_display_count + 1 == 1)) [
      | inl k ↦ rw (e, k) (record { silent = refl; sync = refl; identity = refl; probe = refl })
      | inr k ↦
          rw (e, k)
            (record { silent = by_task s.ready_task; sync = refl; identity = refl; probe = refl })
    ]
  ]
    where
      by_task :
          (b : Bool)
          → answered (
              (if b then cancels_task "mic_ready" ∷ [] else [])
              ++ (begins_task "mic_controls" ∷ []))
            ≡ []
      by_task true = refl
      by_task false = refl
