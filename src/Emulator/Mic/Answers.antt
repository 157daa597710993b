-- ===== src/Emulator/Mic/Answers.antt =====
-- The branches of `_verified_mic_session` in src/ip_commandmic/emulator.py and the replies of
-- Replies.antt.
use ip_commandmic.Prelude.{
  ℕ, ◌≡◌, refl, arith, ◌∙◌, ap, sym, if◌then◌else◌, List, [], ◌∷◌, ◌++◌, append-nil, Bytes, Bool,
  true, false, not, ◌&&◌, ◌||◌, ◌=?◌, =?→eq, inl, inr, Option, none, some, Bool-cases,
}
use ip_commandmic.Models.{Message, get, body}
use ip_commandmic.Protocol.Classify.{radio_idle_heartbeat, mic_idle_heartbeat}
use ip_commandmic.Emulator.Actions.{Action, sent, sends, audits, sends_boot, ◌>>=◌}
use ip_commandmic.Emulator.Frames.{
  radio_startup_hello, radio_startup_ready, mic_startup_sync, mic_identity, mic_display_ack,
  mic_probe_response, display_after,
}
use ip_commandmic.Emulator.Mic.{
  MicSession, answer_mic, answer_state, is_prompt, prompted, on_prompt, on_audio_state,
  is_audio_state, is_int, starts_special, mic_probe_response_after_special_prompt,
}
use ip_commandmic.Emulator.Mic.Replies.{
  answered, answered-append, begins_special, prompt_of, probe_after, replies, IsReply,
  hello-not_ready,
}
use ip_commandmic.Emulator.Mic.Quiet.{Sends, either, audio_state-Quiet, display-Quiet}

module _ (stable has_udp : Bool) (s : MicSession) where
  -- What is known of a message: its first byte, its body, and that the ends of a display and
  -- the heartbeats are no audio states.
  module _ (m : Message) (b : ℕ) (bs : Bytes) (first : m.raw ≡ b ∷ bs) (payload : Bytes)
      (has_body : body m ≡ some payload)
      (no_audio : is_audio_state m.kind ≡ true
        → ((m.raw =? display_after) ≡ false) × ((m.raw =? radio_idle_heartbeat) ≡ false)) where
    -- The reply of the branches behind the startup.
    abbrev rest : List Bytes
    rest =
        if m.raw =? display_after
        then mic_display_ack ∷ []
        else if m.raw =? radio_idle_heartbeat
        then mic_idle_heartbeat ∷ []
        else []

    rest-none :
        (m.raw =? display_after) ≡ false → (m.raw =? radio_idle_heartbeat) ≡ false → rest ≡ []
    rest-none h k = rw (h, k) refl

    rest-display : (m.raw =? display_after) ≡ true → rest ≡ mic_display_ack ∷ []
    rest-display h = rw h refl

    rest-heartbeat :
        (m.raw =? display_after) ≡ false
        → (m.raw =? radio_idle_heartbeat) ≡ true
        → rest ≡ mic_idle_heartbeat ∷ []
    rest-heartbeat h k = rw (h, k) refl

    heard-silent :
        is_audio_state m.kind ≡ true
        → answered (
            (on_audio_state stable has_udp s (get m.metadata "audio_state")).1
            ++ (audits "accepted_verified_radio_audio_state" ∷ []))
          ≡ rest
    heard-silent h =
        answered-append (on_audio_state stable has_udp s (get m.metadata "audio_state")).1
          (audits "accepted_verified_radio_audio_state" ∷ [])
        ∙ (append-nil _
            ∙ ((audio_state-Quiet stable has_udp s (get m.metadata "audio_state")).silent
                ∙ sym (rest-none (no_audio h).0 (no_audio h).1)))

    state-Sends : Sends s rest (answer_state stable has_udp s m)
    unfolding answer_state
    state-Sends =
        let q = audio_state-Quiet stable has_udp s (get m.metadata "audio_state") in
        either s rest (has_udp && is_audio_state m.kind) _ _
          (λ h. record {
            silent = heard-silent (ground arith);
            sync = q.sync;
            identity = q.identity;
            probe = q.probe;
          })
          (λ h.
            either s rest (m.raw =? display_after) _ _
              (λ k. record {
                silent =
                    ap (λ l. mic_display_ack ∷ l) (display-Quiet stable has_udp s).silent
                    ∙ sym (rest-display k);
                sync = (display-Quiet stable has_udp s).sync;
                identity = (display-Quiet stable has_udp s).identity;
                probe = (display-Quiet stable has_udp s).probe;
              })
              (λ k.
                either s rest (m.raw =? radio_idle_heartbeat) _ _
                  (λ l. record {
                    silent = sym (rest-heartbeat k l);
                    sync = refl;
                    identity = refl;
                    probe = refl;
                  })
                  (λ l. record {
                    silent = sym (rest-none k l);
                    sync = refl;
                    identity = refl;
                    probe = refl;
                  })))

    -- The reply behind the startup.
    abbrev later : List Bytes
    later = if prompt_of m && not s.probe_response_sent then mic_probe_response else rest

    -- Replies that are there.
    abbrev IsRemaining : Option (MicSession × List Action) → Type 0
    IsRemaining none = ⊥
    IsRemaining (some done) =
        (answered done.1 ≡ later)
        × (done.0.startup_sync_sent ≡ s.startup_sync_sent)
        × (done.0.identity_sent ≡ s.identity_sent)
        × (done.0.probe_response_sent ≡ (s.probe_response_sent || prompt_of m))

    later-probe : (prompt_of m && not s.probe_response_sent) ≡ true → mic_probe_response ≡ later
    later-probe e = rw e refl

    later-rest : (prompt_of m && not s.probe_response_sent) ≡ false → rest ≡ later
    later-rest e = rw e refl

    probe-true :
        (prompt_of m && not s.probe_response_sent) ≡ true
        → true ≡ (s.probe_response_sent || prompt_of m)
    probe-true e = ground arith

    probe-same :
        (prompt_of m && not s.probe_response_sent) ≡ false
        → s.probe_response_sent ≡ (s.probe_response_sent || prompt_of m)
    probe-same e = ground arith

    response-sent : sent (mic_probe_response_after_special_prompt false) ++ [] ≡ mic_probe_response
    response-sent =
        append-nil _
        ∙ unfold mic_probe_response_after_special_prompt in append-nil mic_probe_response

    prompted-IsRemaining : IsRemaining (prompted stable has_udp s m (prompt_of m))
    unfolding prompted on_prompt
    prompted-IsRemaining = elim (Bool-cases (prompt_of m && not s.probe_response_sent)) [
      | inl e ↦ rw (e, has_body) (response-sent ∙ later-probe e, refl, refl, probe-true e)
      | inr e ↦ rw e (
        state-Sends.silent ∙ later-rest e,
        state-Sends.sync,
        state-Sends.identity,
        state-Sends.probe ∙ probe-same e,
      )
    ]

    is_prompt-prompt_of : is_prompt stable has_udp m ≡ some (prompt_of m)
    unfolding is_prompt
    is_prompt-prompt_of =
        ap
          (λ r. starts_special r >>= λ x. some (
            x
            && (is_int 0x05 (get m.metadata "message_class")
                && is_int 0x03 (get m.metadata "command"))))
          first
        ∙ sym (
            ap
              (λ r. some (
                begins_special r
                && (is_int 0x05 (get m.metadata "message_class")
                    && is_int 0x03 (get m.metadata "command"))))
              first)

    branch-IsRemaining :
        IsRemaining (is_prompt stable has_udp m >>= λ prompt. prompted stable has_udp s m prompt)
    branch-IsRemaining = rw is_prompt-prompt_of prompted-IsRemaining

    abbrev hello : Bool
    hello = m.raw =? radio_startup_hello

    abbrev ready : Bool
    ready = m.raw =? radio_startup_ready

    hello→not_ready : hello ≡ true → ready ≡ false
    hello→not_ready h =
        ap (λ r. r =? radio_startup_ready) (=?→eq m.raw radio_startup_hello h) ∙ hello-not_ready

    -- The flag of the probe response, where the startup answers and where it does not.
    probe-behind :
        (hello && not s.startup_sync_sent) ≡ false
        → (ready && not s.identity_sent) ≡ false
        → (s.probe_response_sent || prompt_of m)
          ≡ probe_after s.startup_sync_sent s.identity_sent s.probe_response_sent
              (prompt_of m)
              m.raw
    probe-behind h k = rw (h, k) refl

    probe-sync :
        (hello && not s.startup_sync_sent) ≡ true
        → s.probe_response_sent
          ≡ probe_after s.startup_sync_sent s.identity_sent s.probe_response_sent
              (prompt_of m)
              m.raw
    probe-sync h = ground arith

    probe-identity :
        (ready && not s.identity_sent) ≡ true
        → s.probe_response_sent
          ≡ probe_after s.startup_sync_sent s.identity_sent s.probe_response_sent
              (prompt_of m)
              m.raw
    probe-identity h = ground arith

    branch-IsReply :
        (o : Option (MicSession × List Action))
        → (hello && not s.startup_sync_sent) ≡ false
        → (ready && not s.identity_sent) ≡ false
        → IsRemaining o
        → IsReply s (prompt_of m) m.raw o
    branch-IsReply none h k e = e
    branch-IsReply (some done) h k e = (
      e.0 ∙ unfold replies in rw (h, k) refl,
      e.1 ∙ ground arith,
      e.2 ∙ ground arith,
      e.3 ∙ probe-behind h k,
    )

    replies-sync :
        (hello && not s.startup_sync_sent) ≡ true
        → replies s.startup_sync_sent s.identity_sent s.probe_response_sent (prompt_of m) m.raw
          ≡ mic_startup_sync
    replies-sync h = unfold replies in rw h refl

    replies-identity :
        (hello && not s.startup_sync_sent) ≡ false
        → (ready && not s.identity_sent) ≡ true
        → replies s.startup_sync_sent s.identity_sent s.probe_response_sent (prompt_of m) m.raw
          ≡ mic_identity ∷ []
    replies-identity h k = unfold replies in rw (h, k) refl

    identity-sent :
        (u : Bool)
        → answered ((if u then sends_boot ∷ [] else []) ++ (sends (mic_identity ∷ []) ∷ []))
          ≡ mic_identity ∷ []
    identity-sent true = refl
    identity-sent false = refl

    sync-true : (hello && not s.startup_sync_sent) ≡ true → true ≡ (s.startup_sync_sent || hello)
    sync-true h = ground arith

    sync-same :
        (hello && not s.startup_sync_sent) ≡ false
        → s.startup_sync_sent ≡ (s.startup_sync_sent || hello)
    sync-same h = ground arith

    identity-true : (ready && not s.identity_sent) ≡ true → true ≡ (s.identity_sent || ready)
    identity-true h = ground arith

    identity-same : hello ≡ true → s.identity_sent ≡ (s.identity_sent || ready)
    identity-same h = ground (arith, hello→not_ready h)

    is_hello : (hello && not s.startup_sync_sent) ≡ true → hello ≡ true
    is_hello h = ground arith

    pub answer_mic-IsReply : IsReply s (prompt_of m) m.raw (answer_mic stable has_udp s m)
    unfolding answer_mic
    answer_mic-IsReply = elim (Bool-cases (hello && not s.startup_sync_sent)) [
      | inl e ↦ rw e (sym (replies-sync e), sync-true e, identity-same (is_hello e), probe-sync e)
      | inr e ↦ elim (Bool-cases (ready && not s.identity_sent)) [
        | inl k ↦
            rw (e, k)
              (
                identity-sent has_udp ∙ sym (replies-identity e k),
                sync-same e,
                identity-true k,
                probe-identity k,
              )
        | inr k ↦ rw (e, k) (branch-IsReply _ e k branch-IsRemaining)
      ]
    ]
