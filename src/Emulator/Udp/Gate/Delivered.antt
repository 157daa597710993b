-- ===== src/Emulator/Udp/Gate/Delivered.antt =====
-- Every call gives the file and the callback the audio that passes.
use ip_commandmic.Prelude.{
  ℕ, ◌≡◌, refl, arith, sym, if◌then◌else◌, List, [], ◌∷◌, ◌++◌, append-nil, Bytes, Bool, true,
  false, not, ◌&&◌, ◌||◌, length,
}
use ip_commandmic.Emulator.Udp.Gate.{
  RadioCapture, send_boot, finish_radio_recording, notify_radio_gate, set_radio_audio_gate,
  RadioCall, boots, receives, sets_gate, closes, radio_call, radio_calls,
}
use ip_commandmic.Emulator.Udp.Gate.Audio.{payloads_of, audio}
use ip_commandmic.Emulator.Udp.Gate.Passed.{
  Gets, run, audio_from, Later, finish, moved, received-Gets,
}

module _ (to_file callback gate_callback : Bool) (max_packets : ℕ) (exists : Bool) where
  module _ (c : RadioCapture) (calls : List RadioCall)
      (k : Later to_file callback gate_callback max_packets exists calls) where
    either-Gets :
        (x y : RadioCapture) (xs : List Bytes) (b : Bool)
        → (b ≡ true
            → Gets to_file callback gate_callback max_packets exists c xs
                (run to_file callback gate_callback max_packets exists calls x))
        → (b ≡ false
            → Gets to_file callback gate_callback max_packets exists c xs
                (run to_file callback gate_callback max_packets exists calls y))
        → Gets to_file callback gate_callback max_packets exists c xs
            (run to_file callback gate_callback max_packets exists calls (if b then x else y))
    either-Gets x y xs true h l = h refl
    either-Gets x y xs false h l = l refl

    -- A later state whose flags the calls go on with.
    from_flags :
        (c' : RadioCapture) (sent open_ complete : Bool)
        → c'.boot_sent ≡ sent
        → c'.boot_verified ≡ c.boot_verified
        → c'.audio_gate_open ≡ open_
        → c'.recording_complete ≡ complete
        → c'.payloads ≡ c.payloads
        → c'.heard ≡ c.heard
        → Gets to_file callback gate_callback max_packets exists c
            (audio to_file callback max_packets sent c.boot_verified open_ complete
              (length c.payloads)
              calls)
            (run to_file callback gate_callback max_packets exists calls c')
    from_flags c' sent open_ complete a b d e f g =
        moved to_file callback gate_callback max_packets exists c calls k c' _ _ f g
          (rw (sym a, sym b, sym d, sym e, sym f) (k c'))

    notify-Gets :
        (next : Bool) (n : ℕ) (c' : RadioCapture) (open_ : Bool)
        → c'.boot_sent ≡ c.boot_sent
        → c'.boot_verified ≡ c.boot_verified
        → c'.audio_gate_open ≡ open_
        → c'.recording_complete ≡ c.recording_complete
        → c'.payloads ≡ c.payloads
        → c'.heard ≡ c.heard
        → Gets to_file callback gate_callback max_packets exists c
            (audio to_file callback max_packets c.boot_sent c.boot_verified open_
              c.recording_complete
              (length c.payloads)
              calls)
            (run to_file callback gate_callback max_packets exists calls
              (notify_radio_gate to_file callback gate_callback max_packets exists next n c'))
    unfolding notify_radio_gate
    notify-Gets next n c' open_ a b d e f g =
        either-Gets _ _ _ (not gate_callback)
          (λ h. from_flags c' c.boot_sent open_ c.recording_complete a b d e f g)
          (λ h. from_flags _ c.boot_sent open_ c.recording_complete a b d e f g)

    stays_open : (a b : Bool) → b ≡ true → a ≡ (a || not b)
    stays_open a b e = ground arith

    now_open : (a b : Bool) → b ≡ false → true ≡ (a || not b)
    now_open a b e = ground arith

    shut_already : (a : Bool) → not a ≡ true → a ≡ false
    shut_already a e = ground arith

    gate-Gets :
        (next : Bool)
        → Gets to_file callback gate_callback max_packets exists c
            (audio_from to_file callback gate_callback max_packets exists c
              (sets_gate next ∷ calls))
            (run to_file callback gate_callback max_packets exists calls
              (set_radio_audio_gate to_file callback gate_callback max_packets exists next c))
    unfolding set_radio_audio_gate audio
    gate-Gets true =
        either-Gets _ _ _ ((not to_file && not callback) || c.recording_complete)
          (λ e. from_flags c _ _ _ refl refl (stays_open c.audio_gate_open _ e) refl refl refl)
          (λ e. notify-Gets true 0 _ _ refl refl (now_open c.audio_gate_open _ e) refl refl refl)
    gate-Gets false =
        either-Gets _ _ _ (not c.audio_gate_open)
          (λ e. from_flags c _ _ _ refl refl (shut_already c.audio_gate_open e) refl refl refl)
          (λ e. notify-Gets false _ _ false refl refl refl refl refl refl)

    still_open : (a b d : Bool) → (not b || d) ≡ true → a ≡ (a && (not b || d))
    still_open a b d e = ground arith

    still_going : (b d : Bool) → (not b || d) ≡ true → d ≡ (d || b)
    still_going b d e = ground arith

    now_shut : (a b d : Bool) → (not b || d) ≡ false → false ≡ (a && (not b || d))
    now_shut a b d e = ground arith

    now_complete : (b d : Bool) → (not b || d) ≡ false → true ≡ (d || b)
    now_complete b d e = ground arith

    closes-Gets :
        Gets to_file callback gate_callback max_packets exists c
          (audio_from to_file callback gate_callback max_packets exists c (closes ∷ calls))
          (run to_file callback gate_callback max_packets exists calls
            (finish to_file callback gate_callback max_packets exists c))
    unfolding finish_radio_recording audio
    closes-Gets =
        either-Gets _ _ _ (not to_file || c.recording_complete)
          (λ e.
            from_flags c _ _ _ refl refl (still_open c.audio_gate_open to_file _ e)
              (still_going to_file _ e) refl refl)
          (λ e.
            either-Gets _ _ _ exists
              (λ h.
                from_flags _ _ _ _ refl refl (now_shut c.audio_gate_open to_file _ e)
                  (now_complete to_file _ e) refl refl)
              (λ h.
                from_flags _ _ _ _ refl refl (now_shut c.audio_gate_open to_file _ e)
                  (now_complete to_file _ e) refl refl))

    boots-Gets :
        (transport : Bool)
        → Gets to_file callback gate_callback max_packets exists c
            (audio_from to_file callback gate_callback max_packets exists c
              (boots transport ∷ calls))
            (run to_file callback gate_callback max_packets exists calls (send_boot transport c).0)
    unfolding send_boot audio
    boots-Gets true =
        from_flags _ (c.boot_sent || true) _ _ (sym (set_now c.boot_sent)) refl refl refl refl refl
      where
        set_now : (b : Bool) → (b || true) ≡ true
        set_now b = ground arith
    boots-Gets false =
        from_flags _ (c.boot_sent || false) _ _ (sym (as_before c.boot_sent)) refl refl refl refl
          refl
      where
        as_before : (b : Bool) → (b || false) ≡ b
        as_before b = ground arith

  call-Gets :
      (call : RadioCall) (calls : List RadioCall) (c : RadioCapture)
      → Later to_file callback gate_callback max_packets exists calls
      → Gets to_file callback gate_callback max_packets exists c
          (audio_from to_file callback gate_callback max_packets exists c (call ∷ calls))
          (run to_file callback gate_callback max_packets exists calls
            (radio_call to_file callback gate_callback max_packets exists call c))
  unfolding radio_call
  call-Gets (boots transport) calls c k = boots-Gets c calls k transport
  call-Gets (receives from_peer data') calls c k =
      received-Gets to_file callback gate_callback max_packets exists c calls k from_peer data'
  call-Gets (sets_gate next) calls c k = gate-Gets c calls k next
  call-Gets closes calls c k = closes-Gets c calls k

  -- From any state the file and the callback, where they are set, get exactly the audio that
  -- passes, in order.
  pub radio_calls-Gets :
      (calls : List RadioCall) → Later to_file callback gate_callback max_packets exists calls
  unfolding radio_calls
  radio_calls-Gets [] c = record {
    kept = sym (nothing_more to_file c.payloads);
    heard = sym (nothing_more callback (payloads_of c.heard));
  }
    where
      nothing_more :
          (b : Bool) (xs : List Bytes)
          → xs
              ++ (if b
                  then audio to_file callback max_packets c.boot_sent c.boot_verified
                      c.audio_gate_open c.recording_complete
                      (length c.payloads)
                      []
                  else [])
            ≡ xs
      nothing_more true xs = unfold audio in append-nil xs
      nothing_more false xs = append-nil xs
  radio_calls-Gets (call ∷ calls) c = call-Gets call calls c (radio_calls-Gets calls)
