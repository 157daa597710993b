-- ===== src/Emulator/Udp/Gate/Received.antt =====
-- A datagram that the microphone receives keeps the counts.
use ip_commandmic.Prelude.{
  ℕ, ◌+◌, ◌<◌, ◌≡◌, refl, arith, leb, ◌==◌, if◌then◌else◌, Bytes, Bool, true, false, Bool-cases,
  inl, inr, not, ◌&&◌, ◌||◌, ◌=?◌, length, ◌⊎◌, slice, drop,
}
use ip_commandmic.Protocol.Frame.{from_bytes_big}
use ip_commandmic.Emulator.Frames.{radio_boot_rtp, radio_rtp_ssrc}
use ip_commandmic.Emulator.Udp.Gate.{
  RadioCapture, radio_shape, radio_counted, record_radio_rtp, radio_datagram_received,
}
use ip_commandmic.Emulator.Udp.Gate.Balance.{
  IsBalanced, IsSound, choose, clash, nothing, one_more, one_bounded, moved-IsBalanced, finish,
  finish-IsSound,
}

module _ (to_file callback gate_callback : Bool) (max_packets : ℕ) (exists : Bool) where
  abbrev Balanced : RadioCapture → Type 0
  Balanced = IsBalanced to_file callback gate_callback max_packets exists

  abbrev Sound : RadioCapture → Type 0
  Sound = IsSound to_file callback gate_callback max_packets exists

  module _ (c : RadioCapture) (h : Sound c) where
    module _ (sequence timestamp : ℕ) (payload : Bytes) (on : c.boot_verified ≡ true)
        (going : c.recording_complete ≡ false) where
      abbrev counted : RadioCapture
      counted =
          radio_counted to_file callback gate_callback max_packets exists c sequence timestamp
            payload

      counted-IsBalanced : Balanced counted
      unfolding radio_counted
      counted-IsBalanced = record {
        verified = h.balanced.verified;
        silent = λ off. clash on off;
        start = omega (arith, h.balanced.start);
        recorded = one_more to_file c.payloads payload c.total_packets h.balanced.recorded;
        passed = one_more callback c.heard _ c.total_packets h.balanced.passed;
        bounded =
            one_bounded to_file callback gate_callback max_packets exists to_file c.payloads payload
              (h.room going);
        unsaved = λ k. h.balanced.unsaved going;
        saved = λ w e. absurd (nothing (h.balanced.unsaved going) e);
      }

      counted-going : counted.recording_complete ≡ false
      unfolding radio_counted
      counted-going = going

      unkept : to_file ≡ false → length counted.payloads < max_packets
      unfolding radio_counted
      unkept e = rw e (h.room going)

      counted-IsSound :
          (to_file && leb max_packets (length counted.payloads)) ≡ false → Sound counted
      counted-IsSound e = record {
        balanced = counted-IsBalanced;
        room = λ k. room_left (Bool-cases to_file);
        closed = λ k. clash k counted-going;
      }
        where
          room_left : (to_file ≡ true) ⊎ (to_file ≡ false) → length counted.payloads < max_packets
          room_left (inl k) = ground arith
          room_left (inr k) = unkept k

      filled-IsSound :
          (to_file && leb max_packets (length counted.payloads)) ≡ true
          → Sound (finish to_file callback gate_callback max_packets exists counted)
      filled-IsSound e =
          finish-IsSound to_file callback gate_callback max_packets exists counted
            counted-IsBalanced (λ k. absurd (kept k counted-going))
        where
          kept :
              (not to_file || counted.recording_complete) ≡ true
              → counted.recording_complete ≡ false
              → ⊥
          kept k g = ground arith

      packet-IsSound :
          (foreign : Bool)
          → Sound (
              if foreign
              then c
              else if to_file && leb max_packets (length counted.payloads)
              then finish to_file callback gate_callback max_packets exists counted
              else counted)
      packet-IsSound foreign =
          choose Sound foreign (λ e. h)
            (λ e.
              choose Sound (to_file && leb max_packets (length counted.payloads)) filled-IsSound
                counted-IsSound)

    recorded-IsSound :
        (data' : Bytes)
        → c.boot_verified ≡ true
        → c.recording_complete ≡ false
        → Sound (record_radio_rtp to_file callback gate_callback max_packets exists data' c)
    unfolding record_radio_rtp
    recorded-IsSound data' on going =
        packet-IsSound (from_bytes_big (slice data' 2 4)) (from_bytes_big (slice data' 4 8))
          (drop 12 data') on going (not (from_bytes_big (slice data' 8 12) == radio_rtp_ssrc))

    -- A datagram: it may be the boot packet, invalid, without a sink, or outside the gate.
    branches-IsSound :
        (booting invalid unwanted shut : Bool) (next : RadioCapture)
        → (booting ≡ true → c.boot_sent ≡ true)
        → (invalid ≡ false → shut ≡ false → Sound next)
        → Sound (
            if booting
            then record c { boot_verified = true }
            else if invalid
            then c
            else if unwanted
            then c
            else if shut
            then record c { withheld_packets = c.withheld_packets + 1 }
            else next)
    branches-IsSound booting invalid unwanted shut next sent recorded =
        choose Sound booting
          (λ e. record {
            balanced = record {
              verified = λ on. sent e;
              silent = λ off. clash refl off;
              start = h.balanced.start;
              recorded = h.balanced.recorded;
              passed = h.balanced.passed;
              bounded = h.balanced.bounded;
              unsaved = h.balanced.unsaved;
              saved = h.balanced.saved;
            };
            room = h.room;
            closed = h.closed;
          })
          (λ e.
            choose Sound invalid (λ f. h)
              (λ valid.
                choose Sound unwanted (λ f. h)
                  (λ f.
                    choose Sound shut
                      (λ g. record {
                        balanced =
                            moved-IsBalanced to_file callback gate_callback max_packets exists c
                              h.balanced _ _ _;
                        room = h.room;
                        closed = h.closed;
                      })
                      (λ open_. recorded valid open_))))

    sent_first : (a b d : Bool) → (a && b && d) ≡ true → a ≡ true
    sent_first a b d e = ground arith

    verified_first : (a b d f : Bool) → not (a && b && d && f) ≡ false → a ≡ true
    verified_first a b d f e = ground arith

    going_on : (a b : Bool) → (not a || b) ≡ false → b ≡ false
    going_on a b e = ground arith

    pub received-IsSound :
        (from_peer : Bool) (data' : Bytes)
        → Sound (
            radio_datagram_received to_file callback gate_callback max_packets exists from_peer
              data' c)
    unfolding radio_datagram_received
    received-IsSound from_peer data' =
        branches-IsSound (c.boot_sent && from_peer && (data' =? radio_boot_rtp))
          (not (c.boot_verified && from_peer && (length data' == 332) && radio_shape data'))
          (not to_file && not callback) (not c.audio_gate_open || c.recording_complete)
          (record_radio_rtp to_file callback gate_callback max_packets exists data' c)
          (sent_first c.boot_sent from_peer (data' =? radio_boot_rtp))
          (λ valid going.
            recorded-IsSound data'
              (verified_first c.boot_verified from_peer (length data' == 332) (radio_shape data')
                valid)
              (going_on c.audio_gate_open c.recording_complete going))
