-- ===== src/Emulator/Udp/Gate/Passed.antt =====
-- A datagram gives the file and the callback the audio that passes.
use mathlib.Core.Path.{subst}
use ip_commandmic.Prelude.{
  ℕ, ◌+◌, ◌≡◌, refl, arith, ◌∙◌, ap, ◌==◌, leb, if◌then◌else◌, List, [], ◌∷◌, ◌++◌, append_assoc,
  Bytes, Bool, true, false, Bool-cases, inl, inr, not, ◌&&◌, ◌||◌, ◌=?◌, length, length-append,
  slice, drop, some, concat,
}
use ip_commandmic.Protocol.Frame.{from_bytes_big}
use ip_commandmic.Emulator.Frames.{radio_boot_rtp}
use ip_commandmic.Emulator.Udp.Gate.{
  RadioAudioPacket, RadioCapture, radio_shape, finish_radio_recording, radio_counted,
  record_radio_rtp, radio_datagram_received, RadioCall, receives, radio_calls,
}
use ip_commandmic.Emulator.Udp.Gate.Audio.{from_radio, payloads_of, audio}

module _ (to_file callback gate_callback : Bool) (max_packets : ℕ) (exists : Bool) where
  abbrev pub audio_from : RadioCapture → List RadioCall → List Bytes
  audio_from c calls =
      audio to_file callback max_packets c.boot_sent c.boot_verified c.audio_gate_open
        c.recording_complete (length c.payloads) calls

  -- The file and the callback get some more audio.
  pub record Gets (c : RadioCapture) (passed : List Bytes) (out : RadioCapture) : Type 0 where
    pub kept : out.payloads ≡ c.payloads ++ (if to_file then passed else [])
    pub heard : payloads_of out.heard ≡ payloads_of c.heard ++ (if callback then passed else [])

  abbrev pub run : List RadioCall → RadioCapture → RadioCapture
  run calls c = radio_calls to_file callback gate_callback max_packets exists calls c

  -- The branches of a datagram, in the code and above.
  branches-Gets :
      (c x y next : RadioCapture) (calls : List RadioCall) (s t u : List Bytes)
      (booting valid unwanted open_ complete own : Bool)
      → Gets c s (run calls x)
      → Gets c u (run calls c)
      → Gets c u (run calls y)
      → (open_ ≡ true → complete ≡ false → Gets c t (run calls next))
      → Gets c
          (if booting
            then s
            else if valid && (not unwanted && (open_ && (not complete && own)))
            then t
            else u)
          (run calls (
            if booting
            then x
            else if not valid
            then c
            else if unwanted
            then c
            else if not open_ || complete
            then y
            else if not own
            then c
            else next))
  branches-Gets c x y n calls s t u true valid unwanted open_ complete own hx hc hy hn = hx
  branches-Gets c x y n calls s t u false false unwanted open_ complete own hx hc hy hn = hc
  branches-Gets c x y n calls s t u false true true open_ complete own hx hc hy hn = hc
  branches-Gets c x y n calls s t u false true false false complete own hx hc hy hn = hy
  branches-Gets c x y n calls s t u false true false true true own hx hc hy hn = hy
  branches-Gets c x y n calls s t u false true false true false false hx hc hy hn = hc
  branches-Gets c x y n calls s t u false true false true false true hx hc hy hn = hn refl refl

  one_longer :
      (b : Bool) (xs : List Bytes) (x : Bytes)
      → length (if b then xs ++ x ∷ [] else xs) ≡ (if b then length xs + 1 else length xs)
  one_longer true xs x = length-append xs (x ∷ [])
  one_longer false xs x = refl

  one_first :
      {A : Type 0} (b : Bool) (xs : List A) (x : A) (ys : List A)
      → (if b then xs ++ x ∷ [] else xs) ++ (if b then ys else [])
        ≡ xs ++ (if b then x ∷ ys else [])
  one_first true xs x ys = append_assoc xs (x ∷ []) ys
  one_first false xs x ys = refl

  payloads_of-append :
      (xs ys : List RadioAudioPacket) → payloads_of (xs ++ ys) ≡ payloads_of xs ++ payloads_of ys
  payloads_of-append [] ys = refl
  payloads_of-append (x ∷ xs) ys = ap (λ l. x.payload_s16be ∷ l) (payloads_of-append xs ys)

  payloads_of-more :
      (b : Bool) (xs : List RadioAudioPacket) (x : RadioAudioPacket)
      → payloads_of (if b then xs ++ x ∷ [] else xs)
        ≡ (if b then payloads_of xs ++ x.payload_s16be ∷ [] else payloads_of xs)
  payloads_of-more true xs x = payloads_of-append xs (x ∷ [])
  payloads_of-more false xs x = refl

  Gets-more :
      (c c' out : RadioCapture) (payload : Bytes) (passed : List Bytes)
      → c'.payloads ≡ (if to_file then c.payloads ++ payload ∷ [] else c.payloads)
      → payloads_of c'.heard
        ≡ (if callback then payloads_of c.heard ++ payload ∷ [] else payloads_of c.heard)
      → Gets c' passed out
      → Gets c (payload ∷ passed) out
  Gets-more c c' out payload passed e f g = record {
    kept =
        g.kept
        ∙ ap (λ l. l ++ (if to_file then passed else [])) e
        ∙ one_first to_file c.payloads payload passed;
    heard =
        g.heard
        ∙ ap (λ l. l ++ (if callback then passed else [])) f
        ∙ one_first callback (payloads_of c.heard) payload passed;
  }

  -- What the calls behind one get, from whatever state it leaves.
  abbrev pub Later : List RadioCall → Type 0
  Later calls = (c : RadioCapture) → Gets c (audio_from c calls) (run calls c)

  abbrev pub finish : RadioCapture → RadioCapture
  finish = finish_radio_recording to_file callback gate_callback max_packets exists

  module _ (c : RadioCapture) (calls : List RadioCall) (k : Later calls) where
    module _ (sequence timestamp : ℕ) (payload : Bytes) (on : c.audio_gate_open ≡ true)
        (going : c.recording_complete ≡ false) where
      abbrev counted : RadioCapture
      counted =
          radio_counted to_file callback gate_callback max_packets exists c sequence timestamp
            payload

      counted-payloads :
          counted.payloads ≡ (if to_file then c.payloads ++ payload ∷ [] else c.payloads)
      counted-payloads = unfold radio_counted in refl

      counted-heard :
          payloads_of counted.heard
          ≡ (if callback then payloads_of c.heard ++ payload ∷ [] else payloads_of c.heard)
      counted-heard = unfold radio_counted in payloads_of-more callback c.heard _

      counted-going : counted.recording_complete ≡ false
      counted-going = unfold radio_counted in going

      after_counted :
          audio to_file callback max_packets c.boot_sent c.boot_verified true false
            (length counted.payloads)
            calls
          ≡ audio_from counted calls
      unfolding radio_counted
      after_counted = rw (on, going) refl

      counted-Gets :
          Gets c
            (payload
              ∷ audio to_file callback max_packets c.boot_sent c.boot_verified true false
                  (length counted.payloads)
                  calls)
            (run calls counted)
      counted-Gets =
          Gets-more c counted _ payload _ counted-payloads counted-heard
            (rw after_counted (k counted))

      finished :
          to_file ≡ true
          → Gets c
              (payload
                ∷ audio to_file callback max_packets c.boot_sent c.boot_verified false true
                    (length counted.payloads)
                    calls)
              (run calls (finish counted))
      unfolding finish_radio_recording radio_counted
      finished filed = rw open_end (by_file exists)
        where
          open_end : (not to_file || counted.recording_complete) ≡ false
          open_end = rw (filed, counted-going) refl

          by_file :
              (b : Bool)
              → Gets c
                  (payload
                    ∷ audio to_file callback max_packets c.boot_sent c.boot_verified false true
                        (length counted.payloads)
                        calls)
                  (run calls (
                    if b
                    then record counted { audio_gate_open = false; recording_complete = true }
                    else record counted {
                      audio_gate_open = false;
                      recording_complete = true;
                      written = some (concat counted.payloads);
                    }))
          by_file true = Gets-more c _ _ payload _ counted-payloads counted-heard (k _)
          by_file false = Gets-more c _ _ payload _ counted-payloads counted-heard (k _)

      passed-Gets :
          Gets c
            (payload
              ∷ audio to_file callback max_packets c.boot_sent c.boot_verified
                  (not (to_file && leb max_packets (length counted.payloads)))
                  (to_file && leb max_packets (length counted.payloads))
                  (length counted.payloads)
                  calls)
            (run calls (
              if to_file && leb max_packets (length counted.payloads)
              then finish counted
              else counted))
      passed-Gets = elim (Bool-cases (to_file && leb max_packets (length counted.payloads))) [
        | inr e ↦ rw e counted-Gets
        | inl e ↦ rw e (finished (ground arith))
      ]

      packet-Gets :
          Gets c
            (payload
              ∷ (let kept = if to_file then length c.payloads + 1 else length c.payloads in
                  audio to_file callback max_packets c.boot_sent c.boot_verified
                    (not (to_file && leb max_packets kept))
                    (to_file && leb max_packets kept)
                    kept
                    calls))
            (run calls (
              if to_file && leb max_packets (length counted.payloads)
              then finish counted
              else counted))
      packet-Gets =
          subst
            (λ n.
              Gets c
                (payload
                  ∷ audio to_file callback max_packets c.boot_sent c.boot_verified
                      (not (to_file && leb max_packets n)) (to_file && leb max_packets n) n calls)
                (run calls (
                  if to_file && leb max_packets (length counted.payloads)
                  then finish counted
                  else counted)))
            (ap length counted-payloads ∙ one_longer to_file c.payloads payload) passed-Gets

    -- A state that keeps the audio.
    pub moved :
        (c' : RadioCapture) (xs : List Bytes) (out : RadioCapture)
        → c'.payloads ≡ c.payloads
        → c'.heard ≡ c.heard
        → Gets c' xs out
        → Gets c xs out
    moved c' xs out e f g = record {
      kept = g.kept ∙ ap (λ l. l ++ (if to_file then xs else [])) e;
      heard = g.heard ∙ ap (λ l. payloads_of l ++ (if callback then xs else [])) f;
    }

    pub received-Gets :
        (from_peer : Bool) (data' : Bytes)
        → Gets c (audio_from c (receives from_peer data' ∷ calls)) (
            run calls (
              radio_datagram_received to_file callback gate_callback max_packets exists from_peer
                data' c))
    unfolding radio_datagram_received record_radio_rtp audio
    received-Gets from_peer data' =
        branches-Gets c (record c { boot_verified = true })
          (record c { withheld_packets = c.withheld_packets + 1 }) _ calls _ _ _
          (c.boot_sent && from_peer && (data' =? radio_boot_rtp))
          (c.boot_verified && from_peer && (length data' == 332) && radio_shape data')
          (not to_file && not callback) c.audio_gate_open c.recording_complete (from_radio data')
          (moved _ _ _ refl refl (k _)) (k c) (moved _ _ _ refl refl (k _))
          (packet-Gets (from_bytes_big (slice data' 2 4)) (from_bytes_big (slice data' 4 8))
            (drop 12 data'))
