-- ===== src/Emulator/Udp/Gate/Balance.antt =====
-- What the counts of the radio's audio keep to, and the end of its recording.
use ip_commandmic.Prelude.{
  ℕ, ◌+◌, Option, none, some, concat, ◌≤◌, ◌<◌, ◌≡◌, refl, arith, if◌then◌else◌, List, [], ◌∷◌,
  ◌++◌, Bytes, Bool, true, false, not, ◌||◌, length, length-append,
}
use ip_commandmic.Emulator.Udp.Gate.{RadioCapture, RadioAudioGateEvent, finish_radio_recording}

pub choose :
    (P : RadioCapture → Type 0) {x y : RadioCapture} (b : Bool)
    → (b ≡ true → P x)
    → (b ≡ false → P y)
    → P (if b then x else y)
choose P true h k = h refl
choose P false h k = k refl

pub clash : {A : Type 0} {b : Bool} → b ≡ true → b ≡ false → A
clash on off = absurd cc

whole : (w : Bytes) (ps : List Bytes) → some (concat ps) ≡ some w → w ≡ concat ps
whole w ps e = cc

pub nothing : {o : Option Bytes} {w : Bytes} → o ≡ none → o ≡ some w → ⊥
nothing e k = cc

pub one_more :
    {A : Type 0} (b : Bool) (xs : List A) (x : A) (n : ℕ)
    → length xs ≡ (if b then n else 0)
    → length (if b then xs ++ x ∷ [] else xs) ≡ (if b then n + 1 else 0)
one_more true xs x n e = omega (arith, e, length-append xs (x ∷ []))
one_more false xs x n e = e

module _ (to_file callback gate_callback : Bool) (max_packets : ℕ) (exists : Bool) where
  -- The counts and the file, which hold also between a packet and the end of the recording.
  pub record IsBalanced (c : RadioCapture) : Type 0 where
    pub verified : c.boot_verified ≡ true → c.boot_sent ≡ true
    pub silent : c.boot_verified ≡ false → c.total_packets ≡ 0
    pub start : c.gate_packet_start ≤ c.total_packets
    pub recorded : length c.payloads ≡ (if to_file then c.total_packets else 0)
    pub passed : length c.heard ≡ (if callback then c.total_packets else 0)
    pub bounded : length c.payloads ≤ max_packets
    pub unsaved : c.recording_complete ≡ false → c.written ≡ none
    pub saved : (w : Bytes) → c.written ≡ some w → w ≡ concat c.payloads

  -- The counts, with a recording that can go on, or has ended and closed the gate.
  pub record IsSound (c : RadioCapture) : Type 0 where
    pub balanced : IsBalanced c
    pub room : c.recording_complete ≡ false → length c.payloads < max_packets
    pub closed : c.recording_complete ≡ true → c.audio_gate_open ≡ false

  pub one_bounded :
      (b : Bool) (xs : List Bytes) (x : Bytes)
      → length xs < max_packets
      → length (if b then xs ++ x ∷ [] else xs) ≤ max_packets
  one_bounded true xs x h = omega (arith, h, length-append xs (x ∷ []))
  one_bounded false xs x h = omega (arith, h)

  abbrev pub finish : RadioCapture → RadioCapture
  finish = finish_radio_recording to_file callback gate_callback max_packets exists

  -- What the balance does not depend on.
  pub moved-IsBalanced :
      (c : RadioCapture)
      → IsBalanced c
      → (open_ : Bool) (withheld : ℕ) (gates : List RadioAudioGateEvent)
      → IsBalanced
          (record c { audio_gate_open = open_; withheld_packets = withheld; gates = gates })
  moved-IsBalanced c h open_ withheld gates = record {
    verified = h.verified;
    silent = h.silent;
    start = h.start;
    recorded = h.recorded;
    passed = h.passed;
    bounded = h.bounded;
    unsaved = h.unsaved;
    saved = h.saved;
  }

  complete-IsSound :
      (c : RadioCapture)
      → IsBalanced c
      → c.recording_complete ≡ true
      → c.audio_gate_open ≡ false
      → IsSound c
  complete-IsSound c h complete shut = record {
    balanced = h;
    room = λ going. clash complete going;
    closed = λ again. shut;
  }

  -- The end of a recording, also where its last packet has just filled it.
  pub finish-IsSound :
      (c : RadioCapture)
      → IsBalanced c
      → ((not to_file || c.recording_complete) ≡ true → IsSound c)
      → IsSound (finish c)
  unfolding finish_radio_recording
  finish-IsSound c h sound = choose IsSound (not to_file || c.recording_complete) sound (λ e.
      choose IsSound exists
        (λ x.
          complete-IsSound _
            (record {
              verified = h.verified;
              silent = h.silent;
              start = h.start;
              recorded = h.recorded;
              passed = h.passed;
              bounded = h.bounded;
              unsaved = λ going. clash refl going;
              saved = h.saved;
            })
            refl refl)
        (λ x.
          complete-IsSound _
            (record {
              verified = h.verified;
              silent = h.silent;
              start = h.start;
              recorded = h.recorded;
              passed = h.passed;
              bounded = h.bounded;
              unsaved = λ going. clash refl going;
              saved = λ w e. whole w c.payloads e;
            })
            refl refl))
