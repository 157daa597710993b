-- ===== src/Audio/Microphone/Bounded.antt =====
-- The queue of the microphone source stays bounded and counts every frame, whatever calls are made.
use mathlib.Core.Path.{subst}
use ip_commandmic.Prelude.{
  ℕ, suc, ◌+◌, ◌≤◌, ◌≡◌, ◌≢◌, refl, arith, ap, ◌==◌, ==_iff, leb, not, ◌&&◌, if◌then◌else◌, List,
  [], ◌∷◌, ◌++◌, Bytes, All, Bool, true, false, Bool-cases, inl, inr, length, length-append,
  length-drop, drop,
}
use ip_commandmic.Audio.Microphone.{
  Source, Outcome, ok, err, bad_queue_packets, new_source, start, push_payload, deliver,
  latest_payload, close,
}

-- A frame of 20 ms.
abbrev pub IsFrame : Bytes → Type 0
IsFrame payload = length payload ≡ 320

-- The queue holds whole frames, at most `queue_packets` of them, which is 1 to 3; a source that is
-- not started holds none; and no more frames were overwritten, delivered or are waiting than were
-- captured.
pub record IsSource (s : Source) : Type 0 where
  pub sized : (1 ≤ s.queue_packets) × (s.queue_packets ≤ 3)
  pub fits : length s.frames ≤ s.queue_packets
  pub whole : All IsFrame s.frames
  pub stopped : s.started ≡ false → s.frames ≡ []
  pub counted : s.delivered + s.overwritten + length s.frames ≤ s.captured

All-rest : (xs : List Bytes) → All IsFrame xs → All IsFrame (drop 1 xs)
All-rest [] h = tt
All-rest (x ∷ xs) h = h.1

All-snoc : (xs : List Bytes) (x : Bytes) → All IsFrame xs → IsFrame x → All IsFrame (xs ++ x ∷ [])
All-snoc [] x h k = (k, tt)
All-snoc (y ∷ xs) x h k = (h.0, All-snoc xs x h.1 k)

clash : {A : Type 0} (b : Bool) → b ≡ true → b ≡ false → A
clash b on off = absurd cc

differ : {a b : ℕ} → (a == b) ≡ false → a ≢ b
differ {a} {b} e = ground arith

module _ (s : Source) (h : IsSource s) where
  start-IsSource : IsSource (start s).0
  unfolding start
  start-IsSource = elim (Bool-cases s.started) [
    | inl e ↦ simp e h
    | inr e ↦ simp e (record {
      sized = h.sized;
      fits = omega arith;
      whole = tt;
      stopped = λ f. refl;
      counted = omega (arith, h.counted);
    })
  ]

  push-full :
      (payload : Bytes)
      → IsFrame payload
      → length s.frames ≡ s.queue_packets
      → IsSource (record s {
        frames = drop 1 s.frames ++ payload ∷ [];
        started = true;
        captured = s.captured + 1;
        overwritten = s.overwritten + 1;
      })
  push-full payload frame full =
      let kept = length-append (drop 1 s.frames) (payload ∷ []) in
      let dropped = length-drop 1 s.frames in
      record {
        sized = h.sized;
        fits = omega (arith, kept, dropped, h.fits, h.sized);
        whole = All-snoc (drop 1 s.frames) payload (All-rest s.frames h.whole) frame;
        stopped = λ off. clash true refl off;
        counted = omega (arith, kept, dropped, full, h.counted, h.sized);
      }

  push-room :
      (payload : Bytes)
      → IsFrame payload
      → length s.frames ≢ s.queue_packets
      → IsSource (record s {
        frames = s.frames ++ payload ∷ [];
        started = true;
        captured = s.captured + 1;
      })
  push-room payload frame room =
      let kept = length-append s.frames (payload ∷ []) in
      record {
        sized = h.sized;
        fits = omega (arith, kept, h.fits, room);
        whole = All-snoc s.frames payload h.whole frame;
        stopped = λ off. clash true refl off;
        counted = omega (arith, kept, h.counted);
      }

  push-IsSource : (payload : Bytes) → IsSource (push_payload s payload).0
  unfolding push_payload
  push-IsSource payload = elim (Bool-cases (length payload == 320)) [
    | inr wrong ↦ simp wrong h
    | inl frame ↦ elim (Bool-cases s.started) [
      | inr off ↦ simp (frame, off) h
      | inl on ↦ elim (Bool-cases (length s.frames == s.queue_packets)) [
        | inl full ↦
            simp (frame, on, full) (push-full payload ((==_iff _ _).0 frame) ((==_iff _ _).0 full))
        | inr room ↦ simp (frame, on, room) (push-room payload ((==_iff _ _).0 frame) (differ room))
      ]
    ]
  ]

  deliver-IsSource :
      (frames : List Bytes) → s.frames ≡ frames → s.started ≡ true → IsSource (deliver s frames).0
  unfolding deliver
  deliver-IsSource [] e on = record {
    sized = h.sized;
    fits = h.fits;
    whole = h.whole;
    stopped = h.stopped;
    counted = h.counted;
  }
  deliver-IsSource (frame ∷ frames) e on =
      let size : length s.frames ≡ suc (length frames) = ap length e in
      record {
        sized = h.sized;
        fits = omega arith;
        whole = tt;
        stopped = λ off. refl;
        counted = omega (arith, h.counted, size);
      }

  latest-IsSource : IsSource (latest_payload s).0
  unfolding latest_payload
  latest-IsSource = elim (Bool-cases s.started) [
    | inl e ↦ simp e (deliver-IsSource s.frames refl e)
    | inr e ↦ simp e h
  ]

  close-IsSource : IsSource (close s)
  unfolding close
  close-IsSource = record {
    sized = h.sized;
    fits = omega arith;
    whole = tt;
    stopped = λ f. refl;
    counted = omega (arith, h.counted);
  }

-- The calls that a program makes.
pub data Call : Type 0 where
  starting : Call
  pushing : Bytes → Call
  taking : Call
  closing : Call

abbrev pub after_call : Source → Call → Source
after_call s starting = (start s).0
after_call s (pushing payload) = (push_payload s payload).0
after_call s taking = (latest_payload s).0
after_call s closing = close s

abbrev pub after_calls : Source → List Call → Source
after_calls s [] = s
after_calls s (call ∷ calls) = after_calls (after_call s call) calls

after_call-IsSource : (s : Source) (call : Call) → IsSource s → IsSource (after_call s call)
after_call-IsSource s starting h = start-IsSource s h
after_call-IsSource s (pushing payload) h = push-IsSource s h payload
after_call-IsSource s taking h = latest-IsSource s h
after_call-IsSource s closing h = close-IsSource s h

after_calls-IsSource :
    (s : Source) (calls : List Call) → IsSource s → IsSource (after_calls s calls)
after_calls-IsSource s [] h = h
after_calls-IsSource s (call ∷ calls) h =
    after_calls-IsSource (after_call s call) calls (after_call-IsSource s call h)

abbrev fresh : ℕ → Source
fresh n = record {
  queue_packets = n;
  frames = [];
  started = false;
  captured = 0;
  delivered = 0;
  overwritten = 0;
  underruns = 0;
}

new_source-IsSource : (n : ℕ) (s : Source) → new_source n ≡ ok s → IsSource s
unfolding new_source
new_source-IsSource n s e = made (leb 1 n && leb n 3) refl e
  where
    same : (a b : Source) → (◌≡◌ {A = Outcome Source} (ok a) (ok b)) → a ≡ b
    same a b h = cc

    made :
        (t : Bool)
        → (leb 1 n && leb n 3) ≡ t
        → (if not t then err bad_queue_packets else ok (fresh n)) ≡ ok s
        → IsSource s
    made false range h = cc
    made true range h =
        let sized : (1 ≤ n) × (n ≤ 3) = ground arith in
        subst IsSource (same (fresh n) s h) (record {
          sized = sized;
          fits = omega arith;
          whole = tt;
          stopped = λ off. refl;
          counted = omega arith;
        })

-- Whatever calls are made on a source that was constructed, in whatever order and also where they
-- fail: its queue holds at most `queue_packets` frames, which is 1 to 3, each of 320 bytes; it
-- holds none while it is not started; and the frames delivered, overwritten and waiting are
-- together no more than were captured.
pub new_source-calls :
    (n : ℕ) (s : Source) (calls : List Call) → new_source n ≡ ok s → IsSource (after_calls s calls)
new_source-calls n s calls e = after_calls-IsSource s calls (new_source-IsSource n s e)
