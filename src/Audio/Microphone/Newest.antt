-- ===== src/Audio/Microphone/Newest.antt =====
-- The microphone source delivers the newest frame, once.
use ip_commandmic.Prelude.{
  ◌+◌, ◌≡◌, refl, ◌∙◌, ap, ◌==◌, ==_iff, not, if◌then◌else◌, List, [], ◌∷◌, ◌++◌, Bytes, Bool, true,
  false, Bool-cases, inl, inr, length, drop, replicate,
}
use ip_commandmic.Audio.Microphone.{
  Source, ok, err, not_started, push_payload, newest, deliver, latest_payload,
}
use ip_commandmic.Audio.Microphone.Bounded.{IsFrame}

newest-snoc : (y : Bytes) (xs : List Bytes) (x : Bytes) → newest y (xs ++ x ∷ []) ≡ x
newest-snoc y [] x = refl
newest-snoc y (z ∷ xs) x = newest-snoc z xs x

deliver_snoc :
    (s : Source) (frames : List Bytes) (payload : Bytes)
    → deliver s (frames ++ payload ∷ [])
      ≡ (record s { frames = []; delivered = s.delivered + 1 }, ok payload)
unfolding deliver
deliver_snoc s [] payload = refl
deliver_snoc s (frame ∷ frames) payload =
    ap (λ p. (record s { frames = []; delivered = s.delivered + 1 }, ok p))
      (newest-snoc frame frames payload)

latest-snoc :
    (s : Source) (frames : List Bytes) (payload : Bytes)
    → s.started ≡ true
    → s.frames ≡ frames ++ payload ∷ []
    → latest_payload s ≡ (record s { frames = []; delivered = s.delivered + 1 }, ok payload)
unfolding latest_payload
latest-snoc s frames payload on e =
    gate s.started on ∙ ap (deliver s) e ∙ deliver_snoc s frames payload
  where
    gate :
        (t : Bool)
        → t ≡ true
        → (if not t then (s, err not_started) else deliver s s.frames) ≡ deliver s s.frames
    gate true h = refl
    gate false h = absurd cc

push_payload-snoc :
    (s : Source) (payload : Bytes)
    → s.started ≡ true
    → IsFrame payload
    → ((push_payload s payload).0.started ≡ true)
      × ((frames : List Bytes) × ((push_payload s payload).0.frames ≡ frames ++ payload ∷ []))
unfolding push_payload
push_payload-snoc s payload on frame =
    let sized : (length payload == 320) ≡ true = (==_iff _ _).1 frame in
    elim (Bool-cases (length s.frames == s.queue_packets)) [
      | inl full ↦ simp (sized, on, full) (refl, (drop 1 s.frames, refl))
      | inr room ↦ simp (sized, on, room) (refl, (s.frames, refl))
    ]

silence :
    (s : Source) → s.started ≡ true → s.frames ≡ [] → (latest_payload s).1 ≡ ok (replicate 320 0)
unfolding latest_payload deliver
silence s on none = gate s.started on ∙ ap (λ frames. (deliver s frames).1) none
  where
    gate :
        (t : Bool)
        → t ≡ true
        → (if not t then (s, err not_started) else deliver s s.frames).1 ≡ (deliver s s.frames).1
    gate true h = refl
    gate false h = absurd cc

-- On a source that is started, the call for a payload right after a push of 320 bytes returns
-- exactly these bytes, whatever was waiting before, and leaves nothing waiting, so that the next
-- call returns 320 zeros.
pub push_payload-latest :
    (s : Source) (payload : Bytes)
    → s.started ≡ true
    → IsFrame payload
    → let taken = latest_payload (push_payload s payload).0 in
      (taken.1 ≡ ok payload) × ((latest_payload taken.0).1 ≡ ok (replicate 320 0))
push_payload-latest s payload on frame =
    let (still_on, (frames, e)) = push_payload-snoc s payload on frame in
    let pushed = (push_payload s payload).0 in
    let taken = latest-snoc pushed frames payload still_on e in
    (ap (λ t. t.1) taken, ap (λ t. (latest_payload t.0).1) taken ∙ silence _ still_on refl)
