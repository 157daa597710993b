-- ===== src/Emulator/Mic/Streams.antt =====
-- The microphone's session on a stream of frames from the radio.
use ip_commandmic.Prelude.{
  ◌≡◌, refl, ◌∙◌, ap, if◌then◌else◌, sym, List, [], ◌∷◌, ◌++◌, append-nil, append_assoc, Bytes, All,
  Bool, true, false, Option, none, some, map, concat,
}
use ip_commandmic.Models.{radio_to_mic}
use ip_commandmic.Display.State.{}
use ip_commandmic.Protocol.Classify.{classify_message}
use ip_commandmic.Protocol.Classify.Readable.{}
use ip_commandmic.Protocol.Stream.Frames.{IsWire}
use ip_commandmic.Protocol.Stream.Heads.{IsLeft, parse_stream-heads}
use ip_commandmic.Emulator.Actions.{◌>>=◌}
use ip_commandmic.Emulator.Sessions.{Answer, goes_on, preceded, handle_all, after_answer, run_reads}
use ip_commandmic.Emulator.Mic.{MicSession, handle_mic}
use ip_commandmic.Emulator.Mic.Replies.{answered, answered-append, asks_probe, all_replies}
use ip_commandmic.Emulator.Mic.Handled.{IsFrame, wires-IsFrame, IsAnswer, handle_mic-IsAnswer}

-- A read, the frames that end in it, and what is left of it behind them.
abbrev pub Cut : Type 0
Cut = Bytes × List Bytes × Bytes

abbrev pub reads_of : List Cut → List Bytes
reads_of [] = []
reads_of ((data', frames, left) ∷ cuts) = data' ∷ reads_of cuts

abbrev pub frames_of : List Cut → List Bytes
frames_of [] = []
frames_of ((data', frames, left) ∷ cuts) = frames ++ frames_of cuts

-- Reads that cut a stream of frames anywhere; `rest` is left from before.
abbrev pub AreCuts : Bytes → List Cut → Type 0
AreCuts rest [] = Unit {0}
AreCuts rest ((data', frames, left) ∷ cuts) =
    (rest ++ data' ≡ concat frames ++ left) × All IsWire frames × IsLeft left × AreCuts left cuts

-- The replies to some frames that a session owes.
abbrev pub replies_of : MicSession → List Bytes → List Bytes
replies_of s raws = all_replies s.startup_sync_sent s.identity_sent s.probe_response_sent raws

-- A run that answers some frames and goes on: whatever follows is answered from its last state.
abbrev IsOpen : MicSession → List Bytes → Option (Answer MicSession) → Type 0
IsOpen s raws none = ⊥
IsOpen s raws (some a) =
    ((more : List Bytes)
      → answered a.actions ++ replies_of a.state more ≡ replies_of s (raws ++ more))
    × (a.returns ≡ false)

module _ (stable has_udp : Bool) where
  -- An answer, and a run behind it.
  behind-IsOpen :
      (s : MicSession) (raws later : List Bytes) (a : Answer MicSession)
      (o : Option (Answer MicSession))
      → IsOpen s raws (some a)
      → IsOpen a.state later o
      → IsOpen s (raws ++ later) (o >>= λ rest. some (preceded a.actions rest))
  behind-IsOpen s raws later a none h k = k
  behind-IsOpen s raws later a (some rest) h k = (
    λ more.
        ap (λ l. l ++ replies_of rest.state more) (answered-append a.actions rest.actions)
        ∙ append_assoc (answered a.actions) (answered rest.actions) (replies_of rest.state more)
        ∙ ap (λ l. answered a.actions ++ l) (k.0 more)
        ∙ h.0 (later ++ more)
        ∙ ap (replies_of s) (sym (append_assoc raws later more)),
    k.1,
  )

  going_on :
      (s : MicSession) (raws : List Bytes) (b : Bool) (x y : Option (Answer MicSession))
      → b ≡ false
      → IsOpen s raws y
      → IsOpen s raws (if b then x else y)
  going_on s raws true x y e h = absurd (never e)
    where
      never : true ≡ false → ⊥
      never k = cc
  going_on s raws false x y e h = h

  joined :
      (s : MicSession) (raws later : List Bytes) (o : Option (Answer MicSession))
      (run : MicSession → Option (Answer MicSession))
      → IsOpen s raws o
      → ((t : MicSession) → IsOpen t later (run t))
      → IsOpen s
          (raws ++ later)
          (o >>= λ a. after_answer (handle_mic stable has_udp) a (run a.state))
  joined s raws later none run h k = h
  joined s raws later (some a) run h k =
      unfold after_answer in
      going_on s (raws ++ later) a.returns (some a)
        (run a.state >>= λ rest. some (preceded a.actions rest)) h.1
        (behind-IsOpen s raws later a (run a.state) h (k a.state))

  answer-IsOpen :
      (s : MicSession) (raw : Bytes) (o : Option (Answer MicSession))
      → IsAnswer s (asks_probe raw) raw o
      → IsOpen s (raw ∷ []) o
  answer-IsOpen s raw none h = h
  answer-IsOpen s raw (some a) h =
      (λ more. rw (h.0, h.1, h.2, h.3) (unfold all_replies in refl), h.4)

  nothing-IsOpen : (s : MicSession) → IsOpen s [] (goes_on s [])
  nothing-IsOpen s = (λ more. refl, refl)

  -- The frames that end in one read.
  handle_all-IsOpen :
      (s : MicSession) (raws : List Bytes)
      → All IsFrame raws
      → IsOpen s raws (
          handle_all
            (handle_mic stable has_udp)
            s
            (map (λ raw. classify_message raw radio_to_mic) raws))
  unfolding handle_all
  handle_all-IsOpen s [] h = nothing-IsOpen s
  handle_all-IsOpen s (raw ∷ raws) (h, hs) =
      joined s (raw ∷ []) raws (handle_mic stable has_udp s (classify_message raw radio_to_mic)) _
        (answer-IsOpen s raw _ (handle_mic-IsAnswer stable has_udp s raw h))
        (λ t. handle_all-IsOpen t raws hs)

  run_reads-IsOpen :
      (s : MicSession) (rest : Bytes) (cuts : List Cut)
      → AreCuts rest cuts
      → IsOpen s
          (frames_of cuts)
          (run_reads (handle_mic stable has_udp) radio_to_mic s rest (reads_of cuts))
  unfolding run_reads
  run_reads-IsOpen s rest [] h = nothing-IsOpen s
  run_reads-IsOpen s rest ((data', frames, left) ∷ cuts) (seam, wires, is_left, h) =
      rw (seam, parse_stream-heads radio_to_mic left frames wires is_left)
        (joined s frames (frames_of cuts) _ _
          (handle_all-IsOpen s frames (wires-IsFrame frames wires))
          (λ t. run_reads-IsOpen t left cuts h))

  to_answer :
      (s : MicSession) (raws : List Bytes) (o : Option (Answer MicSession))
      → IsOpen s raws o
      → (a : Answer MicSession) × (o ≡ some a)
        × (answered a.actions ≡ replies_of s raws)
        × (a.returns ≡ false)
  to_answer s raws none h = elim h [ ]
  to_answer s raws (some a) h = (
    a,
    refl,
    sym (append-nil (answered a.actions))
        ∙ unfold all_replies in h.0 [] ∙ ap (replies_of s) (append-nil raws),
    h.1,
  )

  -- Any frames from the radio, cut into reads anywhere, are answered without an exception by the
  -- frames that `all_replies` lists, and the session goes on: the startup sync, the identity and
  -- the probe response at most once, one acknowledgement for each end of a display and one
  -- heartbeat for each heartbeat, in order. The probe response, which a task sends 5 ms later if
  -- the connection is still there, stands where it is begun; what the begun controls send for the
  -- operator is left out.
  pub run_reads-IsSession :
      (s : MicSession) (cuts : List Cut)
      → AreCuts [] cuts
      → (a : Answer MicSession) × (run_reads
            (handle_mic stable has_udp)
            radio_to_mic
            s
            []
            (reads_of cuts)
          ≡ some a)
        × (answered a.actions ≡ replies_of s (frames_of cuts))
        × (a.returns ≡ false)
  run_reads-IsSession s cuts h = to_answer s (frames_of cuts) _ (run_reads-IsOpen s [] cuts h)
