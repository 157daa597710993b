-- ===== src/Emulator/Transmit.antt =====
-- The transmission state of the emulated microphone in src/ip_commandmic/emulator.py, and the keys of
-- an operator: `press_interactive_ptt` and the functions beside it.
pub mod Line
use ip_commandmic.Prelude.{
  ℕ, if◌then◌else◌, List, [], ◌∷◌, ◌++◌, Text, Bool, true, false, not, ◌&&◌, ◌||◌, Option, none,
  some,
}
use ip_commandmic.Emulator.Actions.{Action, sends, audits, begins_task, cancels_task}
use ip_commandmic.Emulator.Frames.{mic_ptt_down, mic_ptt_up}

-- `_mic_ptt_asserted`, the events `_mic_tx_active`, `_mic_tx_closed` and `_interactive_tx_stop`, and
-- whether `_interactive_tx_task` is set.
pub record Transmit : Type 0 where
  pub ptt_asserted : Bool
  pub tx_active : Bool
  pub tx_closed : Bool
  pub tx_stop : Bool
  pub tx_task : Bool

-- The values of `__init__`.
abbrev pub idle_transmit : Transmit
idle_transmit = record {
  ptt_asserted = false;
  tx_active = false;
  tx_closed = false;
  tx_stop = false;
  tx_task = false;
}

-- The RuntimeErrors and the TimeoutError.
pub data PttError : Type 0 where
  not_armed controls_not_ready no_udp_protocol no_audio_source : PttError
  no_acknowledgement audio_failed : PttError

-- The state after a call, what it did, and what it raised.
abbrev pub PttDone : Type 0
PttDone = Transmit × List Action × Option PttError

-- The PTT release, where it is held and the connection is there.
unfoldable pub release_frames : Bool → Transmit → List Action
unfolding mic_ptt_up
release_frames ready t = if t.ptt_asserted && ready then sends (mic_ptt_up ∷ []) ∷ [] else []

released_error : Bool → Bool → Bool → Option PttError
released_error fail_closed task audio_ok =
    if task && (not audio_ok && not fail_closed) then some audio_failed else none

-- `_release_interactive_ptt_locked`: `ready` is whether there is a writer that is not closing, and
-- `audio_ok` whether the audio task ends in time without an error.
unfoldable pub release_locked : Bool → Bool → Bool → Transmit → PttDone
unfolding release_frames released_error
release_locked fail_closed ready audio_ok t =
    let error = released_error fail_closed t.tx_task audio_ok in
    (
      record t { ptt_asserted = false; tx_stop = true; tx_task = false },
      release_frames ready t,
      error,
    )

-- `release_interactive_ptt`
unfoldable pub release_interactive_ptt : Bool → Bool → Transmit → PttDone
unfolding release_locked
release_interactive_ptt ready audio_ok t = release_locked false ready audio_ok t

-- The press, with the events cleared and the frame sent.
ptt_pressed : Transmit → Transmit
ptt_pressed t = record t {
  ptt_asserted = true;
  tx_active = false;
  tx_closed = false;
  tx_stop = false;
}

-- What follows the press: an acknowledgement, or the release that closes the attempt.
unfoldable pub after_press : Bool → Bool → Bool → Transmit → PttDone
unfolding release_locked mic_ptt_down
after_press acknowledged ready audio_ok t =
    let failed = release_locked true ready audio_ok t in
    if acknowledged
    then (
      record t { tx_active = true; tx_task = true },
      sends (mic_ptt_down ∷ []) ∷ begins_task "interactive_tx" ∷ [],
      none,
    )
    else (failed.0, (sends (mic_ptt_down ∷ []) ∷ failed.1), some no_acknowledgement)

-- `press_interactive_ptt`: `acknowledged` is whether `_mic_tx_active` is set within a second, and
-- `ready_later` whether the connection is still there if it is not.
unfoldable pub press_interactive_ptt :
    (interactive_tx ready verified_udp source_ready acknowledged ready_later audio_ok : Bool)
    → Transmit
    → PttDone
unfolding after_press ptt_pressed
press_interactive_ptt interactive_tx ready verified_udp source_ready acknowledged ready_later
      audio_ok t =
    if not interactive_tx
    then (t, [], some not_armed)
    else if t.ptt_asserted
    then (t, [], none)
    else if not ready
    then (t, [], some controls_not_ready)
    else if not verified_udp
    then (t, [], some no_udp_protocol)
    else if not source_ready
    then (t, [], some no_audio_source)
    else after_press acknowledged ready_later audio_ok (ptt_pressed t)

-- The end of a session: the part of the `finally` of `_session` about PTT.
unfoldable pub end_transmit : Bool → Transmit → Transmit × List Action
unfolding release_frames
end_transmit ready t =
    (record t { ptt_asserted = false; tx_stop = true; tx_task = false }, release_frames ready t)

-- The calls that reach the transmission state, each with what it finds and with what happens
-- while it waits.
pub data PttCall : Type 0 where
  presses :
      (interactive_tx ready verified_udp source_ready acknowledged ready_later audio_ok : Bool)
      → PttCall
  releases : (ready audio_ok : Bool) → PttCall
  ends_session : (ready : Bool) → PttCall

unfoldable pub perform : PttCall → Transmit → Transmit × List Action
unfolding press_interactive_ptt release_interactive_ptt end_transmit
perform (presses interactive_tx ready verified_udp source_ready acknowledged ready_later audio_ok)
      t =
    let done =
      press_interactive_ptt interactive_tx ready verified_udp source_ready acknowledged ready_later
        audio_ok t in
    (done.0, done.1)
perform (releases ready audio_ok) t =
    let done = release_interactive_ptt ready audio_ok t in (done.0, done.1)
perform (ends_session ready) t = end_transmit ready t

unfoldable pub perform_all : List PttCall → Transmit → Transmit × List Action
unfolding perform
perform_all [] t = (t, [])
perform_all (call ∷ calls) t =
    let done = perform call t in
    let later = perform_all calls done.0 in (later.0, (done.1 ++ later.1))
