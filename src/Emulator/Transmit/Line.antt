-- ===== src/Emulator/Transmit/Line.antt =====
-- The PTT frames of the emulated microphone, seen as a line that is raised and lowered.
use ip_commandmic.Prelude.{
  ◌≡◌, if◌then◌else◌, List, [], ◌∷◌, Bytes, Bool, true, false, ◌&&◌, ◌=?◌, Option, none, some,
}
use ip_commandmic.Emulator.Actions.{Action, sent, ◌>>=◌}
use ip_commandmic.Emulator.Frames.{mic_ptt_down, mic_ptt_up}
use ip_commandmic.Emulator.Transmit.{
  Transmit, PttCall, PttDone, presses, releases, ends_session, perform,
}

-- The line: a press is only sent while it is up, a release only while it is down.
unfoldable pub line_step : Bool → Bytes → Option Bool
unfolding mic_ptt_down mic_ptt_up
line_step held frame =
    if held
    then (if frame =? mic_ptt_up then some false else none)
    else if frame =? mic_ptt_down
    then some true
    else none

unfoldable pub line_after : Bool → List Bytes → Option Bool
unfolding line_step
line_after held [] = some held
line_after held (frame ∷ frames) = do next ← line_step held frame; line_after next frames

-- Whether the connection is there where a call would release PTT.
abbrev pub connected : PttCall → Bool
connected (presses interactive_tx ready verified_udp source_ready acknowledged later audio_ok) =
    later
connected (releases ready audio_ok) = ready
connected (ends_session ready) = ready

-- The line over some calls. A call that lets go of PTT without a connection sends no release: the
-- line falls with the connection.
unfoldable pub line_over : List PttCall → Transmit → Bool → Option Bool
unfolding line_after perform
line_over [] t held = some held
line_over (call ∷ calls) t held = do
  next ← line_after held (sent (perform call t).1)
  line_over calls (perform call t).0
      (if connected call then next else next && (perform call t).0.ptt_asserted)

-- The frames of a step lead the line from the old flag to the new one.
abbrev Follows : Transmit → Transmit × List Action → Type 0
Follows t done = line_after t.ptt_asserted (sent done.1) ≡ some done.0.ptt_asserted

-- The same of a call that may raise.
abbrev Leads : Transmit → PttDone → Type 0
Leads t done = line_after t.ptt_asserted (sent done.1) ≡ some done.0.ptt_asserted

-- The same of a call that finds no connection where it would release PTT.
abbrev Drops : Transmit → Transmit × List Action → Type 0
Drops t done =
    (n : Bool) × (line_after t.ptt_asserted (sent done.1) ≡ some n)
    × ((n && done.0.ptt_asserted) ≡ done.0.ptt_asserted)

-- What a call does to the line, with or without a connection.
abbrev Turns : PttCall → Transmit → Type 0
Turns call t =
    (n : Bool) × (line_after t.ptt_asserted (sent (perform call t).1) ≡ some n)
    × ((if connected call then n else n && (perform call t).0.ptt_asserted)
        ≡ (perform call t).0.ptt_asserted)
