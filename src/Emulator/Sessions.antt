-- ===== src/Emulator/Sessions.antt =====
-- The loop that the sessions of src/ip_commandmic/emulator.py share: what is read is parsed together
-- with the remainder, and the messages are handled in order. `_session` itself, where it only
-- answers heartbeats, and the properties of the emulator about its role.
use ip_commandmic.Prelude.{
  if◌then◌else◌, List, [], ◌∷◌, ◌++◌, Bytes, Text, codes, Bool, true, false, ◌&&◌, ◌=?◌, Option,
  some,
}
use ip_commandmic.Models.{Direction, radio_to_mic, mic_to_radio, MessageKind, Message}
use ip_commandmic.Protocol.Classify.{radio_idle_heartbeat, mic_idle_heartbeat}
use ip_commandmic.Protocol.Stream.{parse_stream}
use ip_commandmic.Emulator.Actions.{Action, sends, audits, ◌>>=◌}

-- A state, what was done, and whether the session returns.
pub record Answer (S : Type 0) : Type 0 where
  pub state : S
  pub actions : List Action
  pub returns : Bool

abbrev pub goes_on : {S : Type 0} → S → List Action → Option (Answer S)
goes_on state actions = some (record { state = state; actions = actions; returns = false })

-- An answer, with what was done before it.
abbrev pub preceded : {S : Type 0} → List Action → Answer S → Answer S
preceded earlier a = record a { actions = earlier ++ a.actions }

module _ {S : Type 0} (handle : S → Message → Option (Answer S)) where
  unfoldable pub after_answer : Answer S → Option (Answer S) → Option (Answer S)
  after_answer a later =
      if a.returns then some a else (do rest ← later; some (preceded a.actions rest))

  -- The messages of one read; `none` where a handler raises.
  unfoldable pub handle_all : S → List Message → Option (Answer S)
  unfolding after_answer
  handle_all s [] = goes_on s []
  handle_all s (message ∷ messages) = do
    a ← handle s message
    after_answer a (handle_all a.state messages)

module _ {S : Type 0} (handle : S → Message → Option (Answer S)) (direction : Direction) where
  -- A run of reads, each with the remainder of the one before.
  unfoldable pub run_reads : S → Bytes → List Bytes → Option (Answer S)
  unfolding handle_all after_answer parse_stream
  run_reads s remainder [] = goes_on s []
  run_reads s remainder (data' ∷ reads) = do
    parsed ← parse_stream (remainder ++ data') direction
    a ← handle_all handle s parsed.messages
    after_answer handle a (run_reads a.state parsed.remainder reads)

-- `incoming_direction`, `expected_heartbeat` and `response_heartbeat`, by `config.role`.
unfoldable pub incoming_direction : Text → Direction
incoming_direction role = if role =? codes "mic" then radio_to_mic else mic_to_radio

unfoldable pub expected_heartbeat : Text → Bytes
expected_heartbeat role = if role =? codes "mic" then radio_idle_heartbeat else mic_idle_heartbeat

unfoldable pub response_heartbeat : Text → Bytes
response_heartbeat role = if role =? codes "mic" then mic_idle_heartbeat else radio_idle_heartbeat

abbrev pub is_heartbeat : MessageKind → Bool
is_heartbeat MessageKind.heartbeat = true
is_heartbeat _ = false

-- The handler of `_session` without a verified startup.
unfoldable pub answer_heartbeat : Text → Unit {0} → Message → Option (Answer (Unit {0}))
unfolding expected_heartbeat response_heartbeat
answer_heartbeat role u m =
    if is_heartbeat m.kind && (m.raw =? expected_heartbeat role)
    then goes_on u (
        audits "received"
        ∷ sends (response_heartbeat role ∷ [])
        ∷ audits "sent_observed_heartbeat"
        ∷ [])
    else goes_on u (audits "received" ∷ audits "withheld_unknown_response" ∷ [])
