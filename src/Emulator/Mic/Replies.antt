-- ===== src/Emulator/Mic/Replies.antt =====
-- The frames that the microphone answers with, from the bytes of the messages alone.
use ip_commandmic.Prelude.{
  ◌≡◌, refl, ◌∙◌, ap, sym, ◌==◌, if◌then◌else◌, List, [], ◌∷◌, ◌++◌, append_assoc, Bytes, Bool,
  false, not, ◌&&◌, ◌||◌, ◌=?◌, Option, none, some,
}
use text.Mathlib.Text.{◌==◌ as str_eq}
use ip_commandmic.Models.{Message, get, radio_to_mic}
use ip_commandmic.Protocol.Classify.{radio_idle_heartbeat, mic_idle_heartbeat, classify_message}
use ip_commandmic.Protocol.Frame.{crc16_commandmic}
use ip_commandmic.Protocol.Stuffing.{stuff_bytes}
use ip_commandmic.Checksum.{crc16}
use ip_commandmic.Emulator.Actions.{
  Action, sends, audits, sleeps, restores_after, begins_task, cancels_task, plays, sets_gate,
  sends_boot, completes_display_test, closes, sent,
}
use ip_commandmic.Emulator.Frames.{
  radio_startup_hello, radio_startup_ready, mic_startup_sync, mic_identity, mic_display_ack,
  mic_probe_response, display_after,
}
use ip_commandmic.Emulator.Mic.{MicSession, is_int, mic_probe_response_after_special_prompt}

-- What a session sends, with the frames of the probe response that it begins, in the place where
-- it begins it, while the connection is there. The controls that it begins send what the operator asks for, and are left out.
abbrev pub answered : List Action → List Bytes
answered [] = []
answered (sends frames ∷ actions) = frames ++ answered actions
answered (begins_task name ∷ actions) =
    (if str_eq name "mic_probe_response"
      then sent (mic_probe_response_after_special_prompt false)
      else [])
    ++ answered actions
answered (audits event ∷ actions) = answered actions
answered (sleeps time ∷ actions) = answered actions
answered (restores_after time ∷ actions) = answered actions
answered (cancels_task name ∷ actions) = answered actions
answered (plays source ∷ actions) = answered actions
answered (sets_gate active ∷ actions) = answered actions
answered (sends_boot ∷ actions) = answered actions
answered (completes_display_test ∷ actions) = answered actions
answered (closes ∷ actions) = answered actions

pub answered-append : (xs ys : List Action) → answered (xs ++ ys) ≡ answered xs ++ answered ys
answered-append [] ys = refl
answered-append (sends frames ∷ xs) ys =
    ap (λ l. frames ++ l) (answered-append xs ys)
    ∙ sym (append_assoc frames (answered xs) (answered ys))
answered-append (begins_task name ∷ xs) ys =
    let begun =
      if str_eq name "mic_probe_response"
      then sent (mic_probe_response_after_special_prompt false)
      else [] in
    ap (λ l. begun ++ l) (answered-append xs ys)
    ∙ sym (append_assoc begun (answered xs) (answered ys))
answered-append (audits event ∷ xs) ys = answered-append xs ys
answered-append (sleeps time ∷ xs) ys = answered-append xs ys
answered-append (restores_after time ∷ xs) ys = answered-append xs ys
answered-append (cancels_task name ∷ xs) ys = answered-append xs ys
answered-append (plays source ∷ xs) ys = answered-append xs ys
answered-append (sets_gate active ∷ xs) ys = answered-append xs ys
answered-append (sends_boot ∷ xs) ys = answered-append xs ys
answered-append (completes_display_test ∷ xs) ys = answered-append xs ys
answered-append (closes ∷ xs) ys = answered-append xs ys

abbrev pub begins_special : Bytes → Bool
begins_special [] = false
begins_special (b ∷ bs) = b == 0xF5

-- Whether a message is a prompt of the special framing, of class 5 and command 3.
abbrev pub prompt_of : Message → Bool
prompt_of m =
    begins_special m.raw
    && (is_int 0x05 (get m.metadata "message_class") && is_int 0x03 (get m.metadata "command"))

abbrev pub asks_probe : Bytes → Bool
asks_probe raw = prompt_of (classify_message raw radio_to_mic)

-- The reply to one message: the startup sync, the identity and the probe response where they were
-- not sent yet, and an answer to every end of a display and to every heartbeat.
unfoldable pub replies : (sync_sent identity_sent probe_sent prompt : Bool) → Bytes → List Bytes
unfolding radio_startup_hello radio_startup_ready mic_startup_sync mic_identity display_after
    mic_display_ack mic_probe_response
replies sync_sent identity_sent probe_sent prompt raw =
    if (raw =? radio_startup_hello) && not sync_sent
    then mic_startup_sync
    else if (raw =? radio_startup_ready) && not identity_sent
    then mic_identity ∷ []
    else if prompt && not probe_sent
    then mic_probe_response
    else if raw =? display_after
    then mic_display_ack ∷ []
    else if raw =? radio_idle_heartbeat
    then mic_idle_heartbeat ∷ []
    else []

-- Whether the probe response was sent, behind a message.
abbrev pub probe_after : (sync_sent identity_sent probe_sent prompt : Bool) → Bytes → Bool
probe_after sync_sent identity_sent probe_sent prompt raw =
    probe_sent
    || (not ((raw =? radio_startup_hello) && not sync_sent)
        && (not ((raw =? radio_startup_ready) && not identity_sent) && prompt))

-- The replies to some messages, in order.
unfoldable pub all_replies : (sync_sent identity_sent probe_sent : Bool) → List Bytes → List Bytes
unfolding replies
all_replies sync_sent identity_sent probe_sent [] = []
all_replies sync_sent identity_sent probe_sent (raw ∷ raws) =
    replies sync_sent identity_sent probe_sent (asks_probe raw) raw
    ++ all_replies (sync_sent || (raw =? radio_startup_hello))
        (identity_sent || (raw =? radio_startup_ready))
        (probe_after sync_sent identity_sent probe_sent (asks_probe raw) raw) raws

pub hello-not_ready : (radio_startup_hello =? radio_startup_ready) ≡ false
unfolding radio_startup_hello radio_startup_ready stuff_bytes crc16_commandmic crc16
hello-not_ready = refl

-- The session and the actions that answer a message of these bytes.
abbrev pub IsReply : MicSession → Bool → Bytes → Option (MicSession × List Action) → Type 0
IsReply s prompt raw none = ⊥
IsReply s prompt raw (some (s', actions)) =
    (answered actions
      ≡ replies s.startup_sync_sent s.identity_sent s.probe_response_sent prompt raw)
    × (s'.startup_sync_sent ≡ (s.startup_sync_sent || (raw =? radio_startup_hello)))
    × (s'.identity_sent ≡ (s.identity_sent || (raw =? radio_startup_ready)))
    × (s'.probe_response_sent
        ≡ probe_after s.startup_sync_sent s.identity_sent s.probe_response_sent prompt raw)
