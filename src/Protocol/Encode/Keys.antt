-- ===== src/Protocol/Encode/Keys.antt =====
-- A key state from its name through the wire to the button and the action that are read.
use Prim.Native.String.{String}
use text.Mathlib.Text.{◌==◌ as str_eq}
use text.Mathlib.TextEquality.{eq_iff}
use ip_commandmic.Prelude.{
  ℕ, ◌<◌, ◌≡◌, refl, arith, ◌∙◌, ap, sym, if◌then◌else◌, inl, [], ◌∷◌, ◌++◌, Bytes, Text, codes,
  some, Bool, true, false, ◌&&◌, ◌=?◌, =?→eq, bit_or, append-nil,
}
use ip_commandmic.Errors.{Encoded, ok, err, ◌>>=◌}
use ip_commandmic.Models.{mic_to_radio, Value, null, int, str, chars, get, body, key_state}
use ip_commandmic.Controls.{key_press_values, normalize_button_name, key_wire_value}
use ip_commandmic.Controls.Laws.{
  entries_pass, text_get-pass, IsKeyValue, key_wire_value-IsKeyValue, IsKeyValue-lt,
}
use ip_commandmic.Protocol.Frame.{
  frame_of, build_frame, decode_wire_frame, crc16_commandmic, logical_tail,
}
use ip_commandmic.Protocol.Frame.RoundTrip.{IsSendable, build_frame-ok}
use ip_commandmic.Protocol.Readings.{verified_key_state, read_ordinary}
use ip_commandmic.Protocol.Classify.{base_metadata, ordinary_reading, classify_message}
use ip_commandmic.Protocol.Classify.Fields.{logical_bytes}
use ip_commandmic.Protocol.Classify.Built.{classify-build_frame, metadata-wire}
use ip_commandmic.Protocol.Stream.{parse_stream}
use ip_commandmic.Protocol.Stream.Sequence.{parse_stream-frames, frame_of-IsWire}
use ip_commandmic.Protocol.Encode.{encode_key_state, default_start}

same_value : Value → Value → Bool
same_value (chars a) (chars b) = a =? b
same_value (str a) (str b) = str_eq a b
same_value _ _ = false

same_value→eq : (v : Value) (t : Text) → same_value v (chars t) ≡ true → v ≡ chars t
unfolding same_value
same_value→eq (chars a) t h = ap chars (=?→eq a t h)
same_value→eq null t h = cc
same_value→eq _ t h = cc

same_value→eq_str : (v : Value) (s : String) → same_value v (str s) ≡ true → v ≡ str s
unfolding same_value
same_value→eq_str (str a) s h = ap str ((eq_iff a s).0 h)
same_value→eq_str null s h = cc
same_value→eq_str _ s h = cc

-- `str(action)` of a key state.
abbrev pub action_of : Bool → String
action_of released = if released then "release" else "press"

state_entry : Bool → Text → ℕ → Bool
state_entry released button value =
    let state = verified_key_state (bit_or value (if released then 0x80 else 0)) in
    same_value (state.0) (chars button) && same_value (state.1) (str (action_of released))

states_agree : (released : Bool) → entries_pass (state_entry released) key_press_values ≡ true
unfolding entries_pass state_entry same_value verified_key_state
states_agree true = refl
states_agree false = refl

-- The table of key states is the inverse of the table of wire values.
key_state-found :
    (button action : Text) (allow : Bool) (v : ℕ)
    → IsKeyValue button action allow v
    → ((verified_key_state v).0 ≡ chars (normalize_button_name button))
      × ((verified_key_state v).1 ≡ str (action_of (action =? codes "release")))
key_state-found button action allow v k =
    let released = action =? codes "release" in
    let agrees : state_entry released (normalize_button_name button) k.base ≡ true =
      text_get-pass (state_entry released) key_press_values (normalize_button_name button) k.base
        (states_agree released) k.found in
    rw k.value (parts released (normalize_button_name button) k.base agrees)
  where
    parts :
        (released : Bool) (name : Text) (base : ℕ)
        → state_entry released name base ≡ true
        → let state = verified_key_state (bit_or base (if released then 0x80 else 0)) in
          (state.0 ≡ chars name) × (state.1 ≡ str (action_of released))
    parts released name base h =
        let state = verified_key_state (bit_or base (if released then 0x80 else 0)) in
        let both =
          and_parts (same_value (state.0) (chars name))
            (same_value (state.1) (str (action_of released))) (unfold state_entry in h) in
        (
          same_value→eq (state.0) name both.0,
          same_value→eq_str (state.1) (action_of released) both.1,
        )
      where
        and_parts : (a b : Bool) → (a && b) ≡ true → (a ≡ true) × (b ≡ true)
        and_parts true b e = (refl, e)
        and_parts false b e = cc

key-IsSendable : (v : ℕ) → v < 256 → IsSendable 0x01 0x01 (v ∷ []) 0xF3
key-IsSendable v h = record {
  start = inl refl;
  class_byte = omega arith;
  command_byte = omega arith;
  short = omega arith;
  bytes = (h, tt);
}

encode-inversion :
    (r : Encoded ℕ) (frame : Bytes)
    → (r >>= λ v. build_frame 0x01 0x01 (v ∷ []) default_start) ≡ ok frame
    → (v : ℕ) × (r ≡ ok v) × (build_frame 0x01 0x01 (v ∷ []) default_start ≡ ok frame)
encode-inversion (ok v) frame e = (v, refl, e)
encode-inversion (err x) frame e = absurd (refused e)
  where
    refused : (◌≡◌ {A = Encoded Bytes} (err x) (ok frame)) → ⊥
    refused h = cc

ok-injective : (a b : Bytes) → (◌≡◌ {A = Encoded Bytes} (ok a) (ok b)) → a ≡ b
ok-injective a b e = cc

-- If `encode_key_state` returns a frame for a named button, the stream parser reads that frame from
-- the microphone as one key state and nothing else, which names the canonical button and the
-- action: release if that was asked for, and otherwise press.
pub encode_key_state-parse :
    (button action : Text) (allow_emergency : Bool) (frame : Bytes)
    → encode_key_state (some button) action allow_emergency ≡ ok frame
    → let m = classify_message frame mic_to_radio in
      (parse_stream frame mic_to_radio ≡ some (record { messages = m ∷ []; remainder = [] }))
      × (m.kind ≡ key_state)
      × (m.checksum_valid ≡ some true)
      × (get m.metadata "key_button" ≡ some (chars (normalize_button_name button)))
      × (get m.metadata "key_action" ≡ some (str (action_of (action =? codes "release"))))
encode_key_state-parse button action allow frame e = rw same (
  ap (λ t. parse_stream t mic_to_radio) (sym (append-nil wire))
      ∙ parse_stream-frames mic_to_radio (wire ∷ []) (frame_of-IsWire sendable, tt),
  classified.3 ∙ unfold read_ordinary in refl,
  classified.2,
  ap (λ m. get m "key_button") (metadata-wire sendable mic_to_radio (omega arith))
      ∙ button_read
      ∙ ap some found.0,
  ap (λ m. get m "key_action") (metadata-wire sendable mic_to_radio (omega arith))
      ∙ action_read
      ∙ ap some found.1,
)
  where
    inverted :
        (v : ℕ) × (key_wire_value (some button) action allow ≡ ok v)
        × (build_frame 0x01 0x01 (v ∷ []) default_start ≡ ok frame)
    inverted =
        encode-inversion (key_wire_value (some button) action allow) frame
          (unfold encode_key_state in e)

    v : ℕ
    v = inverted.0

    key : IsKeyValue button action allow v
    key = key_wire_value-IsKeyValue button action allow v inverted.1

    sendable : IsSendable 0x01 0x01 (v ∷ []) 0xF3
    sendable = key-IsSendable v (IsKeyValue-lt button action allow v key)

    wire : Bytes
    wire = frame_of 0x01 0x01 (v ∷ []) 0xF3

    same : frame ≡ wire
    same = ok-injective frame wire (sym inverted.2 ∙ build_frame-ok sendable)

    found :
        ((verified_key_state v).0 ≡ chars (normalize_button_name button))
        × ((verified_key_state v).1 ≡ str (action_of (action =? codes "release")))
    found = key_state-found button action allow v key

    classified :
        let m = classify_message wire mic_to_radio in
        let reading = read_ordinary mic_to_radio 0x01 0x01 (v ∷ []) in
        (build_frame 0x01 0x01 (v ∷ []) 0xF3 ≡ ok wire)
        × (m.framing_valid ≡ true)
        × (m.checksum_valid ≡ some true)
        × (m.kind ≡ reading.kind)
        × (m.evidence ≡ reading.evidence)
        × (body m ≡ some (v ∷ []))
    classified = classify-build_frame sendable mic_to_radio (omega arith)

    button_read :
        get
          (base_metadata (logical_bytes sendable) (decode_wire_frame wire).stuffed
            ++ (("checksum", int (crc16_commandmic (logical_tail 0x01 0x01 (v ∷ []))))
                ∷ (ordinary_reading mic_to_radio 0x01 0x01 1 (v ∷ [])).extra))
          "key_button"
        ≡ some ((verified_key_state v).0)
    button_read = unfold get ordinary_reading read_ordinary in refl

    action_read :
        get
          (base_metadata (logical_bytes sendable) (decode_wire_frame wire).stuffed
            ++ (("checksum", int (crc16_commandmic (logical_tail 0x01 0x01 (v ∷ []))))
                ∷ (ordinary_reading mic_to_radio 0x01 0x01 1 (v ∷ [])).extra))
          "key_action"
        ≡ some ((verified_key_state v).1)
    action_read = unfold get ordinary_reading read_ordinary in refl
