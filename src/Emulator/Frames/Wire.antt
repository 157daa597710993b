-- ===== src/Emulator/Frames/Wire.antt =====
-- The constant frames of the emulated endpoints, and the sync of the radio, on the wire.
use ip_commandmic.Prelude.{
  ℕ, ◌<◌, ◌≡◌, refl, arith, ◌∙◌, ap, ltb, leb, [], ◌∷◌, Bytes, Text, codes, All, true, ◌&&◌, ◌=?◌,
  Option, some, one_of, length, inl, inr, Bool-cases, replicate,
}
use ip_commandmic.Protocol.Frame.RoundTrip.{IsSendable, build_frame-ok}
use ip_commandmic.Protocol.Stream.Frames.{IsWire}
use ip_commandmic.Protocol.Stream.Sequence.{frame_of-IsWire}
use ip_commandmic.Protocol.Encode.{backlight_value, encode_backlight_state}
use ip_commandmic.Emulator.Actions.Wire.{IsFramed, all_bytes, all_bytes→IsBytes}
use ip_commandmic.Emulator.Frames.{
  built, radio_stable_frames, radio_stable_sync, sync_with, encoded_some, companion_of,
  backlight_states, radio_status_carousel, radio_audio_open, radio_audio_close,
  radio_audio_status_open, radio_audio_status_closed,
}

built-IsSendable :
    (message_class command : ℕ) (payload : Bytes)
    → (ltb message_class 256
        && (ltb command 256 && (ltb (length payload) 65536 && all_bytes payload)))
      ≡ true
    → IsSendable message_class command payload 0xF3
built-IsSendable message_class command payload h = record {
  start = inl refl;
  class_byte = ground arith;
  command_byte = ground arith;
  short = ground arith;
  bytes = all_bytes→IsBytes payload (ground arith);
}

pub built-IsWire :
    (message_class command : ℕ) (payload : Bytes)
    → (ltb message_class 256
        && (ltb command 256 && (ltb (length payload) 65536 && all_bytes payload)))
      ≡ true
    → IsWire (built message_class command payload)
built-IsWire message_class command payload h =
    frame_of-IsWire (built-IsSendable message_class command payload h)

-- A frame of one byte.
pub byte-IsWire :
    (message_class command b : ℕ)
    → message_class < 256
    → command < 256
    → b < 256
    → IsWire (built message_class command (b ∷ []))
byte-IsWire message_class command b h k l = frame_of-IsWire (record {
  start = inl refl;
  class_byte = h;
  command_byte = k;
  short = omega arith;
  bytes = (l, tt);
})

backlight-found :
    (state : Text)
    → one_of state backlight_states ≡ true
    → (v : ℕ) × (v < 256) × (backlight_value state ≡ some v)
unfolding backlight_value
backlight-found state h = elim (Bool-cases (state =? codes "off")) [
  | inl e ↦ (0, omega arith, rw e refl)
  | inr e ↦ elim (Bool-cases (state =? codes "dim")) [
    | inl k ↦ (1, omega arith, rw (e, k) refl)
    | inr k ↦ (2, omega arith, rw (e, k) (ground arith))
  ]
]

backlight-built :
    (state : Text) (v : ℕ)
    → v < 256
    → backlight_value state ≡ some v
    → encoded_some (encode_backlight_state state) ≡ some (built 0x02 0x0B (v ∷ []))
backlight-built state v h e =
    unfold encode_backlight_state in
    rw e (
      ap encoded_some (
        build_frame-ok (record {
          start = inl refl;
          class_byte = omega arith;
          command_byte = omega arith;
          short = omega arith;
          bytes = (h, tt);
        }))
      ∙ unfold encoded_some in refl)

sync_with-IsFramed :
    (gain companion v : ℕ)
    → gain < 256
    → companion < 256
    → v < 256
    → IsFramed (sync_with gain companion (some (built 0x02 0x0B (v ∷ []))))
unfolding sync_with radio_stable_frames all_bytes
sync_with-IsFramed gain companion v h k l = (
  built-IsWire 0x02 0x06 (0x01 ∷ replicate 3 0) refl,
  (
    byte-IsWire 0x02 0x0B v (omega arith) (omega arith) l,
    (
      built-IsWire 0x01 0x04 (replicate 4 0) refl,
      (
        built-IsWire 0x01 0x08 (0x01 ∷ []) refl,
        (
          built-IsWire 0x02 0x02 (0x00 ∷ []) refl,
          (
            built-IsWire 0x06 0x09 (replicate 32 0) refl,
            (
              built-IsWire 0x06 0x0A
                  (0x7C ∷ 0x70 ∷ 0x60 ∷ 0x50 ∷ 0x42 ∷ 0x3B ∷ 0x34 ∷ 0x2D ∷ 0x26 ∷ 0x20 ∷ []) refl,
              (
                built-IsWire 0x02 0x0D (0x00 ∷ 0x04 ∷ 0x01 ∷ []) refl,
                (
                  byte-IsWire 0x02 0x0E gain (omega arith) (omega arith) h,
                  (
                    byte-IsWire 0x02 0x0E companion (omega arith) (omega arith) k,
                    (built-IsWire 0x02 0x01 (0xFF ∷ []) refl, tt),
                  ),
                ),
              ),
            ),
          ),
        ),
      ),
    ),
  ),
)

-- The sync of values in their ranges is there, in frames.
pub radio_stable_sync-IsFramed :
    (gain : ℕ) (companion_value : Option ℕ) (state : Text)
    → (leb 1 gain && leb gain 5) ≡ true
    → (leb 1 (companion_of gain companion_value) && leb (companion_of gain companion_value) 6)
      ≡ true
    → one_of state backlight_states ≡ true
    → IsFramed (radio_stable_sync gain companion_value state)
radio_stable_sync-IsFramed gain companion_value state h k l =
    let found = backlight-found state l in
    unfold radio_stable_sync in
    rw (h, k, l, backlight-built state found.0 found.1 found.2)
      (sync_with-IsFramed gain (companion_of gain companion_value) found.0 (ground arith)
        (ground arith) found.1)

pub radio_status_carousel-IsWire : All IsWire radio_status_carousel
unfolding radio_status_carousel
radio_status_carousel-IsWire = (
  status 0x02 (omega arith),
  (
    status 0x06 (omega arith),
    (
      status 0x04 (omega arith),
      (
        status 0x00 (omega arith),
        (
          status 0x02 (omega arith),
          (status 0x06 (omega arith), (status 0x04 (omega arith), (status 0x00 (omega arith), tt))),
        ),
      ),
    ),
  ),
)
  where
    status : (b : ℕ) → b < 256 → IsWire (built 0x02 0x02 (b ∷ []))
    status b h = byte-IsWire 0x02 0x02 b (omega arith) (omega arith) h

-- The frames that open and close the audio path.
pub audio_frames-IsWire : All IsWire (
    radio_audio_open ∷ radio_audio_close ∷ radio_audio_status_open ∷ radio_audio_status_closed ∷ [])
unfolding radio_audio_open radio_audio_close radio_audio_status_open radio_audio_status_closed
    all_bytes
audio_frames-IsWire = (
  built-IsWire 0x01 0x04 (0x01 ∷ replicate 3 0) refl,
  (
    built-IsWire 0x01 0x04 (replicate 4 0) refl,
    (built-IsWire 0x02 0x02 (0x04 ∷ []) refl, (built-IsWire 0x02 0x02 (0x00 ∷ []) refl, tt)),
  ),
)
