-- ===== src/Protocol/Classify/Raw.antt =====
-- Classification keeps the bytes that it was given.
use ip_commandmic.Prelude.{◌≡◌, refl, Bytes, Bool, Option, none, some, Bool-cases, inl, inr}
use ip_commandmic.Models.{Direction}
use ip_commandmic.Protocol.Classify.{
  Known, known_message, is_framed, classify_known, classify_other, classify_with, classify_message,
}
use ip_commandmic.Protocol.Frame.{decode_wire_frame}

module _ (raw : Bytes) (direction : Direction) (decoded : Bytes) (stuffed : Bool) where
  raw-other : (classify_other raw direction decoded stuffed).raw ≡ raw
  raw-other = elim (Bool-cases (is_framed decoded)) [
    | inl framed ↦ unfold classify_other in rw framed
    | inr other ↦ unfold classify_other in rw other
  ]

  raw-with : (known : Option Known) → (classify_with raw direction known decoded stuffed).raw ≡ raw
  raw-with none = unfold classify_with in raw-other
  raw-with (some known) = unfold classify_with classify_known in refl

pub raw-classify_message :
    (raw : Bytes) (direction : Direction) → (classify_message raw direction).raw ≡ raw
raw-classify_message raw direction =
    let frame = decode_wire_frame raw in
    unfold classify_message in
    raw-with raw direction frame.logical frame.stuffed (known_message raw)
