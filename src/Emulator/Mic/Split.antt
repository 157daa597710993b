-- ===== src/Emulator/Mic/Split.antt =====
-- A stream of frames, each read in two parts.
use ip_commandmic.Prelude.{
  ◌≡◌, refl, ◌∙◌, ap, sym, List, [], ◌∷◌, ◌++◌, append-nil, Bytes, All, drop, take, inl, inr,
}
use ip_commandmic.Protocol.Stream.Frames.{IsWire}
use ip_commandmic.Protocol.Stream.Heads.{IsHead}
use ip_commandmic.Emulator.Mic.Streams.{Cut, AreCuts, frames_of}

-- Every frame in two reads: its magic, and the rest.
abbrev pub in_two : List Bytes → List Cut
in_two [] = []
in_two (frame ∷ frames) =
    (take 3 frame, [], take 3 frame) ∷ (drop 3 frame, frame ∷ [], []) ∷ in_two frames

pub frames_of-in_two : (frames : List Bytes) → frames_of (in_two frames) ≡ frames
frames_of-in_two [] = refl
frames_of-in_two (frame ∷ frames) = ap (λ l. frame ∷ l) (frames_of-in_two frames)

magic-IsHead : (frame : Bytes) → IsWire frame → IsHead (take 3 frame)
magic-IsHead frame w = record {
  start_byte = w.start_byte;
  part = [];
  start = w.start;
  shape = ap (take 3) w.shape;
  plain = tt;
}

seam : (frame : Bytes) → IsWire frame → take 3 frame ++ drop 3 frame ≡ frame
seam frame w = ap (λ f. take 3 f ++ drop 3 f) w.shape ∙ sym w.shape

pub in_two-AreCuts : (frames : List Bytes) → All IsWire frames → AreCuts [] (in_two frames)
in_two-AreCuts [] h = tt
in_two-AreCuts (frame ∷ frames) (w, ws) = (
  refl,
  tt,
  inr (inl (magic-IsHead frame w)),
  (
    seam frame w ∙ sym (append-nil frame) ∙ sym (append-nil (frame ++ [])),
    (w, tt),
    inl refl,
    in_two-AreCuts frames ws,
  ),
)
