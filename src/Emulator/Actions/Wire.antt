-- ===== src/Emulator/Actions/Wire.antt =====
-- Results whose frames a stream parser reads one by one.
use ip_commandmic.Prelude.{
  ℕ, zero, suc, ◌-◌, ◌≤◌, ◌≡◌, arith, ltb, List, [], ◌∷◌, ◌++◌, Bytes, IsBytes, IsBytes-append,
  Text, All, Bool, true, ◌&&◌, Option, none, some, length, replicate,
}
use ip_commandmic.Display.Buffer.{left_justify}
use ip_commandmic.Display.Buffer.Primary.{
  IsShown, composed, from_primary_text-ok, from_primary_text-primary_text,
}
use ip_commandmic.Protocol.Encode.Display.{encode_display_transaction-ok, transaction-IsWire}
use ip_commandmic.Protocol.Stream.Frames.{IsWire}
use ip_commandmic.Emulator.Actions.{
  Action, sent, ◌>>=◌, display_frames, encoded_display, transaction_frames,
}
use ip_commandmic.Emulator.Actions.Sent.{sent-append}

-- Frames that are there, each of the shape that `parse_stream` finds.
abbrev pub IsFramed : Option (List Bytes) → Type 0
IsFramed none = ⊥
IsFramed (some frames) = All IsWire frames

-- Actions that are there, with all frames sent of that shape.
abbrev pub IsSent : Option (List Action) → Type 0
IsSent none = ⊥
IsSent (some actions) = All IsWire (sent actions)

-- A text that a display can show.
abbrev pub IsText : Option Text → Type 0
IsText none = ⊥
IsText (some t) = All IsShown t × (length t ≤ 8)

-- The part of a display buffer behind its text.
abbrev pub IsTail : Option Bytes → Type 0
IsTail none = ⊥
IsTail (some tail) = (length tail ≡ 60) × IsBytes tail

pub All-append {ℓ} :
    {A : Type ℓ} (P : A → Type 0) (xs ys : List A) → All P xs → All P ys → All P (xs ++ ys)
All-append P [] ys h k = k
All-append P (x ∷ xs) ys (p, h) k = (p, All-append P xs ys h k)

pub IsSent-append :
    (xs ys : List Action)
    → All IsWire (sent xs)
    → All IsWire (sent ys)
    → All IsWire (sent (xs ++ ys))
IsSent-append xs ys h k = rw (sent-append xs ys) (All-append IsWire (sent xs) (sent ys) h k)

pub with_frames :
    (o : Option (List Bytes)) (f : List Bytes → Option (List Action))
    → IsFramed o
    → ((frames : List Bytes) → All IsWire frames → IsSent (f frames))
    → IsSent (o >>= f)
with_frames none f h k = elim h [ ]
with_frames (some frames) f h k = k frames h

pub with_actions :
    (o : Option (List Action)) (f : List Action → Option (List Action))
    → IsSent o
    → ((actions : List Action) → All IsWire (sent actions) → IsSent (f actions))
    → IsSent (o >>= f)
with_actions none f h k = elim h [ ]
with_actions (some actions) f h k = k actions h

pub with_text :
    (o : Option Text) (f : Text → Option (List Action))
    → IsText o
    → ((t : Text) → IsText (some t) → IsSent (f t))
    → IsSent (o >>= f)
with_text none f h k = elim h [ ]
with_text (some t) f h k = k t h

pub with_tail :
    (o : Option Bytes) (f : Bytes → Option (List Action))
    → IsTail o
    → ((tail : Bytes) → IsTail (some tail) → IsSent (f tail))
    → IsSent (o >>= f)
with_tail none f h k = elim h [ ]
with_tail (some tail) f h k = k tail h

shown-IsBytes : (t : Text) → All IsShown t → IsBytes t
shown-IsBytes [] h = tt
shown-IsBytes (c ∷ t) (h, hs) = (omega arith, shown-IsBytes t hs)

zeros-IsBytes : (k : ℕ) → IsBytes (replicate k 0)
zeros-IsBytes zero = tt
zeros-IsBytes (suc k) = (omega arith, zeros-IsBytes k)

-- A text of at most eight shown characters over a tail of 60 bytes is three frames.
pub display_frames-IsFramed :
    (t : Text) (tail : Bytes)
    → IsText (some t)
    → IsTail (some tail)
    → IsFramed (display_frames t tail)
display_frames-IsFramed t tail (shown, fits) (size, bytes) =
    unfold display_frames in
    rw (from_primary_text-ok t tail shown fits size) (
      unfold encoded_display in
      rw (encode_display_transaction-ok (composed t tail) sized raw_bytes)
        (unfold transaction_frames in transaction-IsWire (composed t tail) sized raw_bytes))
  where
    sized : length (composed t tail).raw ≡ 68
    sized = (from_primary_text-primary_text t tail shown fits size).1

    raw_bytes : IsBytes (composed t tail).raw
    raw_bytes =
        IsBytes-append (left_justify 8 t) tail
          (unfold left_justify in
            IsBytes-append t (replicate (8 - length t) 0) (shown-IsBytes t shown)
              (zeros-IsBytes (8 - length t)))
          bytes

-- The tests of a constant tail.
unfoldable pub all_bytes : Bytes → Bool
all_bytes [] = true
all_bytes (b ∷ bs) = ltb b 256 && all_bytes bs

pub all_bytes→IsBytes : (bs : Bytes) → all_bytes bs ≡ true → IsBytes bs
unfolding all_bytes
all_bytes→IsBytes [] h = tt
all_bytes→IsBytes (b ∷ bs) h = (ground arith, all_bytes→IsBytes bs (ground arith))
