-- ===== src/Capture/Reassembly/Order.antt =====
-- The sorted segments are the given ones, a first one in front; and the loop takes each to its end.
use ip_commandmic.Prelude.{
  ℕ, ◌+◌, ◌≤◌, ◌≡◌, arith, true, false, Bool-cases, inl, inr, List, [], ◌∷◌, All, length,
}
use ip_commandmic.Capture.Reassembly.{
  TcpSegment, precedes, insert, sorted, Reassembly, take_segment, take_segments,
}

module _ {ℓ} (P : TcpSegment → Type ℓ) where
  insert-All : (s : TcpSegment) (ts : List TcpSegment) → P s → All P ts → All P (insert s ts)
  unfolding insert
  insert-All s [] here rest = (here, tt)
  insert-All s (t ∷ ts) here rest = elim (Bool-cases (precedes t s)) [
    | inl e ↦ rw e (rest.0, insert-All s ts here rest.1)
    | inr e ↦ rw e (here, rest)
  ]

  pub sorted-All : (ss : List TcpSegment) → All P ss → All P (sorted ss)
  unfolding sorted
  sorted-All [] h = tt
  sorted-All (s ∷ ss) h = insert-All s (sorted ss) h.0 (sorted-All ss h.1)

  All-insert : (s : TcpSegment) (ts : List TcpSegment) → All P (insert s ts) → P s × All P ts
  unfolding insert
  All-insert s [] h = (h.0, tt)
  All-insert s (t ∷ ts) h = elim (Bool-cases (precedes t s)) [
    | inl e ↦
        let k : All P (t ∷ insert s ts) = rw e at h in
        let rest = All-insert s ts k.1 in (rest.0, (k.0, rest.1))
    | inr e ↦ rw e at h
  ]

  pub All-sorted : (ss : List TcpSegment) → All P (sorted ss) → All P ss
  unfolding sorted
  All-sorted [] h = tt
  All-sorted (s ∷ ss) h = let parts = All-insert s (sorted ss) h in (parts.0, All-sorted ss parts.1)

-- No segment starts before the number.
abbrev pub NoneBefore : ℕ → TcpSegment → Type 0
NoneBefore start s = start ≤ s.sequence

NoneBefore-mono :
    (a b : ℕ) (ss : List TcpSegment) → a ≤ b → All (NoneBefore b) ss → All (NoneBefore a) ss
NoneBefore-mono a b [] h all = tt
NoneBefore-mono a b (s ∷ ss) h all = (omega (arith, all.0), NoneBefore-mono a b ss h all.1)

precedes→le : (t s : TcpSegment) → precedes t s ≡ true → t.sequence ≤ s.sequence
precedes→le t s e = ground arith

follows→le : (t s : TcpSegment) → precedes t s ≡ false → s.sequence ≤ t.sequence
follows→le t s e = ground arith

-- The first of the sorted segments has the least sequence number.
abbrev pub StartsLeast : List TcpSegment → Type 0
StartsLeast [] = Unit
StartsLeast (t ∷ ts) = All (NoneBefore t.sequence) ts

insert-StartsLeast :
    (s : TcpSegment) (ts : List TcpSegment) → StartsLeast ts → StartsLeast (insert s ts)
unfolding insert
insert-StartsLeast s [] h = tt
insert-StartsLeast s (t ∷ ts) h = elim (Bool-cases (precedes t s)) [
  | inl e ↦ rw e (insert-All (NoneBefore t.sequence) s ts (precedes→le t s e) h)
  | inr e ↦ rw e (follows→le t s e, NoneBefore-mono s.sequence t.sequence ts (follows→le t s e) h)
]

pub sorted-StartsLeast : (ss : List TcpSegment) → StartsLeast (sorted ss)
unfolding sorted
sorted-StartsLeast [] = tt
sorted-StartsLeast (s ∷ ss) = insert-StartsLeast s (sorted ss) (sorted-StartsLeast ss)

-- The segment's last byte lies before the number.
abbrev pub EndsBy : ℕ → TcpSegment → Type 0
EndsBy end s = s.sequence + length s.payload ≤ end

take_segment-expected :
    (r : Reassembly) (s : TcpSegment)
    → (r.expected ≤ (take_segment r s).expected) × EndsBy (take_segment r s).expected s
unfolding take_segment
take_segment-expected r s = ground arith

pub take_segments-expected :
    (r : Reassembly) (ss : List TcpSegment)
    → (r.expected ≤ (take_segments r ss).expected) × All (EndsBy (take_segments r ss).expected) ss
unfolding take_segments
take_segments-expected r [] = (omega arith, tt)
take_segments-expected r (s ∷ ss) =
    let one = take_segment-expected r s in
    let rest = take_segments-expected (take_segment r s) ss in
    (omega (arith, one.0, rest.0), (omega (arith, one.1, rest.0), rest.1))
