-- ===== src/Capture/Reassembly/Covers.antt =====
-- Segments that were cut from one byte stream give a part of that stream back.
use ip_commandmic.Prelude.{
  ℕ, zero, suc, ◌+◌, ◌-◌, ◌≤◌, ◌<◌, ◌≡◌, ◌≢◌, refl, sym, arith, ◌∙◌, ap, ap₂, ◌⊎◌, inl, inr, le→leb,
  lt→leb, lt→ltb, le→ltb, List, [], ◌∷◌, ◌++◌, Bytes, All, length, length-append, length-drop,
  length-replicate, drop, drop-drop, take, replicate,
}
use ip_commandmic.Capture.Reassembly.{
  TcpSegment, Reassembly, fill_gap, append_payload, take_segment, take_segments,
}

module _ {ℓ} {A : Type ℓ} where
  take-nil : (n : ℕ) → take {A = A} n [] ≡ []
  take-nil zero = refl
  take-nil (suc n) = refl

  take-take : (m n : ℕ) (xs : List A) → take m xs ++ take n (drop m xs) ≡ take (m + n) xs
  take-take zero n xs = let e : 0 + n ≡ n = omega arith in ap (λ k. take k xs) (sym e)
  take-take (suc m) n [] = take-nil n ∙ sym (take-nil (suc m + n))
  take-take (suc m) n (x ∷ xs) =
      let e : suc m + n ≡ suc (m + n) = omega arith in
      ap (λ t. x ∷ t) (take-take m n xs) ∙ ap (λ k. take k (x ∷ xs)) (sym e)

  drop-take : (m n : ℕ) (xs : List A) → drop m (take n xs) ≡ take (n - m) (drop m xs)
  drop-take zero n xs = let e : n - 0 ≡ n = omega arith in ap (λ k. take k xs) (sym e)
  drop-take (suc m) zero xs =
      let e : 0 - suc m ≡ 0 = omega arith in ap (λ k. take k (drop (suc m) xs)) (sym e)
  drop-take (suc m) (suc n) [] = sym (take-nil (suc n - suc m))
  drop-take (suc m) (suc n) (x ∷ xs) =
      let e : suc n - suc m ≡ n - m = omega arith in
      drop-take m n xs ∙ ap (λ k. take k (drop m xs)) (sym e)

  snoc-nonempty : (xs : List A) (x : A) → xs ++ x ∷ [] ≢ []
  snoc-nonempty [] x e = cc
  snoc-nonempty (y ∷ xs) x e = cc

-- A segment whose payload stands in the stream where its sequence number says; `base` is the
-- sequence number of the stream's first byte.
pub record IsCut (whole : Bytes) (base : ℕ) (s : TcpSegment) : Type 0 where
  pub behind : base ≤ s.sequence
  pub payload : s.payload ≡ take (length s.payload) (drop (s.sequence - base) whole)

module _ (whole : Bytes) (base first : ℕ) (starts : base ≤ first) where
  -- The output reaches from `first` to the number expected, and as long as there was no gap it is
  -- that part of the stream.
  pub record Follows (r : Reassembly) : Type 0 where
    pub reach : length r.output + first ≡ r.expected
    pub bytes : r.warnings ≡ [] → r.output ≡ take (r.expected - first) (drop (first - base) whole)

  rest_of :
      (s : TcpSegment) (at : ℕ)
      → IsCut whole base s
      → s.sequence ≤ at
      → drop (at - s.sequence) s.payload
        ≡ take (length s.payload - (at - s.sequence)) (drop (at - base) whole)
  rest_of s at cut reached =
      let n = at - s.sequence in
      let e : s.sequence - base + n ≡ at - base = omega (arith, cut.behind) in
      ap (drop n) cut.payload
      ∙ drop-take n (length s.payload) (drop (s.sequence - base) whole)
      ∙ ap (take (length s.payload - n))
          (drop-drop n (s.sequence - base) whole ∙ ap (λ k. drop k whole) e)

  append_payload-Follows :
      (r : Reassembly) (s : TcpSegment)
      → IsCut whole base s
      → s.sequence ≤ r.expected
      → r.expected ≤ s.sequence + length s.payload
      → Follows r
      → Follows (append_payload r s)
  append_payload-Follows r s cut reached grows h = record {
    reach = omega (
      arith,
      h.reach,
      length-append r.output (drop (r.expected - s.sequence) s.payload),
      length-drop (r.expected - s.sequence) s.payload,
    );
    bytes = λ quiet.
        let m = r.expected - first in
        let n = length s.payload - (r.expected - s.sequence) in
        let here : first - base + m ≡ r.expected - base = omega (arith, h.reach) in
        let total : m + n ≡ s.sequence + length s.payload - first = omega (arith, h.reach) in
        ap₂ (λ x y. x ++ y) (h.bytes quiet)
          (rest_of s r.expected cut reached
            ∙ ap (take n) (sym (drop-drop m (first - base) whole ∙ ap (λ k. drop k whole) here)))
        ∙ take-take m n (drop (first - base) whole)
        ∙ ap (λ k. take k (drop (first - base) whole)) total;
  }

  fill_gap-Follows :
      (r : Reassembly) (s : TcpSegment)
      → r.expected < s.sequence
      → Follows r
      → Follows (fill_gap r s)
  fill_gap-Follows r s gap h = record {
    reach = omega (
      arith,
      h.reach,
      length-append r.output (replicate (s.sequence - r.expected) 0),
      length-replicate {A = ℕ} (s.sequence - r.expected) 0,
    );
    bytes = λ quiet. absurd (snoc-nonempty r.warnings (r.expected, s.sequence) quiet);
  }

  take_segment-Follows :
      (r : Reassembly) (s : TcpSegment)
      → IsCut whole base s
      → Follows r
      → Follows (take_segment r s)
  unfolding take_segment
  take_segment-Follows r s cut h = elim (fate r s) [
    | inl old ↦ rw (le→leb (s.sequence + length s.payload) r.expected old) h
    | inr (inl (gap, new)) ↦
        rw (lt→leb (s.sequence + length s.payload) r.expected new, lt→ltb r.expected s.sequence gap)
          (append_payload-Follows (fill_gap r s) s cut (omega arith) (omega arith)
            (fill_gap-Follows r s gap h))
    | inr (inr (reached, new)) ↦
        rw
          (
            lt→leb (s.sequence + length s.payload) r.expected new,
            le→ltb r.expected s.sequence reached,
          )
          (append_payload-Follows r s cut reached (omega arith) h)
  ]
    where
      fate :
          (r : Reassembly) (s : TcpSegment)
          → (s.sequence + length s.payload ≤ r.expected)
            ⊎ (((r.expected < s.sequence) × (r.expected < s.sequence + length s.payload))
                ⊎ ((s.sequence ≤ r.expected) × (r.expected < s.sequence + length s.payload)))
      fate r s = omega arith

  pub take_segments-Follows :
      (r : Reassembly) (ss : List TcpSegment)
      → All (IsCut whole base) ss
      → Follows r
      → Follows (take_segments r ss)
  unfolding take_segments
  take_segments-Follows r [] cuts h = h
  take_segments-Follows r (s ∷ ss) cuts h =
      take_segments-Follows (take_segment r s) ss cuts.1 (take_segment-Follows r s cuts.0 h)
