-- ===== src/Capture/Reassembly/Whole.antt =====
-- The result of the reassembly against the stream that the segments were cut from.
use mathlib.Core.Path.{subst}
use ip_commandmic.Prelude.{
  ℕ, ◌+◌, ◌-◌, ◌≡◌, refl, sym, arith, ◌∙◌, ap, List, [], ◌∷◌, Bytes, All, length, drop, take,
}
use ip_commandmic.Capture.Reassembly.{
  TcpSegment, sorted, Reassembly, take_segments, starting_at, reassemble_ordered,
  reassemble_direction,
}
use ip_commandmic.Capture.Reassembly.Order.{
  sorted-All, All-sorted, NoneBefore, EndsBy, StartsLeast, sorted-StartsLeast,
  take_segments-expected,
}
use ip_commandmic.Capture.Reassembly.Covers.{IsCut, Follows, take_segments-Follows}

-- The output is a part of the stream, from a number that no segment starts before to one that
-- every segment ends by.
pub record IsPart (whole : Bytes) (base : ℕ) (segments : List TcpSegment) (output : Bytes)
    : Type 0 where
  pub start : ℕ
  pub none_before : All (NoneBefore start) segments
  pub all_end : All (EndsBy (start + length output)) segments
  pub bytes : output ≡ take (length output) (drop (start - base) whole)

module _ (whole : Bytes) (base : ℕ) where
  ordered-IsPart :
      (segments : List TcpSegment)
      → All (IsCut whole base) segments
      → StartsLeast segments
      → (reassemble_ordered segments).warnings ≡ []
      → IsPart whole base segments (reassemble_ordered segments).output
  unfolding reassemble_ordered
  ordered-IsPart [] cuts least quiet = record {
    start = 0;
    none_before = tt;
    all_end = tt;
    bytes = refl;
  }
  ordered-IsPart (s ∷ ss) cuts least quiet =
      let first = s.sequence in
      let nothing : first - first ≡ 0 = omega arith in
      let begin : Follows whole base first cuts.0.behind (starting_at first) = record {
        reach = omega arith;
        bytes = λ quiet. ap (λ k. take k (drop (first - base) whole)) (sym nothing);
      } in
      let final : Reassembly = take_segments (starting_at first) (s ∷ ss) in
      let done =
        take_segments-Follows whole base first cuts.0.behind (starting_at first) (s ∷ ss) cuts
          begin in
      let ends = (take_segments-expected (starting_at first) (s ∷ ss)).1 in
      let reach : final.expected ≡ first + length final.output = omega (arith, done.reach) in
      let size : final.expected - first ≡ length final.output = omega (arith, done.reach) in
      record {
        start = first;
        none_before = (omega arith, least);
        all_end = subst (λ n. All (EndsBy n) (s ∷ ss)) reach ends;
        bytes = done.bytes quiet ∙ ap (λ k. take k (drop (first - base) whole)) size;
      }

  -- Segments cut from one stream, with repeats, overlaps and in any order, are reassembled, unless
  -- a gap is reported, into one part of that stream; no segment starts before it or ends behind
  -- it.
  pub reassemble_direction-IsPart :
      (segments : List TcpSegment)
      → All (IsCut whole base) segments
      → (reassemble_direction segments).warnings ≡ []
      → IsPart whole base segments (reassemble_direction segments).output
  reassemble_direction-IsPart segments cuts quiet =
      let part =
        ordered-IsPart (sorted segments) (sorted-All (IsCut whole base) segments cuts)
          (sorted-StartsLeast segments) (unfold reassemble_direction in quiet) in
      unfold reassemble_direction in
      record {
        start = part.start;
        none_before = All-sorted (NoneBefore part.start) segments part.none_before;
        all_end = All-sorted (EndsBy _) segments part.all_end;
        bytes = part.bytes;
      }
