-- ===== src/Protocol/Stream/Lossless/Rounds.antt =====
-- One round of the parser accounts for every byte from its cursor on.
use ip_commandmic.Prelude.{
  ℕ, ◌+◌, ◌≤◌, ◌<◌, ◌≡◌, refl, arith, ◌∙◌, ap, sym, ltb, inl, inr, List, [], ◌∷◌, ◌++◌, Bytes,
  Option, none, some, Bool-cases, drop, slice, slice-append-drop, append-nil, append_assoc,
}
use ip_commandmic.Models.{Direction, Message}
use ip_commandmic.Protocol.Classify.{classify_message, terminator}
use ip_commandmic.Protocol.Classify.Raw.{raw-classify_message}
use ip_commandmic.Protocol.Stream.{
  find, find_magic, unframed_message, Round, finished, continued, leading, comes_first,
  framed_round, magic_round,
}
use ip_commandmic.Protocol.Stream.Find.{IsAt, find-IsAt, MagicAt, find_magic-MagicAt}

-- The raw bytes of some messages, in order.
abbrev pub raws : List Message → Bytes
raws [] = []
raws (m ∷ ms) = m.raw ++ raws ms

pub raws-append : (ms ns : List Message) → raws (ms ++ ns) ≡ raws ms ++ raws ns
raws-append [] ns = refl
raws-append (m ∷ ms) ns =
    ap (λ t. m.raw ++ t) (raws-append ms ns) ∙ sym (append_assoc m.raw (raws ms) (raws ns))

-- Where a round may start: at the front, behind a terminator, or at a magic.
pub data IsBoundary (data' : Bytes) (cursor : ℕ) : Type 0 where
  front : cursor ≡ 0 → IsBoundary data' cursor
  behind : (end : ℕ) → cursor ≡ end + 1 → IsAt (terminator ∷ []) data' end → IsBoundary data' cursor
  magic : MagicAt data' cursor → IsBoundary data' cursor

-- What a round from `cursor` says: the bytes of its messages, and what it leaves, are the bytes
-- from the cursor on; and it goes on further to the right, at a boundary.
abbrev pub Accounts : Bytes → ℕ → Round → Type 0
Accounts data' cursor (finished ms rest) = raws ms ++ rest ≡ drop cursor data'
Accounts data' cursor (continued ms next) =
    (raws ms ++ drop next data' ≡ drop cursor data') × (cursor < next) × IsBoundary data' next

module _ (data' : Bytes) (direction : Direction) where
  leading-raws :
      (cursor start : ℕ)
      → cursor ≤ start
      → raws (leading data' direction cursor start) ++ drop start data' ≡ drop cursor data'
  leading-raws cursor start h = elim (Bool-cases (ltb cursor start)) [
    | inl before ↦ rw before (
        ap (λ t. t ++ drop start data') (append-nil (slice data' cursor start))
        ∙ slice-append-drop data' cursor start h)
    | inr same ↦ let e : start ≡ cursor = ground arith in rw same (ap (λ k. drop k data') e)
  ]

  -- One more message behind the leading one.
  leading-then :
      (cursor start next : ℕ) (m : Message)
      → cursor ≤ start
      → start ≤ next
      → m.raw ≡ slice data' start next
      → raws (leading data' direction cursor start ++ m ∷ []) ++ drop next data' ≡ drop cursor data'
  leading-then cursor start next m h k e =
      let lead = raws (leading data' direction cursor start) in
      ap (λ t. t ++ drop next data') (raws-append (leading data' direction cursor start) (m ∷ []))
      ∙ append_assoc lead (m.raw ++ []) (drop next data')
      ∙ ap (λ t. lead ++ t)
          (ap (λ t. t ++ drop next data') (append-nil m.raw ∙ e)
            ∙ slice-append-drop data' start next k)
      ∙ leading-raws cursor start h

  framed_round-Accounts :
      (cursor start : ℕ) (end : Option ℕ)
      → cursor ≤ start
      → find (terminator ∷ []) data' (start + 3) ≡ end
      → Accounts data' cursor (framed_round data' direction cursor start end)
  framed_round-Accounts cursor start none h e = unfold framed_round in leading-raws cursor start h
  framed_round-Accounts cursor start (some end) h e =
      let (after, at) = find-IsAt (terminator ∷ []) data' (start + 3) end e in
      unfold framed_round in
      (
        leading-then cursor start (end + 1)
            (classify_message (slice data' start (end + 1)) direction) h (omega arith)
            (raw-classify_message (slice data' start (end + 1)) direction),
        omega arith,
        behind end refl at,
      )

  pub magic_round-Accounts :
      (cursor start : ℕ) (next end : Option ℕ)
      → cursor ≤ start
      → find_magic data' (start + 3) ≡ next
      → find (terminator ∷ []) data' (start + 3) ≡ end
      → Accounts data' cursor (magic_round data' direction cursor start next end)
  magic_round-Accounts cursor start none end h n e =
      unfold magic_round in framed_round-Accounts cursor start end h e
  magic_round-Accounts cursor start (some next) end h n e =
      let (after, inside, at) = find_magic-MagicAt data' (start + 3) next n in
      elim (Bool-cases (comes_first next end)) [
        | inl new ↦
            unfold magic_round in
            rw new (
              leading-then cursor start next
                  (unframed_message (slice data' start next) direction
                    "new magic encountered before a terminator; parser resynchronized")
                  h (omega arith) refl,
              omega arith,
              magic at,
            )
        | inr old ↦ unfold magic_round in rw old (framed_round-Accounts cursor start end h e)
      ]
