-- ===== src/Protocol/Stream/Lossless.antt =====
-- The stream parser ends, and no byte of its input is lost, repeated or moved.
pub mod Rounds
pub mod Trailing
use ip_commandmic.Prelude.{
  ℕ, zero, suc, ◌+◌, ◌≤◌, ◌<◌, ◌≡◌, refl, arith, ◌∙◌, ap, sym, List, [], ◌∷◌, ◌++◌, Bytes, Option,
  none, some, true, false, inl, inr, Bool-cases, Option-cases, length, drop, drop_all, concat,
  append_assoc, append-nil, ltb, ltb→lt, if◌then◌else◌,
}
use ip_commandmic.Models.{Direction, Message}
use ip_commandmic.Protocol.Stream.{
  find_magic, find, Round, finished, continued, found_round, Parsed, parse_round, parse_loop,
  parse_stream, after_round, prepend, iter_messages, iter_from, after_chunk, join_messages,
  last_message,
}
use ip_commandmic.Protocol.Stream.Find.{find_magic-MagicAt, IsAt, radio, other}
use ip_commandmic.Protocol.Stream.Lossless.Rounds.{
  raws, raws-append, IsBoundary, front, behind, magic, Accounts, magic_round-Accounts,
}
use ip_commandmic.Protocol.Stream.Lossless.Trailing.{trailing_round-Accounts}

IsBoundary-le : (data' : Bytes) (cursor : ℕ) → IsBoundary data' cursor → cursor ≤ length data'
IsBoundary-le data' cursor (front e) = omega arith
IsBoundary-le data' cursor (behind end e at) = omega (arith, at.inside)
IsBoundary-le data' cursor (magic (radio at)) = omega (arith, at.inside)
IsBoundary-le data' cursor (magic (other at)) = omega (arith, at.inside)

-- A result of the parser that accounts for the bytes from `cursor` on.
pub record IsLossless (data' : Bytes) (cursor : ℕ) (result : Option Parsed) : Type 0 where
  pub parsed : Parsed
  pub returns : result ≡ some parsed
  pub bytes : raws parsed.messages ++ parsed.remainder ≡ drop cursor data'

module _ (data' : Bytes) (direction : Direction) where
  found_round-Accounts :
      (cursor : ℕ) (start : Option ℕ)
      → cursor < length data'
      → IsBoundary data' cursor
      → find_magic data' cursor ≡ start
      → Accounts data' cursor (found_round data' direction cursor start)
  found_round-Accounts cursor none inside boundary e =
      unfold found_round in trailing_round-Accounts data' direction cursor inside boundary e
  found_round-Accounts cursor (some start) inside boundary e =
      let (after, within, at) = find_magic-MagicAt data' cursor start e in
      unfold found_round in
      magic_round-Accounts data' direction cursor start (find_magic data' (start + 3))
        (find (0xFD ∷ []) data' (start + 3)) after refl refl

  parse_round-Accounts :
      (cursor : ℕ)
      → IsBoundary data' cursor
      → Accounts data' cursor (parse_round data' direction cursor)
  parse_round-Accounts cursor boundary = elim (Bool-cases (ltb cursor (length data'))) [
    | inl inside ↦
        unfold parse_round in
        rw inside (
          found_round-Accounts cursor (find_magic data' cursor)
            (ltb→lt cursor (length data') inside) boundary refl)
    | inr outside ↦ unfold parse_round in rw outside (sym (drop_all cursor data' (ground arith)))
  ]

  after_round-IsLossless :
      (cursor : ℕ) (round : Round) (loop : ℕ → Option Parsed)
      → Accounts data' cursor round
      → ((next : ℕ) → cursor < next → IsBoundary data' next → IsLossless data' next (loop next))
      → IsLossless data' cursor (after_round round loop)
  after_round-IsLossless cursor (finished ms rest) loop h rec = record {
    parsed = record { messages = ms; remainder = rest };
    returns = unfold after_round in refl;
    bytes = h;
  }
  after_round-IsLossless cursor (continued ms next) loop h rec =
      let later = rec next h.1 h.2 in
      record {
        parsed = record {
          messages = ms ++ later.parsed.messages;
          remainder = later.parsed.remainder;
        };
        returns = unfold after_round in ap (prepend ms) later.returns;
        bytes =
            ap (λ t. t ++ later.parsed.remainder) (raws-append ms later.parsed.messages)
            ∙ append_assoc (raws ms) (raws later.parsed.messages) later.parsed.remainder
            ∙ ap (λ t. raws ms ++ t) later.bytes
            ∙ h.0;
      }

  parse_loop-suc :
      (fuel cursor : ℕ)
      → parse_loop (suc fuel) data' direction cursor
        ≡ after_round (parse_round data' direction cursor) (parse_loop fuel data' direction)
  parse_loop-suc fuel cursor = unfold parse_loop in refl

  -- As much fuel as bytes are left, and one round more, lets the loop end.
  parse_loop-IsLossless :
      (fuel cursor : ℕ)
      → length data' < cursor + fuel
      → IsBoundary data' cursor
      → IsLossless data' cursor (parse_loop fuel data' direction cursor)
  parse_loop-IsLossless zero cursor enough boundary =
      absurd (omega (arith, IsBoundary-le data' cursor boundary))
  parse_loop-IsLossless (suc fuel) cursor enough boundary = rw (parse_loop-suc fuel cursor) (
      after_round-IsLossless cursor (parse_round data' direction cursor)
        (parse_loop fuel data' direction) (parse_round-Accounts cursor boundary)
        (λ next further at. parse_loop-IsLossless fuel next (omega arith) at))

  -- The parser returns on every input and direction, and the raw bytes of its messages, in order,
  -- followed by the remainder, are the input.
  pub parse_stream-lossless :
      (p : Parsed) × (parse_stream data' direction ≡ some p)
      × (raws p.messages ++ p.remainder ≡ data')
  parse_stream-lossless =
      let whole = parse_loop-IsLossless (length data' + 1) 0 (omega arith) (front refl) in
      (whole.parsed, unfold parse_stream in whole.returns, whole.bytes)

-- The bytes of the last message are the remainder.
raws-last_message :
    (rest : Bytes) (direction : Direction) → raws (last_message rest direction) ≡ rest
raws-last_message [] direction = refl
raws-last_message (b ∷ bs) direction = append-nil (b ∷ bs)

iter_from-cons :
    (chunk : Bytes) (chunks : List Bytes) (direction : Direction) (rest : Bytes) (p : Parsed)
    (ms : List Message)
    → parse_stream (rest ++ chunk) direction ≡ some p
    → iter_from chunks direction p.remainder ≡ some ms
    → iter_from (chunk ∷ chunks) direction rest ≡ some (p.messages ++ ms)
iter_from-cons chunk chunks direction rest p ms e f =
    step ∙ rw e (opened ∙ rw f (unfold join_messages in refl))
  where
    step :
        iter_from (chunk ∷ chunks) direction rest
        ≡ after_chunk (parse_stream (rest ++ chunk) direction) (iter_from chunks direction)
    step = unfold iter_from in refl

    opened :
        after_chunk (some p) (iter_from chunks direction)
        ≡ join_messages p.messages (iter_from chunks direction p.remainder)
    opened = unfold after_chunk in refl

iter_from-lossless :
    (chunks : List Bytes) (direction : Direction) (rest : Bytes)
    → (ms : List Message) × (iter_from chunks direction rest ≡ some ms)
      × (raws ms ≡ rest ++ concat chunks)
iter_from-lossless [] direction rest = (
  last_message rest direction,
  unfold iter_from in refl,
  raws-last_message rest direction ∙ sym (append-nil rest),
)
iter_from-lossless (chunk ∷ chunks) direction rest =
    let (p, returns, bytes) = parse_stream-lossless (rest ++ chunk) direction in
    let (ms, more, later) = iter_from-lossless chunks direction p.remainder in
    (
      p.messages ++ ms,
      iter_from-cons chunk chunks direction rest p ms returns more,
      raws-append p.messages ms
          ∙ ap (λ t. raws p.messages ++ t) later
          ∙ sym (append_assoc (raws p.messages) p.remainder (concat chunks))
          ∙ ap (λ t. t ++ concat chunks) bytes
          ∙ append_assoc rest chunk (concat chunks),
    )

-- `iter_messages` returns on every sequence of chunks, and the raw bytes of all that it yields,
-- in order, are the concatenation of the chunks, however the stream was cut.
pub iter_messages-lossless :
    (chunks : List Bytes) (direction : Direction)
    → (ms : List Message) × (iter_messages chunks direction ≡ some ms) × (raws ms ≡ concat chunks)
iter_messages-lossless chunks direction =
    let (ms, returns, bytes) = iter_from-lossless chunks direction [] in
    (ms, unfold iter_messages in returns, bytes)
