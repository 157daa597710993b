-- ===== src/Protocol/Stream.antt =====
-- `parse_stream` and `iter_messages` of src/ip_commandmic/protocol.py. The `while` loop is a round,
-- `parse_round`, repeated on fuel; `parse_stream` gives it one round more than there are bytes.
pub mod Find
pub mod Lossless
pub mod Frames
pub mod Sequence
pub mod Starts
pub mod Heads
use Prim.Native.String.{String}
use ip_commandmic.Prelude.{
  ℕ, zero, suc, ◌+◌, ◌-◌, ◌==◌, ltb, leb, if◌then◌else◌, List, [], ◌∷◌, ◌++◌, Bytes, Option, none,
  some, Bool, true, false, ◌&&◌, ◌||◌, min, length, drop, slice, take_last,
}
use ip_commandmic.Models.{Direction, MessageKind, unframed, Message}
use ip_commandmic.Protocol.Classify.{classify_message, terminator}

-- data.startswith(pattern), the pattern first.
unfoldable pub starts_with : Bytes → Bytes → Bool
starts_with [] data' = true
starts_with (p ∷ pattern) [] = false
starts_with (p ∷ pattern) (d ∷ data') = (p == d) && starts_with pattern data'

-- The first place of a pattern that is not empty; the bytes given stand from `offset` on.
unfoldable pub find_in : Bytes → ℕ → Bytes → Option ℕ
unfolding starts_with
find_in pattern offset [] = none
find_in pattern offset (d ∷ data') =
    let later = find_in pattern (offset + 1) data' in
    if starts_with pattern (d ∷ data') then some offset else later

-- data.find(pattern, start), with `none` for -1.
abbrev pub find : Bytes → Bytes → ℕ → Option ℕ
find pattern data' start = find_in pattern start (drop start data')

-- The smaller of the offsets that were found.
abbrev pub earliest : Option ℕ → Option ℕ → Option ℕ
earliest none b = b
earliest (some a) none = some a
earliest (some a) (some b) = some (min a b)

abbrev pub radio_magic : Bytes
radio_magic = 0xF3 ∷ 0x41 ∷ 0x71 ∷ []

abbrev pub other_magic : Bytes
other_magic = 0xF5 ∷ 0x41 ∷ 0x71 ∷ []

unfoldable pub find_magic : Bytes → ℕ → Option ℕ
unfolding find_in
find_magic data' start = earliest (find radio_magic data' start) (find other_magic data' start)

-- Whether the last bytes, `length` of them, begin a magic.
abbrev pub suffix_begins_magic : ℕ → Bytes → Bool
suffix_begins_magic n data' =
    starts_with (take_last n data') radio_magic || starts_with (take_last n data') other_magic

unfoldable pub incomplete_magic_suffix_length : Bytes → ℕ
unfolding starts_with
incomplete_magic_suffix_length data' =
    if suffix_begins_magic 2 data' then 2 else if suffix_begins_magic 1 data' then 1 else 0

-- data[len(data) - k:], where a negative start counts from the end.
abbrev pub drop_to_last : ℕ → Bytes → Bytes
drop_to_last k data' =
    if leb k (length data')
    then drop (length data' - k) data'
    else drop (length data' - (k - length data')) data'

abbrev pub unframed_message : Bytes → Direction → String → Message
unframed_message raw direction evidence = record {
  raw = raw;
  direction = direction;
  kind = unframed;
  framing_valid = false;
  checksum_valid = none;
  evidence = some evidence;
  metadata = [];
}

-- One round of the loop: it returns, or goes on at a later cursor; with the messages it appends.
pub data Round : Type 0 where
  finished : List Message → Bytes → Round
  continued : List Message → ℕ → Round

-- No further magic: the unframed rest, less the last `preserve` bytes.
unfoldable pub trailing_keeping : Bytes → Direction → ℕ → ℕ → Round
trailing_keeping data' direction cursor preserve =
    if leb preserve (length data') && ltb cursor (length data' - preserve)
    then finished
        (unframed_message (slice data' cursor (length data' - preserve)) direction
            "bytes outside the currently known framing"
          ∷ [])
        (drop_to_last preserve data')
    else finished [] (drop_to_last preserve data')

-- A suffix that may begin a magic is kept back.
unfoldable pub trailing_round : Bytes → Direction → ℕ → Round
unfolding incomplete_magic_suffix_length trailing_keeping
trailing_round data' direction cursor =
    trailing_keeping data' direction cursor (incomplete_magic_suffix_length data')

-- The bytes before the magic.
abbrev pub leading : Bytes → Direction → ℕ → ℕ → List Message
leading data' direction cursor start =
    if ltb cursor start
    then unframed_message (slice data' cursor start) direction
        "bytes preceding the next known magic value"
      ∷ []
    else []

-- Whether a new magic at `next` stands before the terminator.
abbrev pub comes_first : ℕ → Option ℕ → Bool
comes_first next none = true
comes_first next (some end) = ltb next end

-- With the magic at `start` and no new magic before the terminator.
unfoldable pub framed_round : Bytes → Direction → ℕ → ℕ → Option ℕ → Round
framed_round data' direction cursor start none =
    finished (leading data' direction cursor start) (drop start data')
framed_round data' direction cursor start (some end) =
    continued
      (leading data' direction cursor start
        ++ classify_message (slice data' start (end + 1)) direction ∷ [])
      (end + 1)

-- With the magic at `start`.
unfoldable pub magic_round : Bytes → Direction → ℕ → ℕ → Option ℕ → Option ℕ → Round
unfolding framed_round
magic_round data' direction cursor start none end = framed_round data' direction cursor start end
magic_round data' direction cursor start (some next) end =
    if comes_first next end
    then continued
        (leading data' direction cursor start
          ++ (unframed_message (slice data' start next) direction
                "new magic encountered before a terminator; parser resynchronized"
              ∷ []))
        next
    else framed_round data' direction cursor start end

unfoldable pub found_round : Bytes → Direction → ℕ → Option ℕ → Round
unfolding trailing_round magic_round find_magic
found_round data' direction cursor none = trailing_round data' direction cursor
found_round data' direction cursor (some start) =
    magic_round data' direction cursor start (find_magic data' (start + 3))
      (find (terminator ∷ []) data' (start + 3))

unfoldable pub parse_round : Bytes → Direction → ℕ → Round
unfolding found_round
parse_round data' direction cursor =
    if ltb cursor (length data')
    then found_round data' direction cursor (find_magic data' cursor)
    else finished [] []

-- The messages and the incomplete trailing fragment.
pub record Parsed : Type 0 where
  pub messages : List Message
  pub remainder : Bytes

abbrev pub prepend : List Message → Option Parsed → Option Parsed
prepend ms none = none
prepend ms (some p) = some (record p { messages = ms ++ p.messages })

after_round : Round → (ℕ → Option Parsed) → Option Parsed
after_round (finished ms rest) loop = some (record { messages = ms; remainder = rest })
after_round (continued ms cursor) loop = prepend ms (loop cursor)

-- `none` is a loop that did not end on its fuel.
unfoldable pub parse_loop : ℕ → Bytes → Direction → ℕ → Option Parsed
unfolding after_round
parse_loop zero data' direction cursor = none
parse_loop (suc fuel) data' direction cursor =
    after_round (parse_round data' direction cursor) (parse_loop fuel data' direction)

-- `parse_stream`, after `Direction.coerce`.
unfoldable pub parse_stream : Bytes → Direction → Option Parsed
unfolding parse_loop
parse_stream data' direction = parse_loop (length data' + 1) data' direction 0

-- The incomplete rest, at the end of the stream.
abbrev pub last_message : Bytes → Direction → List Message
last_message [] direction = []
last_message (b ∷ bs) direction =
    unframed_message (b ∷ bs) direction "incomplete trailing stream data" ∷ []

join_messages : List Message → Option (List Message) → Option (List Message)
join_messages ms none = none
join_messages ms (some rest) = some (ms ++ rest)

after_chunk : Option Parsed → (Bytes → Option (List Message)) → Option (List Message)
unfolding join_messages
after_chunk none next = none
after_chunk (some p) next = join_messages p.messages (next p.remainder)

iter_from : List Bytes → Direction → Bytes → Option (List Message)
iter_from [] direction remainder = some (last_message remainder direction)
iter_from (chunk ∷ chunks) direction remainder =
    after_chunk (parse_stream (remainder ++ chunk) direction) (iter_from chunks direction)

-- `iter_messages`, the messages that it yields.
unfoldable pub iter_messages : List Bytes → Direction → Option (List Message)
unfolding iter_from after_chunk
iter_messages chunks direction = iter_from chunks direction []
