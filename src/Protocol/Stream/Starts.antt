-- ===== src/Protocol/Stream/Starts.antt =====
-- A round on the first one or two bytes of a magic.
use ip_commandmic.Prelude.{
  ℕ, ◌≡◌, refl, arith, ◌∙◌, ap, le→ltb, lt→ltb, [], ◌∷◌, ◌++◌, Bytes, Bool, true, false, ◌&&◌, ◌||◌,
  none, length, length-append, append_assoc, drop, drop-append, take_last-append, ◌==◌, le→leb, ◌<◌,
  ◌-◌,
}
use ip_commandmic.Models.{Direction}
use ip_commandmic.Protocol.Stream.{
  starts_with, find_in, find_magic, radio_magic, other_magic, suffix_begins_magic,
  incomplete_magic_suffix_length, trailing_keeping, trailing_round, finished, found_round,
  parse_round,
}

-- The first bytes of a magic, without its last one.
pub data IsStart (head : Bytes) : Type 0 where
  radio_one : head ≡ 0xF3 ∷ [] → IsStart head
  radio_two : head ≡ 0xF3 ∷ 0x41 ∷ [] → IsStart head
  other_one : head ≡ 0xF5 ∷ [] → IsStart head
  other_two : head ≡ 0xF5 ∷ 0x41 ∷ [] → IsStart head

last_of : (x : ℕ) (xs : Bytes) → (front : Bytes) × (last : ℕ) × (x ∷ xs ≡ front ++ last ∷ [])
last_of x [] = ([], x, refl)
last_of x (y ∷ xs) = let (front, last, e) = last_of y xs in (x ∷ front, last, ap (λ l. x ∷ l) e)

module _ (pre : Bytes) (direction : Direction) (head : Bytes) where
  abbrev whole : Bytes
  whole = pre ++ head

  -- The round, where the suffix kept back is known.
  kept_round :
      find_magic whole (length pre) ≡ none
      → length pre < length whole
      → trailing_keeping whole direction (length pre) (incomplete_magic_suffix_length whole)
        ≡ finished [] head
      → parse_round whole direction (length pre) ≡ finished [] head
  kept_round missing inside kept =
      unfold parse_round in
      rw (lt→ltb (length pre) (length whole) inside, missing)
        (unfold found_round in unfold trailing_round in kept)

  keeps :
      (n : ℕ) → length head ≡ n → trailing_keeping whole direction (length pre) n ≡ finished [] head
  keeps n size =
      let split = length-append pre head in
      let back : length whole - n ≡ length pre = omega (arith, split, size) in
      unfold trailing_keeping in
      rw
        (
          le→leb n (length whole) (omega (arith, split, size)),
          le→ltb (length pre) (length whole - n) (omega (arith, back)),
        )
        (ap (λ k. finished [] (drop k whole)) back ∙ ap (finished []) (drop-append pre head))

  missing :
      ((o : ℕ) → (find_in radio_magic o head ≡ none) × (find_in other_magic o head ≡ none))
      → find_magic whole (length pre) ≡ none
  missing h =
      unfold find_magic in rw (drop-append pre head, (h (length pre)).0, (h (length pre)).1) refl

  -- The two bytes behind some others.
  two_round :
      length head ≡ 2
      → ((o : ℕ) → (find_in radio_magic o head ≡ none) × (find_in other_magic o head ≡ none))
      → (starts_with head radio_magic || starts_with head other_magic) ≡ true
      → parse_round whole direction (length pre) ≡ finished [] head
  two_round size none_found begins =
      kept_round (missing none_found) (omega (arith, length-append pre head, size))
        (rw preserved (keeps 2 size))
    where
      preserved : incomplete_magic_suffix_length whole ≡ 2
      preserved =
          unfold incomplete_magic_suffix_length in
          rw
            (ap (λ t. starts_with t radio_magic || starts_with t other_magic)
                (take_last-append 2 pre head size)
              ∙ begins)
            refl

  -- One byte behind some others.
  one_round :
      length head ≡ 1
      → ((o : ℕ) → (find_in radio_magic o head ≡ none) × (find_in other_magic o head ≡ none))
      → (starts_with head radio_magic || starts_with head other_magic) ≡ true
      → suffix_begins_magic 2 whole ≡ false
      → parse_round whole direction (length pre) ≡ finished [] head
  one_round size none_found begins alone =
      kept_round (missing none_found) (omega (arith, length-append pre head, size))
        (rw preserved (keeps 1 size))
    where
      preserved : incomplete_magic_suffix_length whole ≡ 1
      preserved =
          unfold incomplete_magic_suffix_length in
          rw
            (
              alone,
              ap (λ t. starts_with t radio_magic || starts_with t other_magic)
                    (take_last-append 1 pre head size)
                  ∙ begins,
            )
            refl

-- Two last bytes, of which the second begins a magic, begin none together.
alone_behind :
    (x : ℕ) (xs : Bytes) (b : ℕ)
    → ((y : ℕ)
        → (starts_with (y ∷ b ∷ []) radio_magic || starts_with (y ∷ b ∷ []) other_magic) ≡ false)
    → suffix_begins_magic 2 ((x ∷ xs) ++ b ∷ []) ≡ false
alone_behind x xs b h =
    let (front, last, e) = last_of x xs in
    ap (suffix_begins_magic 2) (ap (λ l. l ++ b ∷ []) e ∙ append_assoc front (last ∷ []) (b ∷ []))
    ∙ ap (λ t. starts_with t radio_magic || starts_with t other_magic)
        (take_last-append 2 front (last ∷ b ∷ []) refl)
    ∙ h last

neither_both : (a b : Bool) → ((a && false) || (b && false)) ≡ false
neither_both a b = ground arith

pub parse_round-start :
    (pre : Bytes) (direction : Direction) (head : Bytes)
    → IsStart head
    → parse_round (pre ++ head) direction (length pre) ≡ finished [] head
unfolding starts_with find_in
parse_round-start pre direction head (radio_two e) =
    rw e (two_round pre direction (0xF3 ∷ 0x41 ∷ []) refl (λ o. (refl, refl)) refl)
parse_round-start pre direction head (other_two e) =
    rw e (two_round pre direction (0xF5 ∷ 0x41 ∷ []) refl (λ o. (refl, refl)) refl)
parse_round-start [] direction head (radio_one e) = rw e (
    unfold parse_round in
    unfold find_magic found_round trailing_round trailing_keeping incomplete_magic_suffix_length in
    refl)
parse_round-start [] direction head (other_one e) = rw e (
    unfold parse_round in
    unfold find_magic found_round trailing_round trailing_keeping incomplete_magic_suffix_length in
    refl)
parse_round-start (x ∷ xs) direction head (radio_one e) = rw e (
    one_round (x ∷ xs) direction (0xF3 ∷ []) refl (λ o. (refl, refl)) refl
      (alone_behind x xs 0xF3 (λ y. neither_both (y == 0xF3) (y == 0xF5))))
parse_round-start (x ∷ xs) direction head (other_one e) = rw e (
    one_round (x ∷ xs) direction (0xF5 ∷ []) refl (λ o. (refl, refl)) refl
      (alone_behind x xs 0xF5 (λ y. neither_both (y == 0xF3) (y == 0xF5))))
