-- ===== src/Protocol/Stream/Lossless/Trailing.antt =====
-- The last round: what it keeps back is exactly what it did not report.
use ip_commandmic.Prelude.{
  ℕ, ◌+◌, ◌-◌, ◌≤◌, ◌<◌, ◌≡◌, refl, arith, ◌∙◌, ap, sym, ltb, le→leb, lt→leb, ◌⊎◌, inl, inr, [],
  ◌∷◌, ◌++◌, Bytes, none, Bool, true, false, ◌||◌, Bool-cases, length, drop, slice,
  slice-append-drop, append-nil,
}
use ip_commandmic.Models.{Direction}
use ip_commandmic.Protocol.Classify.{terminator}
use ip_commandmic.Protocol.Stream.{
  starts_with, find_magic, radio_magic, other_magic, suffix_begins_magic,
  incomplete_magic_suffix_length, trailing_keeping, trailing_round,
}
use ip_commandmic.Protocol.Stream.Find.{find_magic-at}
use ip_commandmic.Protocol.Stream.Lossless.Rounds.{IsBoundary, front, behind, magic, Accounts}

-- A text that begins with a terminator begins no magic.
terminator_no_magic :
    (xs : Bytes)
    → starts_with (terminator ∷ []) xs ≡ true
    → (starts_with xs radio_magic || starts_with xs other_magic) ≡ false
unfolding starts_with
terminator_no_magic [] h = ground arith
terminator_no_magic (x ∷ xs) h = ground arith

preserve-cases :
    (xs : Bytes)
    → (incomplete_magic_suffix_length xs ≤ 1)
      ⊎ ((incomplete_magic_suffix_length xs ≡ 2) × (suffix_begins_magic 2 xs ≡ true))
preserve-cases xs = elim (Bool-cases (suffix_begins_magic 2 xs)) [
  | inl two ↦ inr (unfold incomplete_magic_suffix_length in rw two, two)
  | inr less ↦ elim (Bool-cases (suffix_begins_magic 1 xs)) [
    | inl one ↦ inl (unfold incomplete_magic_suffix_length in rw (less, one) (omega arith))
    | inr nothing ↦ inl (unfold incomplete_magic_suffix_length in rw (less, nothing) (omega arith))
  ]
]

module _ (data' : Bytes) (direction : Direction) (cursor : ℕ) (inside : cursor < length data') where
  -- The suffix kept back stands behind the cursor, or it is the whole input of one byte.
  preserve-fits :
      IsBoundary data' cursor
      → find_magic data' cursor ≡ none
      → (cursor + incomplete_magic_suffix_length data' ≤ length data')
        ⊎ ((length data' ≡ 1) × (cursor ≡ 0) × (incomplete_magic_suffix_length data' ≡ 2))
  preserve-fits boundary absent = elim (preserve-cases data') [
    | inl short ↦ inl (omega arith)
    | inr (two, begins) ↦ by_boundary boundary two begins
  ]
    where
      by_boundary :
          IsBoundary data' cursor
          → incomplete_magic_suffix_length data' ≡ 2
          → suffix_begins_magic 2 data' ≡ true
          → (cursor + incomplete_magic_suffix_length data' ≤ length data')
            ⊎ ((length data' ≡ 1) × (cursor ≡ 0) × (incomplete_magic_suffix_length data' ≡ 2))
      by_boundary (front e) two begins = elim (one_or_more (length data') (omega arith)) [
        | inl one ↦ inr (one, e, two)
        | inr more ↦ inl (omega arith)
      ]
        where
          one_or_more : (n : ℕ) → 0 < n → (n ≡ 1) ⊎ (2 ≤ n)
          one_or_more n h = omega arith
      by_boundary (magic at) two begins = absurd (find_magic-at data' cursor at absent)
      by_boundary (behind end e at) two begins =
          elim (last_or_before (length data') (omega arith)) [
            | inl last ↦
                let place : length data' - 2 ≡ end = omega arith in
                let no : suffix_begins_magic 2 data' ≡ false =
                  rw place (terminator_no_magic (drop end data') at.here) in
                absurd (false_true (sym no ∙ begins))
            | inr before ↦ inl (omega arith)
          ]
        where
          last_or_before : (n : ℕ) → end + 1 < n → (n ≡ end + 2) ⊎ (end + 3 ≤ n)
          last_or_before n h = omega arith

          false_true : (◌≡◌ {A = Bool} false true) → ⊥
          false_true h = cc

  keeping-fits :
      (k : ℕ)
      → cursor + k ≤ length data'
      → Accounts data' cursor (trailing_keeping data' direction cursor k)
  keeping-fits k fits = elim (Bool-cases (ltb cursor (length data' - k))) [
    | inl some_rest ↦
        unfold trailing_keeping in
        rw (le→leb k (length data') (omega arith), some_rest)
          (ap (λ t. t ++ drop (length data' - k) data')
              (append-nil (slice data' cursor (length data' - k)))
            ∙ slice-append-drop data' cursor (length data' - k) (omega arith))
    | inr nothing ↦
        let e : length data' - k ≡ cursor = ground arith in
        unfold trailing_keeping in
        rw (le→leb k (length data') (omega arith), nothing) (ap (λ n. drop n data') e)
  ]

  keeping-single :
      length data' ≡ 1
      → cursor ≡ 0
      → Accounts data' cursor (trailing_keeping data' direction cursor 2)
  keeping-single one start =
      let e : length data' - (2 - length data') ≡ cursor = omega arith in
      unfold trailing_keeping in
      rw (lt→leb 2 (length data') (omega arith)) (ap (λ n. drop n data') e)

  -- The last round reports, and hands back, exactly the bytes from its cursor on.
  pub trailing_round-Accounts :
      IsBoundary data' cursor
      → find_magic data' cursor ≡ none
      → Accounts data' cursor (trailing_round data' direction cursor)
  trailing_round-Accounts boundary absent = elim (preserve-fits boundary absent) [
    | inl fits ↦ rw opened (keeping-fits (incomplete_magic_suffix_length data') fits)
    | inr (one, start, two) ↦ rw (opened, two) (keeping-single one start)
  ]
    where
      opened :
          trailing_round data' direction cursor
          ≡ trailing_keeping data' direction cursor (incomplete_magic_suffix_length data')
      opened = unfold trailing_round in refl
