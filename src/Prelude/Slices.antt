-- ===== src/Prelude/Slices.antt =====
-- Slices of sequences, and the laws of `take` and `drop` that the parsers need.
use Prim.Native.Nat.{ℕ, zero, suc, ◌+◌, ◌-◌, ◌≤◌, min}
use mathlib.Core.Path.{◌≡◌, refl, ap, sym, ◌∙◌}
use mathlib.Core.List.{List, [], ◌∷◌, ◌++◌}
use native.Mathlib.Omega.{arith}
use ip_commandmic.Prelude.Lists.{Bytes, length, take, drop, get_or, length-append, IsBytes}

module _ {ℓ} {A : Type ℓ} where
  -- xs[from:to] for indices that are not negative.
  abbrev pub slice : List A → ℕ → ℕ → List A
  slice xs from to = take (to - from) (drop from xs)

  -- xs[:-k]
  abbrev pub drop_last : ℕ → List A → List A
  drop_last k xs = take (length xs - k) xs

  -- xs[-k:] for a positive k.
  abbrev pub take_last : ℕ → List A → List A
  take_last k xs = drop (length xs - k) xs

  pub take-append-drop : (n : ℕ) (xs : List A) → take n xs ++ drop n xs ≡ xs
  take-append-drop zero xs = refl
  take-append-drop (suc n) [] = refl
  take-append-drop (suc n) (x ∷ xs) = ap (λ t. x ∷ t) (take-append-drop n xs)

  pub take_all : (n : ℕ) (xs : List A) → length xs ≤ n → take n xs ≡ xs
  take_all zero [] h = refl
  take_all zero (x ∷ xs) h = absurd (omega arith)
  take_all (suc n) [] h = refl
  take_all (suc n) (x ∷ xs) h = ap (λ t. x ∷ t) (take_all n xs (omega arith))

  pub drop_all : (n : ℕ) (xs : List A) → length xs ≤ n → drop n xs ≡ []
  drop_all zero [] h = refl
  drop_all zero (x ∷ xs) h = absurd (omega arith)
  drop_all (suc n) [] h = refl
  drop_all (suc n) (x ∷ xs) h = drop_all n xs (omega arith)

  pub length-drop : (n : ℕ) (xs : List A) → length (drop n xs) ≡ length xs - n
  length-drop zero xs = omega arith
  length-drop (suc n) [] = omega arith
  length-drop (suc n) (x ∷ xs) = omega (arith, length-drop n xs)

  pub length-take : (n : ℕ) (xs : List A) → length (take n xs) ≡ min n (length xs)
  length-take zero xs = omega arith
  length-take (suc n) [] = omega arith
  length-take (suc n) (x ∷ xs) = omega (arith, length-take n xs)

  pub drop-drop : (m n : ℕ) (xs : List A) → drop m (drop n xs) ≡ drop (n + m) xs
  drop-drop m zero xs = let e : 0 + m ≡ m = omega arith in ap (λ k. drop k xs) (sym e)
  drop-drop m (suc n) [] = drop_all m [] (omega arith) ∙ sym (drop_all (suc n + m) [] (omega arith))
  drop-drop m (suc n) (x ∷ xs) =
      let e : suc n + m ≡ suc (n + m) = omega arith in
      drop-drop m n xs ∙ ap (λ k. drop k (x ∷ xs)) (sym e)

  -- A slice and what follows it are what stands at its start.
  pub slice-append-drop : (xs : List A) (i j : ℕ) → i ≤ j → slice xs i j ++ drop j xs ≡ drop i xs
  slice-append-drop xs i j h =
      let e : i + (j - i) ≡ j = omega arith in
      ap (λ t. slice xs i j ++ t) (ap (λ k. drop k xs) (sym e) ∙ sym (drop-drop (j - i) i xs))
      ∙ take-append-drop (j - i) (drop i xs)

  -- At the seam of an append.
  pub take-append : (xs ys : List A) → take (length xs) (xs ++ ys) ≡ xs
  take-append [] ys = refl
  take-append (x ∷ xs) ys = ap (λ t. x ∷ t) (take-append xs ys)

  pub drop-append : (xs ys : List A) → drop (length xs) (xs ++ ys) ≡ ys
  drop-append [] ys = refl
  drop-append (x ∷ xs) ys = drop-append xs ys

  pub get_or_last : (xs : List A) (y d : A) → get_or (xs ++ y ∷ []) (length xs) d ≡ y
  get_or_last [] y d = refl
  get_or_last (x ∷ xs) y d = get_or_last xs y d

  pub take_seam : (n : ℕ) (xs ys : List A) → length xs ≡ n → take n (xs ++ ys) ≡ xs
  take_seam n xs ys h = ap (λ k. take k (xs ++ ys)) (sym h) ∙ take-append xs ys

  pub drop_seam : (n : ℕ) (xs ys : List A) → length xs ≡ n → drop n (xs ++ ys) ≡ ys
  drop_seam n xs ys h = ap (λ k. drop k (xs ++ ys)) (sym h) ∙ drop-append xs ys

  pub drop_last-append : (k : ℕ) (xs ys : List A) → length ys ≡ k → drop_last k (xs ++ ys) ≡ xs
  drop_last-append k xs ys h =
      let e : length (xs ++ ys) - k ≡ length xs = omega (arith, length-append xs ys) in
      ap (λ n. take n (xs ++ ys)) e ∙ take-append xs ys

  pub take_last-append : (k : ℕ) (xs ys : List A) → length ys ≡ k → take_last k (xs ++ ys) ≡ ys
  take_last-append k xs ys h =
      let e : length (xs ++ ys) - k ≡ length xs = omega (arith, length-append xs ys) in
      ap (λ n. drop n (xs ++ ys)) e ∙ drop-append xs ys

pub IsBytes-take : (n : ℕ) (xs : Bytes) → IsBytes xs → IsBytes (take n xs)
IsBytes-take zero xs h = tt
IsBytes-take (suc n) [] h = tt
IsBytes-take (suc n) (x ∷ xs) h = (h.0, IsBytes-take n xs h.1)

pub IsBytes-drop : (n : ℕ) (xs : Bytes) → IsBytes xs → IsBytes (drop n xs)
IsBytes-drop zero xs h = h
IsBytes-drop (suc n) [] h = tt
IsBytes-drop (suc n) (x ∷ xs) h = IsBytes-drop n xs h.1
