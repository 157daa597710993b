-- ===== src/Protocol/Stream/Find.antt =====
-- Searching for a pattern and for a magic: where a result lies, and what is skipped.
use ip_commandmic.Prelude.{
  ℕ, suc, ◌+◌, ◌≤◌, ◌<◌, ◌≡◌, ◌≢◌, refl, arith, ◌∙◌, ap, sym, if◌then◌else◌, ◌⊎◌, inl, inr, [], ◌∷◌,
  ◌++◌, Bytes, All, Option, none, some, true, false, Bool-cases, ne→==, min, length, drop,
  drop-drop, length-drop,
}
use ip_commandmic.Protocol.Stream.{
  starts_with, find_in, find, earliest, find_magic, radio_magic, other_magic,
}

-- `pattern` stands at `i` of `xs`.
pub record IsAt (pattern xs : Bytes) (i : ℕ) : Type 0 where
  pub inside : i < length xs
  pub here : starts_with pattern (drop i xs) ≡ true

find_in-hit :
    (p : Bytes) (o x : ℕ) (xs : Bytes)
    → starts_with p (x ∷ xs) ≡ true
    → find_in p o (x ∷ xs) ≡ some o
find_in-hit p o x xs h = step ∙ rw h
  where
    step : find_in p o (x ∷ xs) ≡ (if starts_with p (x ∷ xs) then some o else find_in p (o + 1) xs)
    step = unfold find_in in refl

pub find_in-miss :
    (p : Bytes) (o x : ℕ) (xs : Bytes)
    → starts_with p (x ∷ xs) ≡ false
    → find_in p o (x ∷ xs) ≡ find_in p (o + 1) xs
find_in-miss p o x xs h = step ∙ rw h
  where
    step : find_in p o (x ∷ xs) ≡ (if starts_with p (x ∷ xs) then some o else find_in p (o + 1) xs)
    step = unfold find_in in refl

find_in-nil : (p : Bytes) (o : ℕ) → find_in p o [] ≡ none
find_in-nil p o = unfold find_in in refl

-- A result is a place of the pattern, counted from `o`.
find_in-IsAt :
    (p : Bytes) (o : ℕ) (xs : Bytes) (i : ℕ)
    → find_in p o xs ≡ some i
    → (k : ℕ) × (i ≡ o + k) × IsAt p xs k
find_in-IsAt p o [] i e = absurd (none-some (sym (find_in-nil p o) ∙ e))
  where
    none-some : (◌≡◌ {A = Option ℕ} none (some i)) → ⊥
    none-some h = cc
find_in-IsAt p o (x ∷ xs) i e = elim (Bool-cases (starts_with p (x ∷ xs))) [
  | inl hit ↦
      let at : some o ≡ some i = sym (find_in-hit p o x xs hit) ∙ e in
      (0, ground (arith, at), record { inside = omega arith; here = hit })
  | inr miss ↦ later (find_in-IsAt p (o + 1) xs i (sym (find_in-miss p o x xs miss) ∙ e))
]
  where
    later : (k : ℕ) × (i ≡ o + 1 + k) × IsAt p xs k → (k : ℕ) × (i ≡ o + k) × IsAt p (x ∷ xs) k
    later (k, place, at) =
        (suc k, omega arith, record { inside = omega (arith, at.inside); here = at.here })

pub find_in-le : (p : Bytes) (o : ℕ) (xs : Bytes) (i : ℕ) → find_in p o xs ≡ some i → o ≤ i
find_in-le p o xs i e = let (k, place, at) = find_in-IsAt p o xs i e in omega arith

pub find-IsAt : (p xs : Bytes) (s i : ℕ) → find p xs s ≡ some i → (s ≤ i) × IsAt p xs i
find-IsAt p xs s i e = whole (find_in-IsAt p s (drop s xs) i e)
  where
    whole : (k : ℕ) × (i ≡ s + k) × IsAt p (drop s xs) k → (s ≤ i) × IsAt p xs i
    whole (k, place, at) = (
      omega arith,
      record {
        inside = omega (arith, at.inside, length-drop s xs);
        here =
            ap (λ j. starts_with p (drop j xs)) place
            ∙ ap (starts_with p) (sym (drop-drop k s xs))
            ∙ at.here;
      },
    )

find_here :
    (p ys : Bytes) (i : ℕ) → 0 < length ys → starts_with p ys ≡ true → find_in p i ys ≡ some i
find_here p [] i h e = absurd (omega arith)
find_here p (y ∷ ys) i h e = find_in-hit p i y ys e

-- The search from a place of the pattern finds that place.
pub find-at : (p xs : Bytes) (i : ℕ) → IsAt p xs i → find p xs i ≡ some i
find-at p xs i at = find_here p (drop i xs) i (omega (arith, at.inside, length-drop i xs)) at.here

-- Bytes that do not begin the pattern are skipped.
pub find_in-append :
    (b : ℕ) (p : Bytes) (o : ℕ) (xs ys : Bytes)
    → All (λ x. x ≢ b) xs
    → find_in (b ∷ p) o (xs ++ ys) ≡ find_in (b ∷ p) (o + length xs) ys
find_in-append b p o [] ys h = ap (λ k. find_in (b ∷ p) k ys) (omega arith)
find_in-append b p o (x ∷ xs) ys h =
    find_in-miss (b ∷ p) o x (xs ++ ys) (differs x (xs ++ ys) h.0)
    ∙ find_in-append b p (o + 1) xs ys h.1
    ∙ ap (λ k. find_in (b ∷ p) k ys) (omega arith)
  where
    differs : (y : ℕ) (zs : Bytes) → y ≢ b → starts_with (b ∷ p) (y ∷ zs) ≡ false
    differs y zs ne = unfold starts_with in rw (ne→== b y (λ e. ne (sym e)))

-- A magic stands at `i`.
pub data MagicAt (xs : Bytes) (i : ℕ) : Type 0 where
  radio : IsAt radio_magic xs i → MagicAt xs i
  other : IsAt other_magic xs i → MagicAt xs i

min_cases : (a b : ℕ) → (min a b ≡ a) ⊎ (min a b ≡ b)
min_cases a b = omega arith

pub earliest-cases : (a b : Option ℕ) (i : ℕ) → earliest a b ≡ some i → (a ≡ some i) ⊎ (b ≡ some i)
earliest-cases none b i e = inr e
earliest-cases (some a) none i e = inl e
earliest-cases (some a) (some b) i e = elim (min_cases a b) [
  | inl h ↦ inl (ap some (sym h) ∙ e)
  | inr h ↦ inr (ap some (sym h) ∙ e)
]

pub find_magic-MagicAt :
    (xs : Bytes) (s i : ℕ) → find_magic xs s ≡ some i → (s ≤ i) × (i < length xs) × MagicAt xs i
find_magic-MagicAt xs s i e =
    elim (earliest-cases (find radio_magic xs s) (find other_magic xs s) i
      (unfold find_magic in e)) [
        | inl h ↦ let (le, at) = find-IsAt radio_magic xs s i h in (le, at.inside, radio at)
        | inr h ↦ let (le, at) = find-IsAt other_magic xs s i h in (le, at.inside, other at)
      ]

earliest-left : (a : ℕ) (b : Option ℕ) → earliest (some a) b ≢ none
earliest-left a none e = cc
earliest-left a (some b) e = cc

earliest-right : (a : Option ℕ) (b : ℕ) → earliest a (some b) ≢ none
earliest-right none b e = cc
earliest-right (some a) b e = cc

-- Where a magic stands, the search from there finds one.
pub find_magic-at : (xs : Bytes) (i : ℕ) → MagicAt xs i → find_magic xs i ≢ none
unfolding find_magic
find_magic-at xs i (radio at) e =
    earliest-left i (find other_magic xs i)
      (ap (λ o. earliest o (find other_magic xs i)) (sym (find-at radio_magic xs i at)) ∙ e)
find_magic-at xs i (other at) e =
    earliest-right (find radio_magic xs i) i
      (ap (earliest (find radio_magic xs i)) (sym (find-at other_magic xs i at)) ∙ e)
