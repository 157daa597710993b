-- ===== src/Prelude/Lists.antt =====
-- Sequences: `bytes`, `str` (as code points) and `list` of the source.
use Prim.Native.Nat.{ℕ, zero, suc, ◌+◌, ◌<◌}
use Prim.Native.Char.{code}
use Prim.Native.String.{String}
use mathlib.Core.Path.{◌≡◌, refl, ap, ◌∙◌}
use mathlib.Core.Bool.{Bool, true, false, ◌&&◌}
use mathlib.Core.Option.{Option, none, some}
use mathlib.Core.List.{List, [], ◌∷◌, ◌++◌}
use native.Mathlib.Omega.{arith}
use ip_commandmic.Prelude.Tests.{◌==◌, if◌then◌else◌, ==_refl}

-- A `bytes` or `bytearray`; every value is below 256 where `IsBytes` is assumed.
abbrev pub Bytes : Type 0
Bytes = List ℕ

-- A `str`, as its code points.
abbrev pub Text : Type 0
Text = List ℕ

-- The code points of a literal.
abbrev pub codes : String → Text
codes String.[] = []
codes (String.◌∷◌ c s) = code c ∷ codes s

module _ {ℓ} {A : Type ℓ} where
  abbrev pub length : List A → ℕ
  length [] = 0
  length (x ∷ xs) = suc (length xs)

  abbrev pub take : ℕ → List A → List A
  take zero xs = []
  take (suc n) [] = []
  take (suc n) (x ∷ xs) = x ∷ take n xs

  abbrev pub drop : ℕ → List A → List A
  drop zero xs = xs
  drop (suc n) [] = []
  drop (suc n) (x ∷ xs) = drop n xs

  abbrev pub get_elem? : List A → ℕ → Option A
  get_elem? [] i = none
  get_elem? (x ∷ xs) zero = some x
  get_elem? (x ∷ xs) (suc i) = get_elem? xs i

  abbrev pub get_or : List A → ℕ → A → A
  get_or [] i d = d
  get_or (x ∷ xs) zero d = x
  get_or (x ∷ xs) (suc i) d = get_or xs i d

  abbrev pub replicate : ℕ → A → List A
  replicate zero a = []
  replicate (suc n) a = a ∷ replicate n a

  abbrev pub concat : List (List A) → List A
  concat [] = []
  concat (xs ∷ xss) = xs ++ concat xss

  pub length-append : (xs ys : List A) → length (xs ++ ys) ≡ length xs + length ys
  length-append [] ys = omega arith
  length-append (x ∷ xs) ys = omega (arith, length-append xs ys)

  pub length-replicate : (n : ℕ) (a : A) → length (replicate n a) ≡ n
  length-replicate zero a = refl
  length-replicate (suc n) a = ap suc (length-replicate n a)

  pub concat-append : (xss yss : List (List A)) → concat (xss ++ yss) ≡ concat xss ++ concat yss
  concat-append [] yss = refl
  concat-append (xs ∷ xss) yss = ap (λ t. xs ++ t) (concat-append xss yss) ∙ assoc xs _ _
    where
      assoc : (a b c : List A) → a ++ (b ++ c) ≡ (a ++ b) ++ c
      assoc [] b c = refl
      assoc (x ∷ a) b c = ap (λ t. x ∷ t) (assoc a b c)

module _ {ℓ κ} {A : Type ℓ} {B : Type κ} where
  -- A comprehension's `for` with an index that counts from `i`.
  abbrev pub enumerate_map : (ℕ → A → B) → ℕ → List A → List B
  enumerate_map f i [] = []
  enumerate_map f i (x ∷ xs) = f i x ∷ enumerate_map f (i + 1) xs

-- `==` of two `bytes` or of two `str`.
infix 50 ◌=?◌
abbrev pub ◌=?◌ : List ℕ → List ℕ → Bool
[] =? [] = true
[] =? (y ∷ ys) = false
(x ∷ xs) =? [] = false
(x ∷ xs) =? (y ∷ ys) = (x == y) && (xs =? ys)

pub =?_refl : (xs : List ℕ) → (xs =? xs) ≡ true
=?_refl [] = refl
=?_refl (x ∷ xs) = ground (arith, ==_refl x, =?_refl xs)

pub =?→eq : (xs ys : List ℕ) → (xs =? ys) ≡ true → xs ≡ ys
=?→eq [] [] h = refl
=?→eq [] (y ∷ ys) h = ground arith
=?→eq (x ∷ xs) [] h = ground arith
=?→eq (x ∷ xs) (y ∷ ys) h = ground (arith, =?→eq xs ys)

-- `needle in (choices)`.
abbrev pub one_of : List ℕ → List (List ℕ) → Bool
one_of x [] = false
one_of x (y ∷ ys) = if x =? y then true else one_of x ys

-- Every element has the property.
abbrev pub All {ℓ κ} : {A : Type ℓ} → (A → Type κ) → List A → Type κ
All P [] = Unit
All P (x ∷ xs) = P x × All P xs

abbrev pub IsBytes : Bytes → Type 0
IsBytes [] = Unit
IsBytes (x ∷ xs) = (x < 256) × IsBytes xs

pub IsBytes-append : (xs ys : Bytes) → IsBytes xs → IsBytes ys → IsBytes (xs ++ ys)
IsBytes-append [] ys hx hy = hy
IsBytes-append (x ∷ xs) ys hx hy = (hx.0, IsBytes-append xs ys hx.1 hy)
