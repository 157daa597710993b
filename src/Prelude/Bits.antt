-- ===== src/Prelude/Bits.antt =====
-- `&`, `|` and `^` on numbers that are not negative: laws at variables, from the binary digits.
use Prim.Native.Nat.{ℕ, zero, suc, ◌+◌, ◌*◌, ◌/◌, ◌%◌, ◌^◌, ◌≤◌, ◌<◌}
use Prim.Native.Nat.{bit_xor, bit_xor-bitwise, differ}
use mathlib.Core.Path.{◌≡◌, refl}
use mathlib.Core.Bool.{Bool, true, ◌&&◌}
use native.Mathlib.Omega.{arith}
use ip_commandmic.Prelude.Digits.{digits_enough}
use native.Mathlib.Nat.{pow-suc, div-div-eq-div-mul}

-- Whether a test holds of 0 to n - 1.
unfoldable pub every_below : ℕ → (ℕ → Bool) → Bool
every_below zero test = true
every_below (suc n) test = every_below n test && test n

pub every_below_sound :
    (n : ℕ) (test : ℕ → Bool) (x : ℕ) → every_below n test ≡ true → x < n → test x ≡ true
unfolding every_below
every_below_sound (suc n) test x passes below = ground (arith, every_below_sound n test x)
every_below_sound zero test x passes below = absurd (omega arith)

pub zero-bit_xor : (b : ℕ) → bit_xor 0 b ≡ b
zero-bit_xor b = bit_xor-bitwise 0 b

differ_digits : (x y : ℕ) → x < 2 → y < 2 → differ x y ≡ (x + y) % 2
differ_digits zero y hx hy = omega arith
differ_digits (suc zero) zero hx hy = omega arith
differ_digits (suc zero) (suc zero) hx hy = omega arith
differ_digits (suc zero) (suc (suc y)) hx hy = absurd (omega arith)
differ_digits (suc (suc x)) y hx hy = absurd (omega arith)

differ_lowest : (a b : ℕ) → differ (a % 2) (b % 2) ≡ (a + b) % 2
differ_lowest a b = omega (arith, differ_digits (a % 2) (b % 2) (omega arith) (omega arith))

-- One equation for the lowest digit.
pub bit_xor_step : (a b : ℕ) → bit_xor a b ≡ bit_xor (a / 2) (b / 2) * 2 + (a + b) % 2
bit_xor_step zero b = omega (arith, zero-bit_xor b, zero-bit_xor (b / 2))
bit_xor_step (suc a) b = omega (
  arith,
  bit_xor-bitwise (suc a) b,
  bit_xor-bitwise (suc a / 2) (b / 2),
  digits_enough (λ y. y) differ a (suc a / 2) (suc a / 2) (b / 2) (omega arith) (omega arith),
  differ_lowest (suc a) b,
)

bit_xor-half : (a b : ℕ) → bit_xor a b / 2 ≡ bit_xor (a / 2) (b / 2)
bit_xor-half a b = omega (arith, bit_xor_step a b)

div-one : (a : ℕ) → a / 1 ≡ a
div-one a = omega arith

-- The digits from a position on.
pub bit_xor-shift : (k a b : ℕ) → bit_xor a b / 2 ^ k ≡ bit_xor (a / 2 ^ k) (b / 2 ^ k)
bit_xor-shift zero a b = rw (div-one a, div-one b) (omega arith)
bit_xor-shift (suc k) a b =
    rw
      (
        pow-suc 2 k,
        ← div-div-eq-div-mul (bit_xor a b) (2 ^ k) 2,
        ← div-div-eq-div-mul a (2 ^ k) 2,
        ← div-div-eq-div-mul b (2 ^ k) 2,
        bit_xor-shift k a b,
      )
      (bit_xor-half (a / 2 ^ k) (b / 2 ^ k))

-- Flipping the same digits of two numbers keeps them apart.
bit_xor_fuel : (n a b c : ℕ) → a ≤ n → b ≤ n → bit_xor a c ≡ bit_xor b c → a ≡ b
bit_xor_fuel zero a b c ha hb h = omega arith
bit_xor_fuel (suc n) a b c ha hb h = omega (
  arith,
  bit_xor_step a c,
  bit_xor_step b c,
  bit_xor_fuel n (a / 2) (b / 2) (c / 2) (omega arith) (omega arith)
      (omega (arith, bit_xor_step a c, bit_xor_step b c)),
)

pub bit_xor_cancel : (a b c : ℕ) → bit_xor a c ≡ bit_xor b c → a ≡ b
bit_xor_cancel a b c h = bit_xor_fuel (a + b) a b c (omega arith) (omega arith) h

bit_xor_comm_fuel : (n a b : ℕ) → a ≤ n → b ≤ n → bit_xor a b ≡ bit_xor b a
bit_xor_comm_fuel zero zero zero ha hb = refl
bit_xor_comm_fuel zero (suc a) b ha hb = absurd (omega arith)
bit_xor_comm_fuel zero zero (suc b) ha hb = absurd (omega arith)
bit_xor_comm_fuel (suc n) a b ha hb = omega (
  arith,
  bit_xor_step a b,
  bit_xor_step b a,
  bit_xor_comm_fuel n (a / 2) (b / 2) (omega arith) (omega arith),
)

pub bit_xor_comm : (a b : ℕ) → bit_xor a b ≡ bit_xor b a
bit_xor_comm a b = bit_xor_comm_fuel (a + b) a b (omega arith) (omega arith)

pub bit_xor-lt : (k a b : ℕ) → a < 2 ^ k → b < 2 ^ k → bit_xor a b < 2 ^ k
bit_xor-lt zero zero b ha hb = omega (arith, zero-bit_xor b)
bit_xor-lt zero (suc a) b ha hb = absurd (omega arith)
bit_xor-lt (suc k) a b ha hb = omega (
  arith,
  pow-suc 2 k,
  bit_xor_step a b,
  bit_xor-lt k (a / 2) (b / 2) (omega (arith, pow-suc 2 k)) (omega (arith, pow-suc 2 k)),
)
