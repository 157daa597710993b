-- ===== src/Prelude/Masks.antt =====
-- `&` with a mask of low bits is a remainder; `|` of two disjoint fields is a sum.
use Prim.Native.Nat.{ℕ, zero, suc, ◌+◌, ◌-◌, ◌*◌, ◌/◌, ◌%◌, ◌^◌, ◌≤◌, ◌<◌, min, max}
use Prim.Native.Nat.{bit_and, bit_or, bit_and-bitwise, bit_or-bitwise}
use mathlib.Core.Path.{◌≡◌, ap, ◌∙◌}
use native.Mathlib.Omega.{arith}
use ip_commandmic.Prelude.Digits.{digits_enough}
use native.Mathlib.Nat.{
  pow-suc, one-le-pow, div-add-mod, add-mul-mod_self_right, mod-eq_of_lt, mod-lt,
}

bit_and_lowest : (a b : ℕ) → bit_and a b ≡ bit_and (a / 2) (b / 2) * 2 + min (a % 2) (b % 2)
bit_and_lowest zero b = omega (arith, bit_and-bitwise 0 b, bit_and-bitwise 0 (b / 2))
bit_and_lowest (suc a) b = omega (
  arith,
  bit_and-bitwise (suc a) b,
  bit_and-bitwise (suc a / 2) (b / 2),
  digits_enough (λ y. 0) min a (suc a / 2) (suc a / 2) (b / 2) (omega arith) (omega arith),
)

bit_or_lowest : (a b : ℕ) → bit_or a b ≡ bit_or (a / 2) (b / 2) * 2 + max (a % 2) (b % 2)
bit_or_lowest zero b = omega (arith, bit_or-bitwise 0 b, bit_or-bitwise 0 (b / 2))
bit_or_lowest (suc a) b = omega (
  arith,
  bit_or-bitwise (suc a) b,
  bit_or-bitwise (suc a / 2) (b / 2),
  digits_enough (λ y. y) max a (suc a / 2) (suc a / 2) (b / 2) (omega arith) (omega arith),
)

bit_and-none_fuel : (n a : ℕ) → a ≤ n → bit_and a 0 ≡ 0
bit_and-none_fuel n zero h = omega (arith, bit_and-bitwise 0 0)
bit_and-none_fuel zero (suc a) h = absurd (omega arith)
bit_and-none_fuel (suc n) (suc a) h =
    omega (arith, bit_and_lowest (suc a) 0, bit_and-none_fuel n (suc a / 2) (omega arith))

bit_and-none : (a : ℕ) → bit_and a 0 ≡ 0
bit_and-none a = bit_and-none_fuel a a (omega arith)

-- a = (a / 2 / p) * (p * 2) + (a / 2 % p * 2 + a % 2)
mod_double : (p a : ℕ) → 0 < p → a % (p * 2) ≡ a / 2 % p * 2 + a % 2
mod_double p a h =
    let low = a / 2 % p * 2 + a % 2 in
    let split : a ≡ low + a / 2 / p * (p * 2) = omega (arith, div-add-mod (a / 2) p) in
    let fits : low < p * 2 = omega (arith, mod-lt (a / 2) h) in
    ap (λ t. t % (p * 2)) split ∙ add-mul-mod_self_right low (a / 2 / p) (p * 2) ∙ mod-eq_of_lt fits

-- `a & (2 ** k - 1)`
pub bit_and_mask : (k a : ℕ) → bit_and a (2 ^ k - 1) ≡ a % 2 ^ k
bit_and_mask zero a = omega (arith, bit_and-none a)
bit_and_mask (suc k) a =
    let pos : 1 ≤ 2 ^ k = one-le-pow k 2 (omega arith) in
    let half_mask : (2 ^ suc k - 1) / 2 ≡ 2 ^ k - 1 = omega (arith, pow-suc 2 k) in
    let ih : bit_and (a / 2) ((2 ^ suc k - 1) / 2) ≡ a / 2 % 2 ^ k =
      rw half_mask (bit_and_mask k (a / 2)) in
    let odd : (2 ^ suc k - 1) % 2 ≡ 1 = omega (arith, pow-suc 2 k) in
    bit_and_lowest a (2 ^ suc k - 1)
    ∙ omega (arith, ih, odd, mod_double (2 ^ k) a pos, ap (λ t. a % t) (pow-suc 2 k))
