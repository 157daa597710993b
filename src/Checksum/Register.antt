-- ===== src/Checksum/Register.antt =====
-- The register of the reflected CRC: it stays in 16 bits, and no round forgets anything.
use ip_commandmic.Prelude.{ℕ, zero, suc, ◌/◌, ◌%◌, ◌^◌, ◌≤◌, ◌<◌, ◌≡◌, refl, arith}
use ip_commandmic.Prelude.{◌⊎◌, inl, inr, ◌∙◌, sym, ap}
use ip_commandmic.Prelude.{[], ◌∷◌, ◌++◌, Bytes, IsBytes, bit_xor, bit_and_mask}
use ip_commandmic.Prelude.{bit_xor-shift, bit_xor_cancel, bit_xor-lt, zero-bit_xor}
use ip_commandmic.Checksum.{rounds, reflected_step, reflected_byte, crc_loop}

-- What `reflected_step` needs of a polynomial: the top of its 16 bits is set.
abbrev pub IsPoly : ℕ → Type 0
IsPoly poly = (2 ^ 15 ≤ poly) × (poly < 2 ^ 16)

parity : (n : ℕ) → (n % 2 ≡ 0) ⊎ (n % 2 ≡ 1)
parity n = omega arith

module _ (poly : ℕ) (p : IsPoly poly) where
  step_even : (s : ℕ) → s % 2 ≡ 0 → reflected_step poly s ≡ s / 2
  unfolding reflected_step
  step_even s h = ground (arith, bit_and_mask 1 s)

  step_odd : (s : ℕ) → s % 2 ≡ 1 → reflected_step poly s ≡ bit_xor (s / 2) poly
  unfolding reflected_step
  step_odd s h = ground (arith, bit_and_mask 1 s)

  pub step-lt : (s : ℕ) → s < 2 ^ 16 → reflected_step poly s < 2 ^ 16
  unfolding reflected_step
  step-lt s h = ground (arith, bit_xor-lt 16 (s / 2) poly)

  -- The bit that the step shifts out shows at the top of the result.
  step_top : (s : ℕ) → s < 2 ^ 16 → reflected_step poly s / 2 ^ 15 ≡ s % 2
  step_top s h = elim (parity s) [
    | inl even ↦ omega (arith, step_even s even)
    | inr odd ↦ omega (
      arith,
      ap (λ (t : ℕ). t / 2 ^ 15) (step_odd s odd),
      bit_xor-shift 15 (s / 2) poly,
      tops (omega arith) (omega arith),
      zero-bit_xor 1,
    )
  ]
    where
      tops :
          s / 2 / 2 ^ 15 ≡ 0
          → poly / 2 ^ 15 ≡ 1
          → bit_xor (s / 2 / 2 ^ 15) (poly / 2 ^ 15) ≡ bit_xor 0 1
      tops a b = rw (a, b)

  step_cancel :
      (s t : ℕ) → s < 2 ^ 16 → t < 2 ^ 16 → reflected_step poly s ≡ reflected_step poly t → s ≡ t
  step_cancel s t hs ht e = elim (parity s) [
    | inl even ↦
        let even' : t % 2 ≡ 0 = omega (arith, same_parity) in
        omega (arith, same_parity, step_even s even, step_even t even')
    | inr odd ↦
        let odd' : t % 2 ≡ 1 = omega (arith, same_parity) in
        let halves : s / 2 ≡ t / 2 =
          bit_xor_cancel (s / 2) (t / 2) poly (sym (step_odd s odd) ∙ e ∙ step_odd t odd') in
        omega (arith, same_parity, halves)
  ]
    where
      same_parity : s % 2 ≡ t % 2
      same_parity = sym (step_top s hs) ∙ ap (λ (r : ℕ). r / 2 ^ 15) e ∙ step_top t ht

  rounds-lt : (n s : ℕ) → s < 2 ^ 16 → rounds n (reflected_step poly) s < 2 ^ 16
  unfolding rounds
  rounds-lt zero s h = h
  rounds-lt (suc n) s h = rounds-lt n (reflected_step poly s) (step-lt s h)

  rounds_cancel :
      (n s t : ℕ)
      → s < 2 ^ 16
      → t < 2 ^ 16
      → rounds n (reflected_step poly) s ≡ rounds n (reflected_step poly) t
      → s ≡ t
  unfolding rounds
  rounds_cancel zero s t hs ht e = e
  rounds_cancel (suc n) s t hs ht e = step_cancel s t hs ht (
      rounds_cancel n (reflected_step poly s) (reflected_step poly t) (step-lt s hs) (step-lt t ht)
        e)

  pub byte-lt : (s b : ℕ) → s < 2 ^ 16 → b < 256 → reflected_byte poly s b < 2 ^ 16
  byte-lt s b hs hb =
      unfold reflected_byte in rounds-lt 8 (bit_xor s b) (bit_xor-lt 16 s b hs (omega arith))

  -- One byte leaves apart two registers that differ, and two bytes that differ.
  pub byte_cancel :
      (s t b c : ℕ)
      → s < 2 ^ 16
      → t < 2 ^ 16
      → b < 256
      → c < 256
      → reflected_byte poly s b ≡ reflected_byte poly t c
      → bit_xor s b ≡ bit_xor t c
  byte_cancel s t b c hs ht hb hc e =
      rounds_cancel 8 (bit_xor s b) (bit_xor t c) (bit_xor-lt 16 s b hs (omega arith))
        (bit_xor-lt 16 t c ht (omega arith)) (unfold reflected_byte in e)

  pub loop-lt :
      (s : ℕ) (xs : Bytes) → s < 2 ^ 16 → IsBytes xs → crc_loop (reflected_byte poly) s xs < 2 ^ 16
  unfolding crc_loop
  loop-lt s [] h hx = h
  loop-lt s (x ∷ xs) h hx = loop-lt (reflected_byte poly s x) xs (byte-lt s x h hx.0) hx.1

  -- The bytes that follow keep two registers apart.
  pub loop_cancel :
      (s t : ℕ) (xs : Bytes)
      → s < 2 ^ 16
      → t < 2 ^ 16
      → IsBytes xs
      → crc_loop (reflected_byte poly) s xs ≡ crc_loop (reflected_byte poly) t xs
      → s ≡ t
  unfolding crc_loop
  loop_cancel s t [] hs ht hx e = e
  loop_cancel s t (x ∷ xs) hs ht hx e = bit_xor_cancel s t x (
      byte_cancel s t x x hs ht hx.0 hx.0 (
        loop_cancel (reflected_byte poly s x) (reflected_byte poly t x) xs (byte-lt s x hs hx.0)
          (byte-lt t x ht hx.0) hx.1 e))

pub crc_loop-append :
    (next : ℕ → ℕ → ℕ) (s : ℕ) (xs ys : Bytes)
    → crc_loop next s (xs ++ ys) ≡ crc_loop next (crc_loop next s xs) ys
unfolding crc_loop
crc_loop-append next s [] ys = refl
crc_loop-append next s (x ∷ xs) ys = crc_loop-append next (next s x) xs ys
