-- ===== src/Checksum/Detect.antt =====
-- What the CRC detects, for the reflected polynomials of 16 bits (`crc16_modbus` and `crc16_arc`).
use ip_commandmic.Prelude.{ℕ, ◌<◌, ◌^◌, ◌≡◌, ◌≢◌, refl, arith, ◌∙◌, sym, true}
use ip_commandmic.Prelude.{◌∷◌, ◌++◌, Bytes, IsBytes, IsBytes-append}
use ip_commandmic.Prelude.{bit_and_mask, bit_xor_comm, bit_xor_cancel}
use ip_commandmic.Checksum.{crc16, crc_loop, reflected_byte}
use ip_commandmic.Checksum.Register.{
  IsPoly, loop-lt, loop_cancel, byte-lt, byte_cancel, crc_loop-append,
}

module _ (poly init : ℕ) (p : IsPoly poly) (i : init < 2 ^ 16) where
  -- The final `& 0xFFFF` changes nothing.
  pub crc16-eq-loop :
      (xs : Bytes) → IsBytes xs → crc16 xs poly init true ≡ crc_loop (reflected_byte poly) init xs
  crc16-eq-loop xs hx =
      unfold crc16 in
      bit_and_mask 16 (crc_loop (reflected_byte poly) init xs)
      ∙ omega (arith, loop-lt poly p init xs i hx)

  -- A reflected CRC with a 16-bit polynomial whose top bit is set and a 16-bit start value is
  -- below 2 ^ 16 on any bytes, each below 256.
  pub crc16-lt : (xs : Bytes) → IsBytes xs → crc16 xs poly init true < 2 ^ 16
  crc16-lt xs hx = omega (arith, crc16-eq-loop xs hx, loop-lt poly p init xs i hx)

  loop_single :
      (s : ℕ) (ys : Bytes) (a b : ℕ)
      → s < 2 ^ 16
      → IsBytes ys
      → a < 256
      → b < 256
      → crc_loop (reflected_byte poly) (reflected_byte poly s a) ys
        ≡ crc_loop (reflected_byte poly) (reflected_byte poly s b) ys
      → a ≡ b
  loop_single s ys a b hs hy ha hb e = bit_xor_cancel a b s (
      bit_xor_comm a s
      ∙ byte_cancel poly p s s a b hs hs ha hb (
          loop_cancel poly p (reflected_byte poly s a) (reflected_byte poly s b) ys
            (byte-lt poly p s a hs ha) (byte-lt poly p s b hs hb) hy e)
      ∙ bit_xor_comm s b)

  -- Two strings of bytes, each below 256, that differ in exactly one byte have different reflected CRCs, for a 16-bit
  -- polynomial whose top bit is set and a 16-bit start value.
  pub crc16_single_byte :
      (xs ys : Bytes) (a b : ℕ)
      → IsBytes xs
      → IsBytes ys
      → a < 256
      → b < 256
      → a ≢ b
      → crc16 (xs ++ (a ∷ ys)) poly init true ≢ crc16 (xs ++ (b ∷ ys)) poly init true
  crc16_single_byte xs ys a b hx hy ha hb ne e = ne (
      loop_single (crc_loop (reflected_byte poly) init xs) ys a b (loop-lt poly p init xs i hx) hy
        ha hb (sym (at a ha) ∙ e ∙ at b hb))
    where
      at :
          (c : ℕ)
          → c < 256
          → crc16 (xs ++ (c ∷ ys)) poly init true
            ≡ crc_loop
                (reflected_byte poly)
                (reflected_byte poly (crc_loop (reflected_byte poly) init xs) c)
                ys
      at c hc =
          crc16-eq-loop (xs ++ (c ∷ ys)) (IsBytes-append xs (c ∷ ys) hx (hc, hy))
          ∙ crc_loop-append (reflected_byte poly) init xs (c ∷ ys)
          ∙ unfold crc_loop in refl
