-- ===== src/Checksum.antt =====
-- src/ip_commandmic/checksums.py: the byte checksums and the CRC-16 in both bit orders.
pub mod Register
pub mod Detect
use ip_commandmic.Prelude.{ℕ, zero, suc, ◌+◌, ◌*◌, ◌/◌, ◌==◌, if◌then◌else◌, Bool, true, false}
use ip_commandmic.Prelude.{List, [], ◌∷◌, Bytes, bit_and, bit_xor}

-- `sum(data)`
sum : Bytes → ℕ
sum [] = 0
sum (byte ∷ data') = byte + sum data'

unfoldable pub sum8 : Bytes → ℕ
unfolding sum
sum8 data' = bit_and (sum data') 0xFF

xor8_loop : ℕ → Bytes → ℕ
xor8_loop value [] = value
xor8_loop value (byte ∷ data') = xor8_loop (bit_xor value byte) data'

unfoldable pub xor8 : Bytes → ℕ
unfolding xor8_loop
xor8 data' = xor8_loop 0 data'

-- `for _ in range(n): crc = step(crc)`
pub rounds : ℕ → (ℕ → ℕ) → ℕ → ℕ
rounds zero step crc = crc
rounds (suc n) step crc = rounds n step (step crc)

-- The body of the inner loop under `refin`.
pub reflected_step : ℕ → ℕ → ℕ
reflected_step poly crc = if bit_and crc 1 == 0 then crc / 2 else bit_xor (crc / 2) poly

-- The body of the inner loop otherwise.
pub forward_step : ℕ → ℕ → ℕ
forward_step poly crc =
    if bit_and crc 0x8000 == 0
    then bit_and (crc * 2) 0xFFFF
    else bit_and (bit_xor (crc * 2) poly) 0xFFFF

-- The body of the outer loop under `refin`.
pub reflected_byte : ℕ → ℕ → ℕ → ℕ
unfolding rounds reflected_step
reflected_byte poly crc byte = rounds 8 (reflected_step poly) (bit_xor crc byte)

pub forward_byte : ℕ → ℕ → ℕ → ℕ
unfolding rounds forward_step
forward_byte poly crc byte = rounds 8 (forward_step poly) (bit_xor crc (byte * 256))

-- `for byte in data: crc = next(crc, byte)`
pub crc_loop : (ℕ → ℕ → ℕ) → ℕ → Bytes → ℕ
crc_loop next crc [] = crc
crc_loop next crc (byte ∷ data') = crc_loop next (next crc byte) data'

unfoldable pub crc16 : Bytes → ℕ → ℕ → Bool → ℕ
unfolding crc_loop reflected_byte forward_byte
crc16 data' poly init true = bit_and (crc_loop (reflected_byte poly) init data') 0xFFFF
crc16 data' poly init false = bit_and (crc_loop (forward_byte poly) init data') 0xFFFF

-- The entries of `CRC16_ALGORITHMS`.
unfoldable pub crc16_ccitt_false : Bytes → ℕ
unfolding crc16
crc16_ccitt_false data' = crc16 data' 0x1021 0xFFFF false

unfoldable pub crc16_xmodem : Bytes → ℕ
unfolding crc16
crc16_xmodem data' = crc16 data' 0x1021 0x0000 false

unfoldable pub crc16_modbus : Bytes → ℕ
unfolding crc16
crc16_modbus data' = crc16 data' 0xA001 0xFFFF true

unfoldable pub crc16_arc : Bytes → ℕ
unfolding crc16
crc16_arc data' = crc16 data' 0xA001 0x0000 true
