-- ===== src/Wal/Checksum.antt =====
-- src/wal/checksum.cpp: CRC-32 bit by bit, and the checksum of a record.
use aether_stream.Common.{
  ℕ, zero, suc, ◌+◌, ◌-◌, ◌/◌, ◌%◌, ◌^◌, ◌<◌, Bool, ◌==◌, [], ◌∷◌, ◌++◌, bit_and, bit_xor,
  bit_xor-lt, bit_and-le_right, set, replicate, ◌*◌, ◌≡◌, refl, arith,
}
use aether_stream.Core.Types.{u32_mod}
use aether_stream.Wal.Record.{
  Bytes, WalRecordHeader, serialize_header, write_loop, write_u16_le, write_u32_le, write_u64_le,
  wal_record_header_size,
}

-- One round of the inner loop: `mask = 0U - (crc & 1U)`, then the shift and the polynomial.
unfoldable pub crc_bit : ℕ → ℕ
crc_bit crc =
    let mask = (u32_mod - bit_and crc 1) % u32_mod in bit_xor (crc / 2) (bit_and 0xEDB88320 mask)

-- The rounds that are left of the inner loop.
unfoldable pub crc_bits : ℕ → ℕ → ℕ
unfolding crc_bit
crc_bits zero crc = crc
crc_bits (suc rounds) crc = crc_bits rounds (crc_bit crc)

-- The outer loop, which is also the `update` of a record's checksum.
unfoldable pub update : ℕ → Bytes → ℕ
unfolding crc_bits
update crc [] = crc
update crc (byte ∷ bytes) = update (crc_bits 8 (bit_xor crc byte)) bytes

unfoldable pub crc32 : Bytes → ℕ
unfolding update
crc32 bytes = bit_xor (update 0xFFFFFFFF bytes) 0xFFFFFFFF

unfoldable pub compute_record_checksum : WalRecordHeader → Bytes → ℕ
unfolding update
compute_record_checksum header payload =
    let serialized = serialize_header (record header { checksum = 0 }) in
    bit_xor (update (update 0xFFFFFFFF serialized) payload) 0xFFFFFFFF

unfoldable pub validate_record_checksum : WalRecordHeader → Bytes → Bool
validate_record_checksum header payload = header.checksum == compute_record_checksum header payload

update-append : (crc : ℕ) (xs ys : Bytes) → update crc (xs ++ ys) ≡ update (update crc xs) ys
unfolding update
update-append crc [] ys = refl
update-append crc (x ∷ xs) ys = update-append (crc_bits 8 (bit_xor crc x)) xs ys

-- The checksum of a record is the CRC-32 of its header's bytes, with the checksum field zero, and
-- its payload; so it does not depend on the checksum that the header carries.
pub compute_record_checksum-eq-crc32 :
    (h : WalRecordHeader) (payload : Bytes)
    → compute_record_checksum h payload
      ≡ crc32 (serialize_header (record h { checksum = 0 }) ++ payload)
unfolding compute_record_checksum crc32
compute_record_checksum-eq-crc32 h payload =
    rw (update-append 0xFFFFFFFF (serialize_header (record h { checksum = 0 })) payload)

-- Every byte of a list is below 256.
abbrev pub AllBytes : Bytes → Type 0
AllBytes [] = Unit {0}
AllBytes (b ∷ bytes) = (b < 256) × AllBytes bytes

crc_bit-lt : (crc : ℕ) → crc < 2 ^ 32 → crc_bit crc < 2 ^ 32
unfolding crc_bit
crc_bit-lt crc h =
    let mask = (u32_mod - bit_and crc 1) % u32_mod in
    bit_xor-lt 32 (crc / 2) (bit_and 0xEDB88320 mask) (omega arith)
      (omega (arith, bit_and-le_right 0xEDB88320 mask))

crc_bits-lt : (rounds crc : ℕ) → crc < 2 ^ 32 → crc_bits rounds crc < 2 ^ 32
unfolding crc_bits
crc_bits-lt zero crc h = h
crc_bits-lt (suc rounds) crc h = crc_bits-lt rounds (crc_bit crc) (crc_bit-lt crc h)

update-lt : (crc : ℕ) (bytes : Bytes) → crc < 2 ^ 32 → AllBytes bytes → update crc bytes < 2 ^ 32
unfolding update
update-lt crc [] h all = h
update-lt crc (b ∷ bytes) h all =
    update-lt (crc_bits 8 (bit_xor crc b)) bytes
      (crc_bits-lt 8 (bit_xor crc b) (bit_xor-lt 32 crc b h (omega arith))) all.1

set-AllBytes : (bytes : Bytes) (i v : ℕ) → v < 256 → AllBytes bytes → AllBytes (set bytes i v)
set-AllBytes [] i v h all = tt
set-AllBytes (b ∷ bytes) zero v h all = (h, all.1)
set-AllBytes (b ∷ bytes) (suc i) v h all = (all.0, set-AllBytes bytes i v h all.1)

write_loop-AllBytes :
    (rounds i : ℕ) (bytes : Bytes) (offset v : ℕ)
    → AllBytes bytes
    → AllBytes (write_loop rounds i bytes offset v)
unfolding write_loop
write_loop-AllBytes zero i bytes offset v all = all
write_loop-AllBytes (suc rounds) i bytes offset v all =
    let byte = bit_and (v / 2 ^ (i * 8)) 0xFF in
    let small : byte < 256 = omega (arith, bit_and-le_right (v / 2 ^ (i * 8)) 0xFF) in
    write_loop-AllBytes rounds (i + 1) (set bytes (offset + i) byte) offset v
      (set-AllBytes bytes (offset + i) byte small all)

write_u16_le-AllBytes :
    (bytes : Bytes) (offset v : ℕ) → AllBytes bytes → AllBytes (write_u16_le bytes offset v)
unfolding write_u16_le
write_u16_le-AllBytes bytes offset v all =
    set-AllBytes (set bytes offset (bit_and v 0xFF)) (offset + 1) (bit_and (v / 2 ^ 8) 0xFF)
      (omega (arith, bit_and-le_right (v / 2 ^ 8) 0xFF))
      (set-AllBytes bytes offset (bit_and v 0xFF) (omega (arith, bit_and-le_right v 0xFF)) all)

pub serialize_header-AllBytes : (h : WalRecordHeader) → AllBytes (serialize_header h)
unfolding serialize_header
serialize_header-AllBytes h =
    let zeros = replicate wal_record_header_size 0 in
    let b0 = write_u32_le zeros 0 h.magic in
    let b1 = write_u16_le b0 4 h.version in
    let b2 = write_u16_le b1 6 h.header_size in
    let b3 = write_u32_le b2 8 h.payload_size in
    let b4 = write_u64_le b3 16 h.sequence in
    let b5 = write_u64_le b4 24 h.timestamp_ns in
    let b6 = write_u32_le b5 32 h.checksum in
    let a : AllBytes zeros = omega arith in
    let a0 = write_loop-AllBytes 4 0 zeros 0 h.magic a in
    let a1 = write_u16_le-AllBytes b0 4 h.version a0 in
    let a2 = write_u16_le-AllBytes b1 6 h.header_size a1 in
    let a3 = write_loop-AllBytes 4 0 b2 8 h.payload_size a2 in
    let a4 = write_loop-AllBytes 8 0 b3 16 h.sequence a3 in
    let a5 = write_loop-AllBytes 8 0 b4 24 h.timestamp_ns a4 in
    let a6 = write_loop-AllBytes 4 0 b5 32 h.checksum a5 in write_loop-AllBytes 4 0 b6 36 h.flags a6

-- The checksum of a record of bytes fits its 32-bit field.
pub compute_record_checksum-lt :
    (h : WalRecordHeader) (payload : Bytes)
    → AllBytes payload
    → compute_record_checksum h payload < 2 ^ 32
unfolding compute_record_checksum
compute_record_checksum-lt h payload all =
    let head = serialize_header (record h { checksum = 0 }) in
    bit_xor-lt 32 (update (update 0xFFFFFFFF head) payload) 0xFFFFFFFF
      (update-lt (update 0xFFFFFFFF head) payload
        (update-lt 0xFFFFFFFF head (omega arith)
          (serialize_header-AllBytes (record h { checksum = 0 })))
        all)
      (omega arith)
