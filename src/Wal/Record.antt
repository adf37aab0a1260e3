-- ===== src/Wal/Record.antt =====
-- include/aether/wal/record.hpp: the header of a record and its 40 little-endian bytes. A byte is
-- a number; `serialize_header` writes numbers below 256.
use aether_stream.Common.{
  ℕ, zero, suc, ◌+◌, ◌*◌, ◌/◌, ◌%◌, ◌^◌, Bool, true, false, not, ◌==◌, ltb, if◌then◌else◌, List, [],
  ◌∷◌, length, set, get_or, replicate, bit_and, bit_or,
}
use aether_stream.Core.Status.{Status, StatusCode, status_error, status_ok}
use aether_stream.Core.Expected.{Expected, value, of_status}
use aether_stream.Core.Types.{u32_mod, u64_mod, max_payload_size}
pub use aether_stream.Core.Validate.{wal_record_header_size}

abbrev pub Bytes : Type 0
Bytes = List ℕ

-- `'A' | 'W' << 8 | 'A' << 16 | 'L' << 24`.
abbrev pub wal_record_magic : ℕ
wal_record_magic = bit_or (bit_or (bit_or b'A' (b'W' * 2 ^ 8)) (b'A' * 2 ^ 16)) (b'L' * 2 ^ 24)

abbrev pub wal_format_version : ℕ
wal_format_version = 1

pub record WalRecordHeader : Type 0 where
  pub magic : ℕ
  pub version : ℕ
  pub header_size : ℕ
  pub payload_size : ℕ
  pub sequence : ℕ
  pub timestamp_ns : ℕ
  pub checksum : ℕ
  pub flags : ℕ

-- `WalRecordHeader header{}`.
abbrev pub default_header : WalRecordHeader
default_header = record {
  magic = wal_record_magic;
  version = wal_format_version;
  header_size = wal_record_header_size;
  payload_size = 0;
  sequence = 0;
  timestamp_ns = 0;
  checksum = 0;
  flags = 0;
}

-- `WalRecordView`: the payload, and where the record begins.
pub record WalRecordView : Type 0 where
  pub header : WalRecordHeader
  pub payload : Bytes
  pub offset : ℕ

unfoldable pub write_u16_le : Bytes → ℕ → ℕ → Bytes
write_u16_le bytes offset v =
    set (set bytes offset (bit_and v 0xFF)) (offset + 1) (bit_and (v / 2 ^ 8) 0xFF)

-- The loop of `write_u32_le` and `write_u64_le`, from `i` on for the rounds left.
unfoldable pub write_loop : ℕ → ℕ → Bytes → ℕ → ℕ → Bytes
write_loop zero i bytes offset v = bytes
write_loop (suc rounds) i bytes offset v =
    write_loop rounds (i + 1) (set bytes (offset + i) (bit_and (v / 2 ^ (i * 8)) 0xFF)) offset v

unfoldable pub write_u32_le : Bytes → ℕ → ℕ → Bytes
unfolding write_loop
write_u32_le bytes offset v = write_loop 4 0 bytes offset v

unfoldable pub write_u64_le : Bytes → ℕ → ℕ → Bytes
unfolding write_loop
write_u64_le bytes offset v = write_loop 8 0 bytes offset v

-- `bytes[i]`; the size test of `deserialize_header` keeps every index inside.
abbrev pub byte_at : Bytes → ℕ → ℕ
byte_at bytes i = get_or bytes i 0

unfoldable pub read_u16_le : Bytes → ℕ → ℕ
read_u16_le bytes offset =
    bit_or (byte_at bytes offset) (byte_at bytes (offset + 1) * 2 ^ 8 % 2 ^ 16)

-- The loop of `read_u32_le` and `read_u64_le` on a word of `2 ^ w`.
unfoldable pub read_loop : ℕ → ℕ → ℕ → Bytes → ℕ → ℕ → ℕ
read_loop modulus zero i bytes offset v = v
read_loop modulus (suc rounds) i bytes offset v =
    read_loop modulus rounds (i + 1) bytes offset
      (bit_or v (byte_at bytes (offset + i) * 2 ^ (i * 8) % modulus))

unfoldable pub read_u32_le : Bytes → ℕ → ℕ
unfolding read_loop
read_u32_le bytes offset = read_loop u32_mod 4 0 bytes offset 0

unfoldable pub read_u64_le : Bytes → ℕ → ℕ
unfolding read_loop
read_u64_le bytes offset = read_loop u64_mod 8 0 bytes offset 0

unfoldable pub serialize_header : WalRecordHeader → Bytes
unfolding write_u16_le write_u32_le write_u64_le
serialize_header header =
    let b0 = write_u32_le (replicate wal_record_header_size 0) 0 header.magic in
    let b1 = write_u16_le b0 4 header.version in
    let b2 = write_u16_le b1 6 header.header_size in
    let b3 = write_u32_le b2 8 header.payload_size in
    let b4 = write_u64_le b3 16 header.sequence in
    let b5 = write_u64_le b4 24 header.timestamp_ns in
    let b6 = write_u32_le b5 32 header.checksum in write_u32_le b6 36 header.flags

-- The header that stands in the first 40 bytes.
unfoldable pub read_header : Bytes → WalRecordHeader
unfolding read_u16_le read_u32_le read_u64_le
read_header bytes = record {
  magic = read_u32_le bytes 0;
  version = read_u16_le bytes 4;
  header_size = read_u16_le bytes 6;
  payload_size = read_u32_le bytes 8;
  sequence = read_u64_le bytes 16;
  timestamp_ns = read_u64_le bytes 24;
  checksum = read_u32_le bytes 32;
  flags = read_u32_le bytes 36;
}

unfoldable pub deserialize_header : Bytes → Expected WalRecordHeader
deserialize_header bytes =
    if ltb (length bytes) wal_record_header_size
    then of_status (status_error StatusCode.empty "partial wal header")
    else value (read_header bytes)

unfoldable pub record_total_size : WalRecordHeader → ℕ
record_total_size header = (header.header_size + header.payload_size) % u64_mod

unfoldable pub is_zero_filled : Bytes → Bool
is_zero_filled [] = true
is_zero_filled (b ∷ bytes) = let rest = is_zero_filled bytes in if not (b == 0) then false else rest

unfoldable pub validate_header_shape : WalRecordHeader → Status
validate_header_shape header =
    if not (header.magic == wal_record_magic)
    then status_error StatusCode.corrupted_record "invalid wal magic"
    else if not (header.version == wal_format_version)
    then status_error StatusCode.corrupted_record "unsupported wal version"
    else if not (header.header_size == wal_record_header_size)
    then status_error StatusCode.corrupted_record "invalid wal header size"
    else if ltb max_payload_size header.payload_size
    then status_error StatusCode.corrupted_record "invalid wal payload size"
    else status_ok
