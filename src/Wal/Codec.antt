-- ===== src/Wal/Codec.antt =====
-- Encoding and decoding a header are inverse.
use native.Mathlib.Nat.{
  mod-eq_of_lt, add-mul-mod_self_left, div-add-mod, mod-lt, one-le-pow, mod-one,
}
use aether_stream.Common.{
  ℕ, ◌+◌, ◌*◌, ◌/◌, ◌%◌, ◌^◌, ◌≤◌, ◌<◌, ◌≡◌, refl, ap, subst, ◌∙◌, arith, ◌++◌, length, bit_and,
  bit_or, bit_and-mask, bit_or-fields, pow-add,
}
use aether_stream.Core.Types.{u32_mod, u64_mod}
use aether_stream.Wal.Record.{Bytes, WalRecordHeader, serialize_header, read_header}

-- The fields of a header fit their widths, as values of their C++ types do.
pub record Fits (h : WalRecordHeader) : Type 0 where
  pub magic : h.magic < 2 ^ 32
  pub version : h.version < 2 ^ 16
  pub header_size : h.header_size < 2 ^ 16
  pub payload_size : h.payload_size < 2 ^ 32
  pub sequence : h.sequence < 2 ^ 64
  pub timestamp_ns : h.timestamp_ns < 2 ^ 64
  pub checksum : h.checksum < 2 ^ 32
  pub flags : h.flags < 2 ^ 32

byte_lt : (p x w : ℕ) → 0 < p → x < 256 → p * 256 ≤ w → x * p < w
byte_lt p x w pos lt fits = grind arith

-- A number by a size `p`, and by 256 times as much.
split_by : (p v : ℕ) → 0 < p → v % (p * 256) ≡ v % p + v / p % 256 * p
split_by p v pos =
    let r = v % p + v / p % 256 * p in
    let small : r < p * 256 = grind (arith, mod-lt v pos, mod-lt (v / p) {m = 256} (omega arith)) in
    let e : v ≡ r + p * 256 * (v / p / 256) =
      omega (arith, div-add-mod v p, ap (λ (t : ℕ). p * t) (div-add-mod (v / p) 256)) in
    ap (λ (t : ℕ). t % (p * 256)) e
    ∙ add-mul-mod_self_left r (p * 256) (v / p / 256)
    ∙ mod-eq_of_lt small

-- The low `k + 8` bits of a number are its low `k` bits and the byte above them.
split_low : (k v : ℕ) → v % 2 ^ (k + 8) ≡ v % 2 ^ k + v / 2 ^ k % 256 * 2 ^ k
split_low k v = rw (pow-add 2 k 8) (split_by (2 ^ k) v (one-le-pow k 2 (omega arith)))

-- One round of a reading loop puts the next byte of `v` above those read.
read_round :
    (k w v : ℕ)
    → 2 ^ k * 256 ≤ w
    → bit_or (v % 2 ^ k) (bit_and (v / 2 ^ k) 0xFF * 2 ^ k % w) ≡ v % 2 ^ (k + 8)
read_round k w v fits =
    let pos = one-le-pow k 2 (omega arith) in
    let x = v / 2 ^ k % 256 in
    let small : x * 2 ^ k < w =
      byte_lt (2 ^ k) x w pos (mod-lt (v / 2 ^ k) {m = 256} (omega arith)) fits in
    rw (bit_and-mask 8 (v / 2 ^ k), split_low k v)
      (ap (bit_or (v % 2 ^ k)) (mod-eq_of_lt small) ∙ bit_or-fields k (v % 2 ^ k) x (mod-lt v pos))

-- The byte of `v` that a writing loop puts at offset `i`, and a reading loop's use of it.
abbrev pub le_byte : ℕ → ℕ → ℕ
le_byte v i = bit_and (v / 2 ^ (i * 8)) 0xFF

abbrev term : ℕ → ℕ → ℕ → ℕ
term w v i = le_byte v i * 2 ^ (i * 8) % w

first_round : (w v : ℕ) → 256 ≤ w → bit_or 0 (term w v 0) ≡ v % 2 ^ 8
first_round w v h =
    subst (λ (t : ℕ). bit_or t (term w v 0) ≡ v % 2 ^ 8) (mod-one v) (read_round 0 w v h)

join_u16 : (v : ℕ) → v < 2 ^ 16 → bit_or (bit_and v 0xFF) (term (2 ^ 16) v 1) ≡ v
join_u16 v h = rw (bit_and-mask 8 v) (read_round 8 (2 ^ 16) v (omega arith) ∙ mod-eq_of_lt h)

join_u32 :
    (v : ℕ)
    → v < 2 ^ 32
    → let w = u32_mod in
      bit_or (bit_or (bit_or (bit_or 0 (term w v 0)) (term w v 1)) (term w v 2)) (term w v 3) ≡ v
join_u32 v h =
    rw
      (
        first_round u32_mod v (omega arith),
        read_round 8 u32_mod v (omega arith),
        read_round 16 u32_mod v (omega arith),
        read_round 24 u32_mod v (omega arith),
      )
      (mod-eq_of_lt h)

join_u64 :
    (v : ℕ)
    → v < 2 ^ 64
    → let t = term u64_mod v in
      bit_or
        (bit_or
          (bit_or
            (bit_or (bit_or (bit_or (bit_or (bit_or 0 (t 0)) (t 1)) (t 2)) (t 3)) (t 4))
            (t 5))
          (t 6))
        (t 7)
      ≡ v
join_u64 v h =
    rw
      (
        first_round u64_mod v (omega arith),
        read_round 8 u64_mod v (omega arith),
        read_round 16 u64_mod v (omega arith),
        read_round 24 u64_mod v (omega arith),
        read_round 32 u64_mod v (omega arith),
        read_round 40 u64_mod v (omega arith),
        read_round 48 u64_mod v (omega arith),
        read_round 56 u64_mod v (omega arith),
      )
      (mod-eq_of_lt h)

-- A header has 40 bytes.
pub length-serialize_header : (h : WalRecordHeader) → length (serialize_header h) ≡ 40
unfolding serialize_header
length-serialize_header h = refl

-- Reading the header back from its bytes, whatever follows them, gives every field again.
pub read_header-serialize_header :
    (h : WalRecordHeader) (rest : Bytes) → Fits h → read_header (serialize_header h ++ rest) ≡ h
unfolding serialize_header read_header
read_header-serialize_header h rest f = λ i. record {
  magic = join_u32 h.magic f.magic i;
  version = join_u16 h.version f.version i;
  header_size = join_u16 h.header_size f.header_size i;
  payload_size = join_u32 h.payload_size f.payload_size i;
  sequence = join_u64 h.sequence f.sequence i;
  timestamp_ns = join_u64 h.timestamp_ns f.timestamp_ns i;
  checksum = join_u32 h.checksum f.checksum i;
  flags = join_u32 h.flags f.flags i;
}
