-- ===== src/Wal/Log/Read.antt =====
-- What `next` makes of the bytes behind its offset.
use aether_stream.Common.{
  ℕ, ◌+◌, ◌-◌, ◌≤◌, ◌<◌, ◌≡◌, refl, sym, ap, ◌∙◌, true, false, ◌==◌, ltb, leb, not, ◌||◌, [], ◌∷◌,
  ◌++◌, append_assoc, append-nil, ap₂, Bool-cases, inl, inr, dec_lt, replicate, take-replicate,
  length, length-append, take, drop, take-append, drop-append, take_all, arith,
}
use aether_stream.Core.Types.{u64_mod}
use aether_stream.Core.Status.{status_ok}
use aether_stream.Core.Expected.{value}
use aether_stream.Io.Mmap
use aether_stream.Io.Mmap.{MmapFile, bytes}
use aether_stream.Wal.Record.{
  Bytes, WalRecordHeader, serialize_header, deserialize_header, read_header, is_zero_filled,
  validate_header_shape, record_total_size,
}
use aether_stream.Wal.Codec.{Fits, read_header-serialize_header, length-serialize_header}
use aether_stream.Wal.Checksum.{validate_record_checksum}
use aether_stream.Wal.Reader.{WalReader, valid, next, next_record, next_header, accept, end_of_log}
use aether_stream.Wal.Log.{Entry, encode, IsEntry, IsShaped, IsEntry-IsShaped, length-encode}

-- A reader stands in a whole mapping behind `before`, with `after` still to read.
pub record StandsAt (r : WalReader) (before after : Bytes) : Type 0 where
  pub is_open : Mmap.valid r.file ≡ true
  pub whole : length (bytes r.file) ≡ r.file.size
  pub fits : r.file.size < u64_mod
  pub split : bytes r.file ≡ before ++ after
  pub at : r.current_offset ≡ length before

module _ {r : WalReader} {before after : Bytes} (s : StandsAt r before after) where
  pub bytes_left : r.file.size - r.current_offset ≡ length after
  bytes_left = omega (arith, s.whole, s.at, ap length s.split, length-append before after)

  pub tail_eq : take (r.file.size - r.current_offset) (drop r.current_offset (bytes r.file)) ≡ after
  tail_eq =
      rw (bytes_left, s.split, s.at, drop-append before after)
        (take_all (length after) after (omega arith))

-- The header of an entry passes the test of its shape.
pub shape_ok : (e : Entry) → IsShaped e → validate_header_shape e.header ≡ status_ok
unfolding validate_header_shape
shape_ok e v = ground (arith, v.magic, v.version, v.header_size, v.payload_size, v.short)

pub total_size_eq : (e : Entry) → IsShaped e → record_total_size e.header ≡ 40 + length e.payload
unfolding record_total_size
total_size_eq e v = omega (arith, v.header_size, v.payload_size, v.short)

checksum_ok : (e : Entry) → IsEntry e → validate_record_checksum e.header e.payload ≡ true
unfolding validate_record_checksum
checksum_ok e v = ground (arith, v.checksum)

pub payload_eq :
    (e : Entry) (rest : Bytes)
    → IsShaped e
    → take e.header.payload_size (drop 40 (encode e ++ rest)) ≡ e.payload
payload_eq e rest v =
    let behind : drop 40 (encode e ++ rest) ≡ e.payload ++ rest =
      rw (append_assoc (serialize_header e.header) e.payload rest) (
        ap (λ (n : ℕ). drop n (serialize_header e.header ++ (e.payload ++ rest)))
          (sym (length-serialize_header e.header))
        ∙ drop-append (serialize_header e.header) (e.payload ++ rest)) in
    rw (behind, v.payload_size) (take-append e.payload rest)

next_record_entry :
    (r : WalReader) (e : Entry) (rest : Bytes) (remaining : ℕ)
    → IsEntry e
    → 40 + length e.payload ≤ remaining
    → next_record r (encode e ++ rest) remaining e.header
      ≡ accept r e.header e.payload (40 + length e.payload)
unfolding next_record
next_record_entry r e rest remaining v room =
    let size = 40 + length e.payload in
    let magic : (e.header.magic == 0) ≡ false = ground (arith, v.magic) in
    let whole : (ltb size e.header.header_size || ltb remaining size) ≡ false =
      ground (arith, v.header_size) in
    let fits : leb size (u64_mod - 1) ≡ true = ground (arith, v.short) in
    let shaped = IsEntry-IsShaped e v in
    rw (
      magic,
      shape_ok e shaped,
      total_size_eq e shaped,
      whole,
      fits,
      payload_eq e rest shaped,
      checksum_ok e v,
    )

-- The header is decoded from the first 40 bytes.
pub decoded_header :
    (h : WalRecordHeader) (rest : Bytes)
    → Fits h
    → deserialize_header (take 40 (serialize_header h ++ rest)) ≡ value h
unfolding deserialize_header
decoded_header h rest fits =
    let first : take 40 (serialize_header h ++ rest) ≡ serialize_header h =
      ap (λ (n : ℕ). take n (serialize_header h ++ rest)) (sym (length-serialize_header h))
      ∙ take-append (serialize_header h) rest in
    let same : read_header (serialize_header h) ≡ h =
      ap read_header (sym (append-nil (serialize_header h)))
      ∙ read_header-serialize_header h [] fits in
    rw (first, length-serialize_header h, same)

pub decoded :
    (e : Entry) (rest : Bytes)
    → Fits e.header
    → deserialize_header (take 40 (encode e ++ rest)) ≡ value e.header
decoded e rest fits =
    rw (append_assoc (serialize_header e.header) e.payload rest)
      (decoded_header e.header (e.payload ++ rest) fits)

-- With 40 bytes left, `next` decodes a header from them.
pub next_decodes :
    (r : WalReader) (before after : Bytes)
    → StandsAt r before after
    → 40 ≤ length after
    → next r ≡ next_header r after (length after) (deserialize_header (take 40 after))
unfolding next valid
next_decodes r before after s room =
    let left = bytes_left s in
    let inside : leb r.file.size r.current_offset ≡ false = ground (arith, left) in
    let fits : (not (leb r.current_offset (u64_mod - 1)) || not (leb (length after) (u64_mod - 1)))
        ≡ false =
      ground (arith, left, s.fits) in
    let long : ltb (length after) 40 ≡ false = ground arith in
    rw (s.is_open, inside, tail_eq s, left, fits, long)

-- In front of the bytes of an entry, `next` gives that entry and moves behind it.
pub next_entry :
    (r : WalReader) (before : Bytes) (e : Entry) (rest : Bytes)
    → StandsAt r before (encode e ++ rest)
    → IsEntry e
    → next r ≡ accept r e.header e.payload (40 + length e.payload)
next_entry r before e rest s v =
    let size : length (encode e ++ rest) ≡ 40 + length e.payload + length rest =
      omega (arith, length-append (encode e) rest, length-encode e) in
    next_decodes r before (encode e ++ rest) s (omega arith)
    ∙ rw (decoded e rest v.fits)
        (next_record_entry r e rest (length (encode e ++ rest)) v (omega arith))

zeros_eq : (zeros : Bytes) → is_zero_filled zeros ≡ true → zeros ≡ replicate (length zeros) 0
unfolding is_zero_filled
zeros_eq [] z = refl
zeros_eq (b ∷ zeros) z = ap₂ ◌∷◌ (ground arith) (zeros_eq zeros (ground arith))

-- Zeros decode to a header whose magic is zero.
zero_magic :
    (zeros : Bytes)
    → is_zero_filled zeros ≡ true
    → 40 ≤ length zeros
    → (h : WalRecordHeader) × (deserialize_header (take 40 zeros) ≡ value h) × (h.magic ≡ 0)
unfolding deserialize_header read_header
zero_magic zeros z room =
    let first : take 40 zeros ≡ replicate 40 0 =
      ap (take 40) (zeros_eq zeros z) ∙ take-replicate 40 (length zeros) 0 room in
    (read_header (replicate 40 0), rw first, refl)

-- With fewer than 40 bytes left, all zero, or none at all.
next_short :
    (r : WalReader) (before zeros : Bytes)
    → StandsAt r before zeros
    → is_zero_filled zeros ≡ true
    → length zeros < 40
    → next r ≡ (end_of_log, r)
unfolding next valid
next_short r before zeros s z short = elim (Bool-cases (leb r.file.size r.current_offset)) [
  | inl done ↦ rw (s.is_open, done)
  | inr inside ↦
      let left = bytes_left s in
      let fits : (not (leb r.current_offset (u64_mod - 1))
            || not (leb (length zeros) (u64_mod - 1)))
          ≡ false =
        ground (arith, left, s.fits) in
      let few : ltb (length zeros) 40 ≡ true = ground arith in
      rw (s.is_open, inside, tail_eq s, left, fits, few, z)
]

-- In front of zeros only, `next` reports the end of the log and stays.
pub next_zeros :
    (r : WalReader) (before zeros : Bytes)
    → StandsAt r before zeros
    → is_zero_filled zeros ≡ true
    → next r ≡ (end_of_log, r)
unfolding next_record
next_zeros r before zeros s z = elim (dec_lt (length zeros) 40) [
  | no long ↦
      let (h, e, m) = zero_magic zeros z (omega arith) in
      next_decodes r before zeros s (omega arith) ∙ rw (e, next_header, m, z)
  | yes short ↦ next_short r before zeros s z short
]
