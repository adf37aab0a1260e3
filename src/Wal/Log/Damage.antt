-- ===== src/Wal/Log/Damage.antt =====
-- What may stand behind the entries of a log, and what a reader makes of it.
use aether_stream.Common.{
  ℕ, zero, suc, ◌+◌, ◌-◌, ◌≤◌, ◌<◌, ◌≡◌, ◌≢◌, refl, ◌∙◌, true, false, ◌==◌, ltb, leb, not, ◌||◌,
  ◌&&◌, ◌++◌, dec_lt, length, length-append, take, length-take, take-append_ge, arith,
}
use aether_stream.Core.Types.{u64_mod}
use aether_stream.Core.Status.{Status, StatusCode, status_error, is_ok}
use aether_stream.Core.Expected.{error}
use aether_stream.Wal.Record.{
  Bytes, WalRecordHeader, serialize_header, is_zero_filled, validate_header_shape, write_u16_le,
  write_u32_le, write_u64_le, write_loop,
}
use aether_stream.Wal.Codec.{Fits, length-serialize_header}
use aether_stream.Wal.Checksum.{compute_record_checksum, validate_record_checksum}
use aether_stream.Wal.Reader.{WalReader, valid, next, next_record, partial_record}
use aether_stream.Wal.Log.{Entry, encode, IsShaped, length-encode}
use aether_stream.Wal.Log.Read.{
  StandsAt, bytes_left, tail_eq, shape_ok, total_size_eq, payload_eq, decoded, decoded_header,
  next_decodes, next_zeros,
}

-- The bytes behind the entries, by the status that reading them gives: zeros to the end of the
-- file; a record that the end of the file cuts off; a record whose bytes do not have the checksum
-- that its header gives; a header that is not of this format, in bytes that are not all zero: its
-- magic may be zero.
pub data Ending : Status → Bytes → Type 0 where
  zeros : (l : Bytes) → is_zero_filled l ≡ true → Ending (status_error StatusCode.empty "") l
  torn :
      (e : Entry) (n : ℕ)
      → IsShaped e
      → 0 < n
      → n < length (encode e)
      → Ending (status_error StatusCode.empty "partial wal record") (take n (encode e))
  damaged :
      (e : Entry) (rest : Bytes)
      → IsShaped e
      → e.header.checksum ≢ compute_record_checksum e.header e.payload
      → Ending (status_error StatusCode.corrupted_record "wal checksum mismatch") (encode e ++ rest)
  misshapen :
      (h : WalRecordHeader) (rest : Bytes)
      → Fits h
      → is_zero_filled (serialize_header h ++ rest) ≡ false
      → is_ok (validate_header_shape h) ≡ false
      → Ending (validate_header_shape h) (serialize_header h ++ rest)

-- The first byte of a header is that of its magic.
first_byte :
    (h : WalRecordHeader) (rest : Bytes) (k : ℕ)
    → h.magic ≡ 0x4C415741
    → is_zero_filled (take (suc k) (serialize_header h ++ rest)) ≡ false
unfolding serialize_header write_u16_le write_u32_le write_u64_le write_loop is_zero_filled
first_byte h rest k m = rw m refl

-- A record cut off in its header.
next_torn_header :
    (r : WalReader) (before : Bytes) (e : Entry) (k : ℕ)
    → StandsAt r before (take (suc k) (encode e))
    → IsShaped e
    → suc k < 40
    → length (take (suc k) (encode e)) ≡ suc k
    → next r ≡ (partial_record, r)
unfolding next valid
next_torn_header r before e k s v short size =
    let left = bytes_left s in
    let inside : leb r.file.size r.current_offset ≡ false = ground (arith, left, size) in
    let fits : (not (leb r.current_offset (u64_mod - 1)) || not (leb (suc k) (u64_mod - 1)))
        ≡ false =
      ground (arith, left, s.fits, size) in
    let few : ltb (suc k) 40 ≡ true = ground arith in
    rw
      (s.is_open, inside, tail_eq s, left, size, fits, few, first_byte e.header e.payload k v.magic)

next_record_torn :
    (r : WalReader) (e : Entry) (tail : Bytes) (n : ℕ)
    → IsShaped e
    → n < 40 + length e.payload
    → next_record r tail n e.header ≡ (partial_record, r)
unfolding next_record
next_record_torn r e tail n v short =
    let magic : (e.header.magic == 0) ≡ false = ground (arith, v.magic) in
    let torn : (ltb (40 + length e.payload) e.header.header_size || ltb n (40 + length e.payload))
        ≡ true =
      ground (arith, v.header_size) in
    rw (magic, shape_ok e v, total_size_eq e v, torn)

take-encode :
    (e : Entry) (n : ℕ)
    → 40 ≤ n
    → take n (encode e) ≡ serialize_header e.header ++ take (n - 40) e.payload
take-encode e n long =
    take-append_ge n (serialize_header e.header) e.payload
      (omega (arith, length-serialize_header e.header))
    ∙ rw (length-serialize_header e.header)

next_torn :
    (r : WalReader) (before : Bytes) (e : Entry) (n : ℕ)
    → StandsAt r before (take n (encode e))
    → IsShaped e
    → 0 < n
    → n < length (encode e)
    → next r ≡ (partial_record, r)
next_torn r before e zero s v pos few = absurd (omega arith)
next_torn r before e (suc k) s v pos few =
    let size : length (take (suc k) (encode e)) ≡ suc k =
      length-take (suc k) (encode e) ∙ omega arith in
    elim (dec_lt (suc k) 40) [
      | yes short ↦ next_torn_header r before e k s v short size
      | no long ↦
          next_decodes r before (take (suc k) (encode e)) s (omega (arith, size))
          ∙ rw
              (
                size,
                take-encode e (suc k) (omega arith),
                decoded_header e.header (take (suc k - 40) e.payload) v.fits,
              )
              (next_record_torn r e _ (suc k) v (omega (arith, length-encode e)))
    ]

next_record_damaged :
    (r : WalReader) (e : Entry) (rest : Bytes) (remaining : ℕ)
    → IsShaped e
    → e.header.checksum ≢ compute_record_checksum e.header e.payload
    → 40 + length e.payload ≤ remaining
    → next_record r (encode e ++ rest) remaining e.header
      ≡ (error (status_error StatusCode.corrupted_record "wal checksum mismatch"), r)
unfolding next_record validate_record_checksum
next_record_damaged r e rest remaining v bad room =
    let size = 40 + length e.payload in
    let magic : (e.header.magic == 0) ≡ false = ground (arith, v.magic) in
    let whole : (ltb size e.header.header_size || ltb remaining size) ≡ false =
      ground (arith, v.header_size) in
    let fits : leb size (u64_mod - 1) ≡ true = ground (arith, v.short) in
    let wrong : (e.header.checksum == compute_record_checksum e.header e.payload) ≡ false =
      ground arith in
    rw (magic, shape_ok e v, total_size_eq e v, whole, fits, payload_eq e rest v, wrong)

next_record_misshapen :
    (r : WalReader) (h : WalRecordHeader) (tail : Bytes) (remaining : ℕ)
    → is_zero_filled tail ≡ false
    → is_ok (validate_header_shape h) ≡ false
    → next_record r tail remaining h ≡ (error (validate_header_shape h), r)
unfolding next_record
next_record_misshapen r h tail remaining some_byte bad =
    let more : (h.magic == 0 && is_zero_filled tail) ≡ false = ground (arith, some_byte) in
    rw (more, bad)

-- Reading an ending gives its status, and the reader stays in front of it.
pub next-Ending :
    {stop : Status} {after : Bytes} (r : WalReader) (before : Bytes)
    → Ending stop after
    → StandsAt r before after
    → next r ≡ (error stop, r)
next-Ending r before (zeros l z) s = next_zeros r before l s z
next-Ending r before (torn e n v pos few) s = next_torn r before e n s v pos few
next-Ending r before (damaged e rest v bad) s =
    let size : length (encode e ++ rest) ≡ 40 + length e.payload + length rest =
      omega (arith, length-append (encode e) rest, length-encode e) in
    next_decodes r before (encode e ++ rest) s (omega (arith, size))
    ∙ rw (decoded e rest v.fits)
        (next_record_damaged r e rest (length (encode e ++ rest)) v bad (omega (arith, size)))
next-Ending r before (misshapen h rest fits some_byte bad) s =
    let size : length (serialize_header h ++ rest) ≡ 40 + length rest =
      omega (arith, length-append (serialize_header h) rest, length-serialize_header h) in
    next_decodes r before (serialize_header h ++ rest) s (omega (arith, size))
    ∙ rw (decoded_header h rest fits) (next_record_misshapen r h _ _ some_byte bad)
