-- ===== src/Wal/Log.antt =====
-- The log as a list of entries: what the bytes of a file say.
pub mod Read
pub mod Replay
pub mod Write
pub mod Create
pub mod Append
pub mod Frame
pub mod Outcome
pub mod Session
pub mod Total
pub mod Damage
use aether_stream.Common.{
  ℕ, suc, ◌+◌, ◌^◌, ◌≤◌, ◌<◌, ◌≡◌, refl, true, Bool, List, [], ◌∷◌, ◌++◌, length, length-append,
  arith, sym, append-nil, append_assoc,
}
use aether_stream.Core.Types.{max_payload_size}
use aether_stream.Wal.Record.{
  Bytes, WalRecordHeader, WalRecordView, serialize_header, wal_record_magic, wal_format_version,
  wal_record_header_size, is_zero_filled,
}
use aether_stream.Wal.Codec.{Fits, length-serialize_header}
use aether_stream.Wal.Checksum.{compute_record_checksum}

pub record Entry : Type 0 where
  pub header : WalRecordHeader
  pub payload : Bytes

-- The bytes of an entry, and of several in a row.
abbrev pub encode : Entry → Bytes
encode e = serialize_header e.header ++ e.payload

abbrev pub encode_all : List Entry → Bytes
encode_all [] = []
encode_all (e ∷ es) = encode e ++ encode_all es

-- The header is of this format and says how long its payload is.
pub record IsShaped (e : Entry) : Type 0 where
  pub fits : Fits e.header
  pub magic : e.header.magic ≡ wal_record_magic
  pub version : e.header.version ≡ wal_format_version
  pub header_size : e.header.header_size ≡ wal_record_header_size
  pub payload_size : e.header.payload_size ≡ length e.payload
  pub short : length e.payload ≤ max_payload_size

-- The header is of this format and says what its payload is.
pub record IsEntry (e : Entry) : Type 0 where
  pub fits : Fits e.header
  pub magic : e.header.magic ≡ wal_record_magic
  pub version : e.header.version ≡ wal_format_version
  pub header_size : e.header.header_size ≡ wal_record_header_size
  pub payload_size : e.header.payload_size ≡ length e.payload
  pub short : length e.payload ≤ max_payload_size
  pub checksum : e.header.checksum ≡ compute_record_checksum e.header e.payload

pub IsEntry-IsShaped : (e : Entry) → IsEntry e → IsShaped e
IsEntry-IsShaped e v = record {
  fits = v.fits;
  magic = v.magic;
  version = v.version;
  header_size = v.header_size;
  payload_size = v.payload_size;
  short = v.short;
}

abbrev pub AllEntries : List Entry → Type 0
AllEntries [] = Unit {0}
AllEntries (e ∷ es) = IsEntry e × AllEntries es

-- What a reader shows of entries that begin at an offset.
abbrev pub view_at : ℕ → Entry → WalRecordView
view_at offset e = record { header = e.header; payload = e.payload; offset = offset }

abbrev pub views_from : ℕ → List Entry → List WalRecordView
views_from offset [] = []
views_from offset (e ∷ es) = view_at offset e ∷ views_from (offset + length (encode e)) es

pub length-encode : (e : Entry) → length (encode e) ≡ 40 + length e.payload
length-encode e =
    omega
      (arith, length-append (serialize_header e.header) e.payload, length-serialize_header e.header)

pub encode_all-snoc :
    (es : List Entry) (e : Entry) → encode_all (es ++ e ∷ []) ≡ encode_all es ++ encode e
encode_all-snoc [] e = append-nil (encode e)
encode_all-snoc (x ∷ es) e =
    rw (encode_all-snoc es e) (sym (append_assoc (encode x) (encode_all es) (encode e)))
