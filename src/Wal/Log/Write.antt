-- ===== src/Wal/Log/Write.antt =====
-- What `append` does to the log that a writer's file holds.
use aether_stream.Common.{
  ℕ, zero, suc, ◌+◌, ◌%◌, ◌^◌, ◌≤◌, ◌<◌, ◌≡◌, refl, sym, ap, ◌∙◌, true, not, List, [], ◌∷◌, ◌++◌,
  append_assoc, append-nil, ap₂, length, length-append, drop, take-append, drop-add-append,
  drop-drop, arith, if◌then◌else◌, is_empty,
}
use aether_stream.Core.Types.{u64_mod, u32_mod, max_payload_size}
use aether_stream.Io.Mmap.{bytes, with_bytes}
use aether_stream.Wal.Record.{Bytes, serialize_header, is_zero_filled}
use aether_stream.Wal.Codec.{length-serialize_header}
use aether_stream.Wal.Checksum.{AllBytes, compute_record_checksum, compute_record_checksum-lt}
use aether_stream.Wal.Message.{MessageView}
use aether_stream.Wal.Writer.{WalWriter, copy_to, record_header, store_record}
use aether_stream.Wal.Log.{Entry, IsEntry, encode, encode_all, encode_all-snoc, AllEntries}
use aether_stream.Wal.Log.Replay.{HoldsLog}

-- A message whose fields fit their types, and whose header says how long its payload is.
pub record IsMessage (m : MessageView) : Type 0 where
  pub sized : m.header.payload_size ≡ length m.payload
  pub short : length m.payload ≤ max_payload_size
  pub flags_fit : m.header.flags < 2 ^ 32
  pub payload_bytes : AllBytes m.payload

-- A writer has written these entries: they are all that its file holds, it stands behind them, and
-- it counts them.
pub record Wrote (w : WalWriter) (es : List Entry) : Type 0 where
  pub zeros : Bytes
  pub log : HoldsLog w.file es zeros
  pub at : w.current_offset ≡ length (encode_all es)
  pub next : w.next_sequence ≡ length es
  pub count : w.records_written ≡ length es

copy_to-append :
    (xs ys source : Bytes)
    → copy_to (xs ++ ys) (length xs) source ≡ xs ++ (source ++ drop (length source) ys)
copy_to-append xs ys source = rw (take-append xs ys, drop-add-append (length source) xs ys)

pub is_zero_filled-drop :
    (n : ℕ) (zs : Bytes) → is_zero_filled zs ≡ true → is_zero_filled (drop n zs) ≡ true
unfolding is_zero_filled
is_zero_filled-drop zero zs h = h
is_zero_filled-drop (suc n) [] h = refl
is_zero_filled-drop (suc n) (z ∷ zs) h = is_zero_filled-drop n zs (ground arith)

pub AllEntries-snoc :
    (es : List Entry) (e : Entry) → AllEntries es → IsEntry e → AllEntries (es ++ e ∷ [])
AllEntries-snoc [] e all v = (v, tt)
AllEntries-snoc (x ∷ es) e all v = (all.0, AllEntries-snoc es e all.1 v)

-- The entry that `append` makes of a message.
abbrev pub entry_of : WalWriter → MessageView → ℕ → Entry
entry_of w m stamp = record { header = record_header w m stamp; payload = m.payload }

pub entry_of-IsEntry :
    (w : WalWriter) (m : MessageView) (stamp : ℕ)
    → IsMessage m
    → w.next_sequence < u64_mod
    → stamp < u64_mod
    → IsEntry (entry_of w m stamp)
unfolding record_header compute_record_checksum
entry_of-IsEntry w m stamp v seq now =
    let size : length m.payload % u32_mod ≡ length m.payload = omega (arith, v.short) in
    record {
      fits = record {
        magic = omega arith;
        version = omega arith;
        header_size = omega arith;
        payload_size = omega (arith, size, v.short);
        sequence = seq;
        timestamp_ns = now;
        checksum = compute_record_checksum-lt (entry_of w m stamp).header m.payload v.payload_bytes;
        flags = v.flags_fit;
      };
      magic = refl;
      version = refl;
      header_size = refl;
      payload_size = size;
      short = v.short;
      checksum = refl;
    }

-- A second copy, right behind a first.
copied_both :
    (log zeros header payload : Bytes) (next : ℕ)
    → next ≡ length (log ++ header)
    → copy_to (copy_to (log ++ zeros) (length log) header) next payload
      ≡ (log ++ (header ++ payload)) ++ drop (length (header ++ payload)) zeros
copied_both log zeros header payload next at =
    let rest = drop (length header) zeros in
    let first : copy_to (log ++ zeros) (length log) header ≡ (log ++ header) ++ rest =
      copy_to-append log zeros header ∙ sym (append_assoc log header rest) in
    let tail = drop (length payload) rest in
    let second : (log ++ header) ++ (payload ++ tail) ≡ (log ++ (header ++ payload)) ++ tail =
      sym (append_assoc (log ++ header) payload tail)
      ∙ ap (λ (l : Bytes). l ++ tail) (append_assoc log header payload) in
    ap₂ (λ (l : Bytes) (n : ℕ). copy_to l n payload) first at
    ∙ copy_to-append (log ++ header) rest payload
    ∙ second
    ∙ rw (drop-drop (length payload) (length header) zeros, length-append header payload)

-- The two copies put the bytes of an entry behind those of the log.
copied :
    (log zeros header payload : Bytes)
    → length header ≡ 40
    → (if not (is_empty payload)
        then copy_to (copy_to (log ++ zeros) (length log) header) (length log + 40) payload
        else copy_to (log ++ zeros) (length log) header)
      ≡ (log ++ (header ++ payload)) ++ drop (length (header ++ payload)) zeros
copied log zeros header [] h =
    copy_to-append log zeros header
    ∙ rw (append-nil header) (sym (append_assoc log header (drop (length header) zeros)))
copied log zeros header (b ∷ payload) h =
    copied_both log zeros header (b ∷ payload) (length log + 40)
      (omega (arith, length-append log header, h))

pub stored_bytes :
    (w : WalWriter) (es : List Entry) (zeros : Bytes) (e : Entry)
    → bytes w.file ≡ encode_all es ++ zeros
    → w.current_offset ≡ length (encode_all es)
    → (store_record w e.header e.payload).file
      ≡ with_bytes w.file (encode_all (es ++ e ∷ []) ++ drop (length (encode e)) zeros)
unfolding store_record
stored_bytes w es zeros e split at =
    rw (split, at, encode_all-snoc es e)
      (ap (with_bytes w.file) (
        copied (encode_all es) zeros (serialize_header e.header) e.payload
          (length-serialize_header e.header)))
