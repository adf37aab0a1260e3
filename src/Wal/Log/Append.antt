-- ===== src/Wal/Log/Append.antt =====
-- What `append` does on each branch to a writer that stands behind a log.
use aether_stream.Common.{
  ℕ, ◌+◌, ◌-◌, ◌%◌, ◌≤◌, ◌<◌, ◌≡◌, sym, ap, subst, ◌∙◌, true, false, ltb, leb, not, ◌||◌, List, [],
  ◌∷◌, ◌++◌, length, length-append, drop, length-drop, arith,
}
use aether_stream.Core.Types.{u64_mod, max_payload_size}
use aether_stream.Core.Status.{StatusCode, status_ok, status_error}
use aether_stream.Io.Os.{Os}
use aether_stream.Io.Mmap
use aether_stream.Io.Mmap.{MmapFile, bytes, with_bytes}
use aether_stream.Wal.Record.{Bytes}
use aether_stream.Wal.Message.{MessageView, validate_message_view}
use aether_stream.Wal.Writer.{
  WalWriter, valid, remaining_space, store_record, advance, append, write_record, record_header,
}
use aether_stream.Wal.Log.{Entry, encode, encode_all, encode_all-snoc, length-encode, IsEntry}
use aether_stream.Wal.Log.Replay.{HoldsLog, length-encode_all-ge}
use aether_stream.Wal.Log.Write.{
  IsMessage, Wrote, entry_of, entry_of-IsEntry, stored_bytes, is_zero_filled-drop, AllEntries-snoc,
}

valid-with_bytes :
    (f : MmapFile) (l : Bytes) → Mmap.valid f ≡ true → Mmap.valid (with_bytes f l) ≡ true
unfolding Mmap.valid
valid-with_bytes f l h = ground arith

bytes-with_bytes : (f : MmapFile) (l : Bytes) → Mmap.valid f ≡ true → bytes (with_bytes f l) ≡ l
unfolding bytes
bytes-with_bytes f l h = rw (valid-with_bytes f l h)

-- The file of a writer with one entry more.
grown :
    (f : MmapFile) (es : List Entry) (zeros : Bytes) (e : Entry)
    → HoldsLog f es zeros
    → IsEntry e
    → length (encode e) ≤ length zeros
    → HoldsLog
        (with_bytes f (encode_all (es ++ e ∷ []) ++ drop (length (encode e)) zeros))
        (es ++ e ∷ [])
        (drop (length (encode e)) zeros)
grown f es zeros e h v room =
    let rest = drop (length (encode e)) zeros in
    let mapped = encode_all (es ++ e ∷ []) ++ rest in
    let eq = bytes-with_bytes f mapped h.is_open in
    let size : length (encode_all (es ++ e ∷ [])) ≡ length (encode_all es) + length (encode e) =
      ap length (encode_all-snoc es e) ∙ length-append (encode_all es) (encode e) in
    record {
      is_open = valid-with_bytes f mapped h.is_open;
      whole =
          ap length eq
          ∙ omega (
            arith,
            size,
            h.whole,
            ap length h.split,
            length-append (encode_all es) zeros,
            length-append (encode_all (es ++ e ∷ [])) rest,
            length-drop (length (encode e)) zeros,
          );
      fits = h.fits;
      split = eq;
      slack = is_zero_filled-drop (length (encode e)) zeros h.slack;
      entries = AllEntries-snoc es e h.entries v;
    }

module _ {w : WalWriter} {es : List Entry} (o : Wrote w es) where
  -- What is left behind the offset are the zeros.
  space : w.file.size - w.current_offset ≡ length o.zeros
  space =
      omega (arith, o.at, o.log.whole, ap length o.log.split, length-append (encode_all es) o.zeros)

  pub inside : length (encode_all es) + length o.zeros ≡ w.file.size
  inside = omega (arith, o.log.whole, ap length o.log.split, length-append (encode_all es) o.zeros)

  pub remaining_space_eq : remaining_space w ≡ length o.zeros
  unfolding remaining_space
  remaining_space_eq =
      let below : leb w.current_offset w.file.size ≡ true = ground (arith, o.at, inside) in
      rw (o.log.is_open, below, space)

pub is_valid : {w : WalWriter} {es : List Entry} → Wrote w es → valid w ≡ true
unfolding valid
is_valid o = o.log.is_open

-- There is room for a message behind the log.
abbrev pub HasRoom : WalWriter → MessageView → Type 0
HasRoom w m = 40 + length m.payload ≤ remaining_space w

module _ (w : WalWriter) (es : List Entry) (m : MessageView) (o : Wrote w es)
    (v : IsMessage m) where
  room_eq : HasRoom w m → 40 + length m.payload ≤ length o.zeros
  room_eq room = omega (arith, remaining_space_eq o, room)

  total_eq : (40 + length m.payload) % u64_mod ≡ 40 + length m.payload
  total_eq = omega (arith, v.short)

  message_ok : validate_message_view m ≡ status_ok
  unfolding validate_message_view
  message_ok = ground (arith, v.sized)

  -- With room for the message, every test of `append` passes.
  pub append_writes :
      (os : Os) (world : os.World)
      → HasRoom w m
      → append os w m world ≡ write_record os w m (40 + length m.payload) world
  unfolding append
  append_writes os world room =
      let size = length m.payload in
      let a : leb size (u64_mod - 1) ≡ true = ground (arith, v.short) in
      let b : ltb max_payload_size size ≡ false = ground (arith, v.short) in
      let c : ltb (u64_mod - 1 - 40) size ≡ false = ground (arith, v.short) in
      let d : ltb (length o.zeros) (40 + size) ≡ false = ground (arith, room_eq room) in
      let e : (not (leb w.current_offset (u64_mod - 1)) || not (leb (40 + size) (u64_mod - 1)))
          ≡ false =
        ground (arith, o.at, inside o, o.log.fits, v.short) in
      rw (is_valid o, message_ok, total_eq, remaining_space_eq o, a, b, c, d, e)

  -- Without room, `append` answers so and changes nothing.
  pub append-out_of_space :
      (os : Os) (world : os.World)
      → remaining_space w < 40 + length m.payload
      → append os w m world ≡ (
        status_error StatusCode.out_of_space "wal file does not have enough remaining space",
        w,
        world,
      )
  unfolding append
  append-out_of_space os world full =
      let size = length m.payload in
      let a : leb size (u64_mod - 1) ≡ true = ground (arith, v.short) in
      let b : ltb max_payload_size size ≡ false = ground (arith, v.short) in
      let c : ltb (u64_mod - 1 - 40) size ≡ false = ground (arith, v.short) in
      let d : ltb (remaining_space w) (40 + size) ≡ true = ground (arith, full) in
      rw (is_valid o, message_ok, total_eq, a, b, c, d)

  module _ (stamp : ℕ) (room : HasRoom w m) (fits : stamp < u64_mod) where
    stamped-IsEntry : IsEntry (entry_of w m stamp)
    stamped-IsEntry =
        entry_of-IsEntry w m stamp v
          (omega (arith, o.next, length-encode_all-ge es, inside o, o.log.fits)) fits

    -- The file behind the two copies.
    pub stored-HoldsLog :
        HoldsLog
          (store_record w (record_header w m stamp) m.payload).file
          (es ++ entry_of w m stamp ∷ [])
          (drop (length (encode (entry_of w m stamp))) o.zeros)
    stored-HoldsLog =
        let e = entry_of w m stamp in
        subst (λ (f : MmapFile). HoldsLog f (es ++ e ∷ []) (drop (length (encode e)) o.zeros))
          (sym (stored_bytes w es o.zeros e o.log.split o.at))
          (grown w.file es o.zeros e o.log stamped-IsEntry
            (omega (arith, length-encode e, room_eq room)))

    few_entries : length es + 1 < u64_mod
    few_entries = omega (arith, length-encode_all-ge es, inside o, room_eq room, o.log.fits)

    pub advance-Wrote :
        Wrote
          (advance (store_record w (record_header w m stamp) m.payload) (40 + length m.payload))
          (es ++ entry_of w m stamp ∷ [])
    unfolding store_record
    advance-Wrote =
        let e = entry_of w m stamp in
        let more : length (es ++ e ∷ []) ≡ length es + 1 = length-append es (e ∷ []) in
        let bytes_more : length (encode_all (es ++ e ∷ []))
            ≡ length (encode_all es) + length (encode e) =
          ap length (encode_all-snoc es e) ∙ length-append (encode_all es) (encode e) in
        record {
          zeros = drop (length (encode e)) o.zeros;
          log = stored-HoldsLog;
          at = omega (arith, o.at, bytes_more, length-encode e, room_eq room, inside o, o.log.fits);
          next = omega (arith, o.next, more, few_entries);
          count = omega (arith, o.count, more, few_entries);
        }
