-- ===== src/Wal/Log/Session.antt =====
-- A session: a new log, a series of messages appended to it, and its replay.
use aether_stream.Common.{
  ℕ, ◌+◌, ◌%◌, ◌≤◌, ◌<◌, ◌≡◌, refl, sym, ap, subst, length-append, ◌∙◌, Bool, false, List, [], ◌∷◌,
  ◌++◌, append_assoc, append-nil, length, arith, some, ◌==◌,
}
use aether_stream.Core.Types.{u64_mod, u32_mod}
use aether_stream.Core.Status.{Status, status_ok}
use aether_stream.Io.Os.{Os}
use aether_stream.Io.Mmap.{MmapFile, bytes}
use aether_stream.Wal.Record.{WalRecordView, default_header}
use aether_stream.Wal.Checksum.{compute_record_checksum}
use aether_stream.Wal.Message.{MessageView}
use aether_stream.Wal.Reader.{WalReader, reader_on, replay}
use aether_stream.Wal.Writer.{
  WalWriter, writer_on, append, record_header, store_record, advance, timestamp, finish_append,
}
use aether_stream.Wal.Log.{Entry, views_from, length-encode, encode_all, encode, encode_all-snoc}
use aether_stream.Wal.Log.Replay.{HoldsLog, visit_all, replay_lem}
use aether_stream.Wal.Log.Write.{IsMessage, Wrote, entry_of}
use aether_stream.Wal.Log.Append.{HasRoom, remaining_space_eq, inside, append_writes, advance-Wrote}
use aether_stream.Wal.Log.Outcome.{finish-plain}

-- A caller that appends messages in order: the answers, and the writer at the end.
abbrev pub append_each :
    (os : Os) → WalWriter → List MessageView → os.World → List Status × WalWriter × os.World
append_each os w [] world = ([], w, world)
append_each os w (m ∷ ms) world =
    let (s, w1, world1) = append os w m world in
    let (ss, w2, world2) = append_each os w1 ms world1 in (s ∷ ss, w2, world2)

-- What the log shall say of a message: the next number, the caller's timestamp and flags, and the
-- payload under its checksum.
abbrev pub entry_for : ℕ → MessageView → Entry
entry_for sequence m =
    let header = record default_header {
      payload_size = length m.payload;
      sequence = sequence;
      timestamp_ns = m.header.timestamp_ns;
      flags = m.header.flags;
    } in
    record {
      header = record header { checksum = compute_record_checksum header m.payload };
      payload = m.payload;
    }

abbrev pub entries_for : ℕ → List MessageView → List Entry
entries_for sequence [] = []
entries_for sequence (m ∷ ms) = entry_for sequence m ∷ entries_for (sequence + 1) ms

-- The bytes that a record of each takes.
abbrev pub log_size : List MessageView → ℕ
log_size [] = 0
log_size (m ∷ ms) = 40 + length m.payload + log_size ms

-- Messages that carry their own timestamp.
abbrev pub AllStamped : List MessageView → Type 0
AllStamped [] = Unit {0}
AllStamped (m ∷ ms) =
    (IsMessage m × (0 < m.header.timestamp_ns) × (m.header.timestamp_ns < u64_mod)) × AllStamped ms

abbrev pub all_ok : List MessageView → List Status
all_ok [] = []
all_ok (m ∷ ms) = status_ok ∷ all_ok ms

entry_of_eq :
    (w : WalWriter) (m : MessageView)
    → IsMessage m
    → entry_of w m m.header.timestamp_ns ≡ entry_for w.next_sequence m
unfolding record_header
entry_of_eq w m v =
    let size : length m.payload % u32_mod ≡ length m.payload = omega (arith, v.short) in rw size

stamp_eq :
    (os : Os) (m : MessageView) (world : os.World)
    → 0 < m.header.timestamp_ns
    → timestamp os m world ≡ (m.header.timestamp_ns, world)
stamp_eq os m world pos = let e : (m.header.timestamp_ns == 0) ≡ false = ground arith in rw e

-- The writer that `append` leaves when it does not flush.
abbrev appended : WalWriter → MessageView → WalWriter
appended w m =
    advance (store_record w (record_header w m m.header.timestamp_ns) m.payload)
      (40 + length m.payload)

module _ (os : Os) (w : WalWriter) (es : List Entry) (m : MessageView) where
  room_of :
      Wrote w es → length (encode_all es) + (40 + length m.payload) ≤ w.file.size → HasRoom w m
  room_of o room = omega (arith, remaining_space_eq o, inside o)

  append_plain :
      (world : os.World)
      → Wrote w es
      → w.flush_on_append ≡ false
      → IsMessage m
      → 0 < m.header.timestamp_ns
      → length (encode_all es) + (40 + length m.payload) ≤ w.file.size
      → append os w m world ≡ (status_ok, appended w m, world)
  unfolding store_record
  append_plain world o plain v pos room =
      append_writes w es m o v os world (room_of o room)
      ∙ ap
          (λ (stamped : ℕ × os.World).
            finish_append os (store_record w (record_header w m stamped.0) m.payload)
              (40 + length m.payload) stamped.1)
          (stamp_eq os m world pos)
      ∙ finish-plain os (store_record w (record_header w m m.header.timestamp_ns) m.payload)
          (40 + length m.payload) world plain

  appended-Wrote :
      (o : Wrote w es)
      → IsMessage m
      → m.header.timestamp_ns < u64_mod
      → length (encode_all es) + (40 + length m.payload) ≤ w.file.size
      → Wrote (appended w m) (es ++ entry_for (length es) m ∷ [])
  appended-Wrote o v fits room =
      subst (λ (e : Entry). Wrote (appended w m) (es ++ e ∷ []))
        (entry_of_eq w m v ∙ ap (λ (n : ℕ). entry_for n m) o.next)
        (advance-Wrote w es m o v m.header.timestamp_ns (room_of o room) fits)

-- A writer that does not flush, on messages for which its file has room: every `append` answers
-- ok, and the log has their entries behind the old ones.
append_each_lem :
    (os : Os) (ms : List MessageView) (w : WalWriter) (es : List Entry) (world : os.World)
    → Wrote w es
    → w.flush_on_append ≡ false
    → AllStamped ms
    → length (encode_all es) + log_size ms ≤ w.file.size
    → let out = append_each os w ms world in
      (out.0 ≡ all_ok ms) × Wrote out.1 (es ++ entries_for (length es) ms)
unfolding store_record
append_each_lem os [] w es world o plain all room = (refl, subst (Wrote w) (sym (append-nil es)) o)
append_each_lem os (m ∷ ms) w es world o plain all room =
    let w1 = appended w m in
    let e = entry_for (length es) m in
    let first = append_plain os w es m world o plain all.0.0 all.0.1 (omega arith) in
    let o1 = appended-Wrote os w es m o all.0.0 all.0.2 (omega arith) in
    let count : length (es ++ e ∷ []) ≡ length es + 1 = length-append es (e ∷ []) in
    let size : length (encode_all (es ++ e ∷ []))
        ≡ length (encode_all es) + (40 + length m.payload) =
      ap length (encode_all-snoc es e)
      ∙ omega (arith, length-append (encode_all es) (encode e), length-encode e) in
    let (answers, o2) =
      append_each_lem os ms w1 (es ++ e ∷ []) world o1 plain all.1 (omega (arith, size)) in
    let same : (es ++ e ∷ []) ++ entries_for (length (es ++ e ∷ [])) ms
        ≡ es ++ entries_for (length es) (m ∷ ms) =
      append_assoc es (e ∷ []) (entries_for (length (es ++ e ∷ [])) ms)
      ∙ ap (λ (n : ℕ). es ++ (e ∷ entries_for n ms)) count in
    let out = append_each os w1 ms world in
    subst
      (λ (a : Status × WalWriter × os.World).
        let out = append_each os a.1 ms a.2 in
        ((a.0 ∷ out.0) ≡ all_ok (m ∷ ms)) × Wrote out.1 (es ++ entries_for (length es) (m ∷ ms)))
      (sym first) (ap (λ (l : List Status). status_ok ∷ l) answers, subst (Wrote out.1) same o2)

-- A new file of zeros.
fresh-Wrote :
    (f : MmapFile) (flush_on_append : Bool)
    → HoldsLog f [] (bytes f)
    → Wrote (writer_on f flush_on_append) []
fresh-Wrote f b h = record { zeros = bytes f; log = h; at = refl; next = refl; count = refl }

-- A new writer on a file of zeros that does not flush on append, and messages with their own
-- timestamps whose records fit the file: every `append` answers ok, and replaying the file then
-- ends by its own bound, having shown the visitor one record for each message, in order, numbered
-- from 0 with the message's timestamp, flags and payload, up to the first that the visitor refused.
pub append_each-replay {ℓ} :
    {V : Type ℓ} (os : Os) (visitor : V → WalRecordView → Status × V) (start : V) (f : MmapFile)
    (ms : List MessageView) (world : os.World)
    → HoldsLog f [] (bytes f)
    → AllStamped ms
    → log_size ms ≤ f.size
    → let out = append_each os (writer_on f false) ms world in
      let shown = visit_all visitor start (views_from 0 (entries_for 0 ms)) in
      (out.0 ≡ all_ok ms)
      × ((r : WalReader) × (replay visitor start (reader_on out.1.file)
            ≡ some (shown.0, shown.1, r)))
append_each-replay os visitor start f ms world h all room =
    let (answers, o) =
      append_each_lem os ms (writer_on f false) [] world (fresh-Wrote f false h) refl all
        (omega arith) in
    (
      answers,
      replay_lem visitor (append_each os (writer_on f false) ms world).1.file (entries_for 0 ms)
          o.zeros start o.log,
    )
