-- ===== src/Apps/Pub/Flush.antt =====
-- What aether_pub reports behind the flush of its log.
use aether_stream.Common.{◌+◌, ◌-◌, ◌*◌, ◌≡◌, sym, ap, ◌∙◌, Bool, true, false, List, length, arith}
use aether_stream.Core.Status.{Status, StatusCode, status_error, status_ok}
use aether_stream.Metrics.Counters
use aether_stream.Metrics.Counters.{Counters, zero_counters}
use aether_stream.Io.Os.{Os}
use aether_stream.Io.Mmap
use aether_stream.Io.Mmap.{bytes}
use aether_stream.Wal.Record.{WalRecordHeader}
use aether_stream.Wal.Writer
use aether_stream.Wal.Writer.{remaining_space}
use aether_stream.Wal.Log.{encode_all}
use aether_stream.Wal.Log.Append.{remaining_space_eq, inside}
use aether_stream.Persistent.{PersistentBroker, TriviallyCopyable, flush, flush_answer}
use aether_stream.Persistent.Observers.{
  metrics_snapshot, wal_records_written, wal_next_sequence, wal_current_offset, wal_remaining_space,
}
use aether_stream.Persistent.Laws.{Stands, valid_eq}
use aether_stream.Persistent.Recover.{entries_of}
use aether_stream.Cli.Options.{PubOptions}
use aether_stream.Apps.Sub.{OrderEvent}
use aether_stream.Apps.Sub.Recovery.{length-entries_of, length-events_of}
use aether_stream.Apps.Pub.{Summary, queue_capacity, summary_of}
use aether_stream.Apps.Pub.Steps.{queue_capacity-IsCapacity, length-entries, Logged}

abbrev pub not_flushed : Status
not_flushed = status_error StatusCode.io_error "failed to flush mmap file"

-- The answer of `msync`.
module _ (os : Os) where
  pub sync_true : (p : Bool × os.World) → p.0 ≡ true → Mmap.sync_answer os p ≡ (status_ok, p.1)
  sync_true (b, w) e = rw e

  pub sync_false : (p : Bool × os.World) → p.0 ≡ false → Mmap.sync_answer os p ≡ (not_flushed, p.1)
  sync_false (b, w) e = rw e

module _ {T : Type 0} (t : TriviallyCopyable T) (event_of : OrderEvent → T) (os : Os) where
  -- What is printed when all messages were published.
  abbrev pub all_published : PubOptions → Summary
  all_published o =
      let n = o.messages in
      let written = n * (40 + t.size_of) in
      record {
        wal_path = o.wal_path;
        messages_requested = n;
        records_written = n;
        published_metric = n;
        records_metric = n;
        bytes_metric = written;
        flushes_metric = 1;
        full_metric = 0;
        failures_metric = 0;
        next_sequence = n;
        current_offset = written;
        remaining_space = o.wal_size_bytes - written;
      }

  writer_flush_lem :
      (b : PersistentBroker T) (xs : List T) (rs : List (T × WalRecordHeader)) (w : os.World)
      → Stands queue_capacity b xs (entries_of t rs)
      → Writer.flush os b.writer w ≡ Mmap.sync_answer os (os.msync (bytes b.writer.file) w)
  unfolding Writer.flush Mmap.flush bytes Mmap.valid
  writer_flush_lem b xs rs w s = rw s.log.log.is_open

  -- The flush of an open broker is that of the bytes of its log.
  pub flush_lem :
      (b : PersistentBroker T) (xs : List T) (rs : List (T × WalRecordHeader)) (w : os.World)
      → Stands queue_capacity b xs (entries_of t rs)
      → flush queue_capacity t os b w
        ≡ flush_answer queue_capacity t os b
            (Mmap.sync_answer os (os.msync (bytes b.writer.file) w))
  unfolding flush
  flush_lem b xs rs w s =
      rw (valid_eq queue_capacity-IsCapacity t os s)
        (ap (flush_answer queue_capacity t os b) (writer_flush_lem b xs rs w s))

  pub summary_eq :
      (o : PubOptions) (b : PersistentBroker T) (xs : List T) (rs : List (T × WalRecordHeader))
      (on_commit : Bool)
      → Logged t b xs rs o.wal_size_bytes on_commit
      → length xs ≡ o.messages
      → summary_of t event_of os o (record b { counters = Counters.record_wal_flush b.counters })
        ≡ all_published o
  unfolding metrics_snapshot wal_records_written wal_next_sequence wal_current_offset
      wal_remaining_space Counters.snapshot Counters.record_wal_flush
  summary_eq o b xs rs on_commit l n =
      let k = l.counts in
      let o' = l.stands.log in
      let same : length rs ≡ length xs = sym (length-events_of rs) ∙ ap length l.same in
      let count = length-entries_of t rs in
      let size : length (encode_all (entries_of t rs)) ≡ o.messages * (40 + t.size_of) =
        length-entries t rs ∙ ap (λ i. i * (40 + t.size_of)) (same ∙ n) in
      let written : b.writer.records_written ≡ o.messages = o'.count ∙ count ∙ same ∙ n in
      let next : b.writer.next_sequence ≡ o.messages = o'.next ∙ count ∙ same ∙ n in
      let offset : b.writer.current_offset ≡ o.messages * (40 + t.size_of) = o'.at ∙ size in
      let left : remaining_space b.writer ≡ o.wal_size_bytes - o.messages * (40 + t.size_of) =
        omega (arith, remaining_space_eq o', inside o', size, l.sized) in
      ground (
        arith,
        written,
        next,
        offset,
        left,
        ap (λ (c : Counters). c.published) k,
        ap (λ (c : Counters). c.wal_records_written) k,
        ap (λ (c : Counters). c.wal_bytes_written) k,
        ap (λ (c : Counters). c.wal_flushes) k,
        ap (λ (c : Counters). c.publish_failed_full) k,
        ap (λ (c : Counters). c.wal_failures) k,
        n,
      )
