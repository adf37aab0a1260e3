-- ===== src/Apps/Replay/Report.antt =====
-- What aether_replay prints of a log with an ending behind it.
use aether_stream.Common.{
  ℕ, suc, ◌+◌, ◌%◌, ◌<◌, ◌≡◌, refl, ap, ap₂, ◌∙◌, Bool, not, ◌==◌, ltb, ◌&&◌, ◌||◌, if◌then◌else◌,
  Option, none, some, List, [], ◌∷◌, ◌++◌, append_assoc, append-nil, length, take, arith,
}
use aether_stream.Core.Types.{u64_mod}
use aether_stream.Core.Status.{Status, StatusCode, code_eq}
use aether_stream.Metrics.Counters
use aether_stream.Metrics.Counters.{Counters, zero_counters}
use aether_stream.Io.Mmap.{MmapFile}
use aether_stream.Wal.Record.{Bytes, WalRecordView}
use aether_stream.Wal.Reader.{WalReader, reader_on}
use aether_stream.Wal.Log.{Entry, encode_all, views_from}
use aether_stream.Wal.Log.Replay.{EndsIn}
use aether_stream.Cli.Options.{ReplayOptions}
use aether_stream.Apps.Scan.{
  ReadEnd, read_loop, within, within_eq, stopped, failure_eq, length-within-lt, length-views_from,
  keep_all, scan_log,
}
use aether_stream.Apps.Replay.{
  Line, Lines, no_lines, Output, not_read, summary, report, line, add_line, replay_log,
}

module _ (is_print : ℕ → Bool) where
  abbrev lines_of : ℕ → List WalRecordView → List Line
  lines_of limit [] = []
  lines_of limit (view ∷ views) = line is_print limit view ∷ lines_of limit views

  -- What the program is to print of the records that it read, and of the failure behind them.
  abbrev pub printout : ℕ → List Entry → Option Status → ℕ × Output
  printout limit seen failure =
      let printed = lines_of limit (views_from 0 seen) in
      elim failure [
        | some s ↦ (1, not_read printed s)
        | none ↦ (
          0,
          summary (record {
            printed = printed;
            records_replayed = length seen;
            final_offset = length (encode_all seen);
            recovered_records = length seen;
            recovery_failures = 0;
          }),
        )
      ]

  abbrev lines : ℕ → Lines → List WalRecordView → Lines
  lines limit t views = record {
    counters = record t.counters {
      recovered_records = t.counters.recovered_records + length views;
    };
    printed = t.printed ++ lines_of limit views;
  }

  add_all :
      (limit count : ℕ) (t : Lines) (views : List WalRecordView)
      → t.counters.recovered_records + length views < u64_mod
      → keep_all (add_line is_print limit) count t views ≡ lines limit t views
  unfolding add_line Counters.record_recovered_record
  add_all limit count t [] few =
      let e : t.counters.recovered_records + 0 ≡ t.counters.recovered_records = omega arith in
      rw (e, append-nil t.printed)
  add_all limit count t (view ∷ views) few =
      let e : (t.counters.recovered_records + 1) % u64_mod ≡ t.counters.recovered_records + 1 =
        omega (arith, few) in
      let e' : t.counters.recovered_records + 1 + length views
          ≡ t.counters.recovered_records + suc (length views) =
        omega arith in
      add_all limit (count + 1) (add_line is_print limit count t view) views (omega (arith, e, few))
      ∙ rw (e, e', append_assoc t.printed (line is_print limit view ∷ []) (lines_of limit views))

  abbrev end_of : ℕ → List Entry → Option Status → WalReader → ReadEnd Lines
  end_of limit seen failure reader = record {
    failure = failure;
    kept = lines limit no_lines (views_from 0 seen);
    count = length seen;
    reader = reader;
  }

  report_eq :
      (limit : ℕ) (seen : List Entry) (failure : Option Status) (reader : WalReader)
      → reader.current_offset ≡ length (encode_all seen)
      → report (end_of limit seen failure reader) ≡ printout limit seen failure
  unfolding Counters.snapshot
  report_eq limit seen (some s) reader at = refl
  report_eq limit seen none reader at =
      let count : 0 + length (views_from 0 seen) ≡ length seen =
        omega (arith, length-views_from seen 0) in
      rw (at, count)

  replay_end :
      (o : ReplayOptions) (f : MmapFile) (end : ReadEnd Lines)
      → read_loop
          (add_line is_print o.payload_preview_bytes)
          o.limit
          (suc f.size)
          no_lines
          0
          (reader_on f)
        ≡ some end
      → replay_log is_print o (reader_on f) ≡ some ((report end).0, (report end).1, end.reader)
  unfolding replay_log
  replay_end o f end e = rw (replay_log, e)

  -- On a file of entries with an ending behind them, the program ends by its own bound: it prints a
  -- line for each of the first `--limit` entries, or of all, with the offset, the header and the
  -- preview, then their number and the offset behind them. It exits with 0, but with 1 and the
  -- status of the ending if it comes to one that is damaged.
  pub replay_log_lem :
      (o : ReplayOptions) (f : MmapFile) (es : List Entry) (stop : Status) (after : Bytes)
      → EndsIn f es stop after
      → let seen = if o.limit == 0 then es else take o.limit es in
        let damaged =
          (o.limit == 0 || ltb (length es) o.limit) && not (code_eq stop.code StatusCode.empty) in
        let (code, out) =
          printout o.payload_preview_bytes seen (if damaged then some stop else none) in
        (reader : WalReader) × (replay_log is_print o (reader_on f) ≡ some (code, out, reader))
  replay_log_lem o f es stop after h =
      let seen = within o.limit 0 es in
      let limit = o.payload_preview_bytes in
      let kept =
        add_all limit 0 no_lines (views_from 0 seen)
          (omega (arith, length-views_from seen 0, length-within-lt o.limit f es stop after h)) in
      let (reader, out, offset) =
        scan_log (add_line is_print limit) o.limit f es stop after no_lines
          (lines limit no_lines (views_from 0 seen)) h kept in
      let failure = stopped o.limit 0 es stop in
      (
        reader,
        replay_end o f (end_of limit seen failure reader) out
            ∙ ap (λ (p : ℕ × Output). some (p.0, p.1, reader))
                (report_eq limit seen failure reader offset
                  ∙ ap₂ (printout limit) (within_eq o.limit es) (failure_eq o.limit es stop)),
      )
