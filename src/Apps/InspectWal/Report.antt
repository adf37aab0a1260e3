-- ===== src/Apps/InspectWal/Report.antt =====
-- What aether_inspect_wal prints of a log with an ending behind it.
use aether_stream.Common.{
  ℕ, suc, ◌+◌, ◌%◌, ◌<◌, ◌≤◌, ◌≡◌, ap, ap₂, ◌∙◌, Bool, true, false, not, ◌==◌, ltb, ◌&&◌, ◌||◌,
  if◌then◌else◌, Option, none, some, List, [], ◌∷◌, ◌++◌, append_assoc, append-nil, length,
  length-append, take, Bool-cases, inl, inr, arith,
}
use aether_stream.Core.Types.{u64_mod}
use aether_stream.Core.Status.{Status, StatusCode, code_eq}
use aether_stream.Metrics.Counters
use aether_stream.Metrics.Counters.{Counters, zero_counters}
use aether_stream.Io.Mmap.{MmapFile}
use aether_stream.Wal.Record.{Bytes, WalRecordView}
use aether_stream.Wal.Reader.{WalReader, reader_on}
use aether_stream.Wal.Log.{Entry, encode, encode_all, AllEntries, length-encode, views_from}
use aether_stream.Wal.Log.Replay.{EndsIn}
use aether_stream.Cli.Options.{InspectWalOptions}
use aether_stream.Apps.Scan.{
  ReadEnd, read_loop, goes_on, within, within_eq, stopped, failure_eq, length-within-lt,
  length-views_from, keep_all, scan_log,
}
use aether_stream.Apps.InspectWal.{
  Totals, no_totals, add_record, Output, scan_ended, summary, report, inspect_log,
}

-- What the summary is to say of records.
abbrev pub sum_sizes : List WalRecordView → ℕ
sum_sizes [] = 0
sum_sizes (view ∷ views) = view.header.payload_size + sum_sizes views

abbrev pub first_or : ℕ → List WalRecordView → ℕ
first_or k [] = k
first_or k (view ∷ views) = view.header.sequence

abbrev pub last_or : ℕ → List WalRecordView → ℕ
last_or k [] = k
last_or k (view ∷ views) = last_or view.header.sequence views

-- The totals behind records that have been read, of which the first may be the first of all.
abbrev printed_of : Bool → List WalRecordView → List WalRecordView
printed_of verbose views = if verbose then views else []

abbrev totals : Bool → Bool → Totals → List WalRecordView → Totals
totals verbose first t views = record {
  total_payload = t.total_payload + sum_sizes views;
  first_sequence = if first then first_or t.first_sequence views else t.first_sequence;
  last_sequence = last_or t.last_sequence views;
  counters = record t.counters { recovered_records = t.counters.recovered_records + length views };
  printed = t.printed ++ printed_of verbose views;
}

totals_none : (verbose first : Bool) (t : Totals) → t ≡ totals verbose first t []
totals_none verbose first t =
    let e1 : t.total_payload + 0 ≡ t.total_payload = omega arith in
    let e2 : t.counters.recovered_records + 0 ≡ t.counters.recovered_records = omega arith in
    elim (Bool-cases verbose) [
      | inl v ↦ elim (Bool-cases first) [
        | inl f ↦ rw (v, f, e1, e2, append-nil t.printed)
        | inr f ↦ rw (v, f, e1, e2, append-nil t.printed)
      ]
      | inr v ↦ elim (Bool-cases first) [
        | inl f ↦ rw (v, f, e1, e2, append-nil t.printed)
        | inr f ↦ rw (v, f, e1, e2, append-nil t.printed)
      ]
    ]

-- A record more, where no number wraps.
abbrev added : Bool → Bool → Totals → WalRecordView → Totals
added verbose first t view = record {
  total_payload = t.total_payload + view.header.payload_size;
  first_sequence = if first then view.header.sequence else t.first_sequence;
  last_sequence = view.header.sequence;
  counters = record t.counters { recovered_records = t.counters.recovered_records + 1 };
  printed = if verbose then t.printed ++ view ∷ [] else t.printed;
}

add_record_eq :
    (verbose : Bool) (count : ℕ) (t : Totals) (view : WalRecordView)
    → t.total_payload + view.header.payload_size < u64_mod
    → t.counters.recovered_records + 1 < u64_mod
    → add_record verbose count t view ≡ added verbose (count == 0) t view
unfolding add_record Counters.record_recovered_record
add_record_eq verbose count t view p q =
    let e1 : (t.total_payload + view.header.payload_size) % u64_mod
        ≡ t.total_payload + view.header.payload_size =
      omega (arith, p) in
    let e2 : (t.counters.recovered_records + 1) % u64_mod ≡ t.counters.recovered_records + 1 =
      omega (arith, q) in
    rw (e1, e2)

totals_more :
    (verbose first : Bool) (t : Totals) (view : WalRecordView) (views : List WalRecordView)
    → totals verbose false (added verbose first t view) views
      ≡ totals verbose first t (view ∷ views)
totals_more verbose first t view views =
    let size = view.header.payload_size in
    let e1 : t.total_payload + size + sum_sizes views ≡ t.total_payload + (size + sum_sizes views) =
      omega arith in
    let e2 : t.counters.recovered_records + 1 + length views
        ≡ t.counters.recovered_records + suc (length views) =
      omega arith in
    elim (Bool-cases verbose) [
      | inl v ↦ rw (v, e1, e2, append_assoc t.printed (view ∷ []) views)
      | inr v ↦ rw (v, e1, e2)
    ]

add_all :
    (verbose : Bool) (count : ℕ) (t : Totals) (views : List WalRecordView)
    → t.total_payload + sum_sizes views < u64_mod
    → t.counters.recovered_records + length views < u64_mod
    → keep_all (add_record verbose) count t views ≡ totals verbose (count == 0) t views
add_all verbose count t [] p q = totals_none verbose (count == 0) t
add_all verbose count t (view ∷ views) p q =
    let later : (count + 1 == 0) ≡ false = ground arith in
    rw (add_record_eq verbose count t view (omega (arith, p)) (omega (arith, q))) (
      add_all verbose (count + 1) (added verbose (count == 0) t view) views (omega (arith, p))
        (omega (arith, q))
      ∙ rw later (totals_more verbose (count == 0) t view views))

-- The payloads are parts of the log.
sum_sizes-le :
    (limit count : ℕ) (es : List Entry) (offset : ℕ)
    → AllEntries es
    → sum_sizes (views_from offset (within limit count es)) ≤ length (encode_all es)
sum_sizes-le limit count [] offset all = omega arith
sum_sizes-le limit count (e ∷ es) offset all =
    let size = length-append (encode e) (encode_all es) in
    elim (Bool-cases (goes_on limit count)) [
      | inl goes ↦ rw goes (
          omega (
            arith,
            size,
            length-encode e,
            all.0.payload_size,
            sum_sizes-le limit (count + 1) es (offset + length (encode e)) all.1,
          ))
      | inr stops ↦ rw stops (omega arith)
    ]

-- What the program is to print of the records that it read, and of the failure behind them.
abbrev pub printout : Bool → List Entry → Option Status → ℕ × Output
printout verbose seen failure =
    let views = views_from 0 seen in
    let printed = if verbose then views else [] in
    let offset = length (encode_all seen) in
    elim failure [
      | some s ↦ (1, scan_ended printed offset s)
      | none ↦ (
        0,
        summary (record {
          printed = printed;
          record_count = length seen;
          total_payload_bytes = sum_sizes views;
          first_sequence = first_or 0 views;
          last_sequence = last_or 0 views;
          final_reader_offset = offset;
          recovered_records = length seen;
          recovery_failures = 0;
        }),
      )
    ]

abbrev end_of : Bool → List Entry → Option Status → WalReader → ReadEnd Totals
end_of verbose seen failure reader = record {
  failure = failure;
  kept = totals verbose true no_totals (views_from 0 seen);
  count = length seen;
  reader = reader;
}

-- The report on what the loop has left.
report_eq :
    (verbose : Bool) (seen : List Entry) (failure : Option Status) (reader : WalReader)
    → reader.current_offset ≡ length (encode_all seen)
    → report (end_of verbose seen failure reader) ≡ printout verbose seen failure
unfolding Counters.snapshot
report_eq verbose seen (some s) reader at = rw at
report_eq verbose [] none reader at = rw at
report_eq verbose (e ∷ es) none reader at =
    let size : 0 + sum_sizes (views_from 0 (e ∷ es)) ≡ sum_sizes (views_from 0 (e ∷ es)) =
      omega arith in
    let some_read : (suc (length es) == 0) ≡ false = ground arith in
    let count : 0 + suc (length (views_from (0 + length (encode e)) es)) ≡ suc (length es) =
      omega (arith, length-views_from es (0 + length (encode e))) in
    rw (at, size, some_read, count)

inspect_end :
    (o : InspectWalOptions) (f : MmapFile) (end : ReadEnd Totals)
    → read_loop (add_record o.verbose) o.limit (suc f.size) no_totals 0 (reader_on f) ≡ some end
    → inspect_log o (reader_on f) ≡ some ((report end).0, (report end).1, end.reader)
unfolding inspect_log
inspect_end o f end e = rw (inspect_log, e)

-- On a file of entries with an ending behind them, the program ends by its own bound. It reads the
-- first `--limit` entries, or all of them, and prints their lines if asked to, their number, the
-- sum of their payload sizes, their first and last sequence numbers and the offset behind them,
-- which no wrap of a counter falsifies. It exits with 0, but with 1 and the status of the ending if
-- it comes to one that is damaged.
pub inspect_log_lem :
    (o : InspectWalOptions) (f : MmapFile) (es : List Entry) (stop : Status) (after : Bytes)
    → EndsIn f es stop after
    → let seen = if o.limit == 0 then es else take o.limit es in
      let damaged =
        (o.limit == 0 || ltb (length es) o.limit) && not (code_eq stop.code StatusCode.empty) in
      let (code, out) = printout o.verbose seen (if damaged then some stop else none) in
      (reader : WalReader) × (inspect_log o (reader_on f) ≡ some (code, out, reader))
inspect_log_lem o f es stop after h =
    let seen = within o.limit 0 es in
    let size : length (encode_all es) ≤ f.size =
      omega (arith, h.whole, ap length h.split, length-append (encode_all es) after) in
    let kept =
      add_all o.verbose 0 no_totals (views_from 0 seen)
        (omega (arith, sum_sizes-le o.limit 0 es 0 h.entries, size, h.fits))
        (omega (arith, length-views_from seen 0, length-within-lt o.limit f es stop after h)) in
    let (reader, out, offset) =
      scan_log (add_record o.verbose) o.limit f es stop after no_totals
        (totals o.verbose true no_totals (views_from 0 seen)) h kept in
    let failure = stopped o.limit 0 es stop in
    (
      reader,
      inspect_end o f (end_of o.verbose seen failure reader) out
          ∙ ap (λ (p : ℕ × Output). some (p.0, p.1, reader))
              (report_eq o.verbose seen failure reader offset
                ∙ ap₂ (printout o.verbose) (within_eq o.limit es) (failure_eq o.limit es stop)),
    )
