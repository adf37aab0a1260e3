-- ===== src/Apps/InspectWal.antt =====
-- apps/aether_inspect_wal.cpp: what it prints of a log.
pub mod Report
use aether_stream.Common.{
  String, ℕ, zero, suc, ◌+◌, ◌-◌, ◌%◌, ◌<◌, ◌≤◌, ◌≡◌, refl, sym, ap, ap₂, subst, ◌∙◌, Bool, true,
  false, not, ◌==◌, ltb, ◌&&◌, ◌||◌, if◌then◌else◌, Option, none, some, List, [], ◌∷◌, ◌++◌,
  append_assoc, append-nil, length, length-append, take, Bool-cases, inl, inr, arith,
}
use aether_stream.Core.Types.{u64_mod}
use aether_stream.Core.Status.{Status, StatusCode, code_eq}
use aether_stream.Core.Expected.{Expected, value, error}
use aether_stream.Metrics.Counters
use aether_stream.Metrics.Counters.{Counters, zero_counters}
use aether_stream.Io.Os.{Os}
use aether_stream.Io.Mmap
use aether_stream.Io.Mmap.{MmapFile}
use aether_stream.Wal.Record.{Bytes, WalRecordView}
use aether_stream.Wal.Reader.{WalReader, open_reader, reader_on}
use aether_stream.Wal.Log.{Entry, encode, encode_all, AllEntries, length-encode, views_from}
use aether_stream.Wal.Log.Replay.{EndsIn, length-encode_all-ge}
use aether_stream.Cli.Text.{View}
use aether_stream.Cli.Help.{inspect_wal_help}
use aether_stream.Cli.Options.{InspectWalOptions}
use aether_stream.Cli.Parse.{parse_inspect_wal_args}
use aether_stream.Apps.Scan.{ReadEnd, read_loop}

-- The variables of `main` that the loop changes, and the records whose lines it has printed.
pub record Totals : Type 0 where
  pub total_payload : ℕ
  pub first_sequence : ℕ
  pub last_sequence : ℕ
  pub counters : Counters
  pub printed : List WalRecordView

abbrev pub no_totals : Totals
no_totals = record {
  total_payload = 0;
  first_sequence = u64_mod - 1;
  last_sequence = 0;
  counters = zero_counters;
  printed = [];
}

-- What the body of the loop does with a record.
unfoldable pub add_record : Bool → ℕ → Totals → WalRecordView → Totals
unfolding Counters.record_recovered_record
add_record verbose count t view = record {
  total_payload = (t.total_payload + view.header.payload_size) % u64_mod;
  first_sequence = if count == 0 then view.header.sequence else t.first_sequence;
  last_sequence = view.header.sequence;
  counters = Counters.record_recovered_record t.counters;
  printed = if verbose then t.printed ++ view ∷ [] else t.printed;
}

-- The numbers of the summary.
pub record Summary : Type 0 where
  pub printed : List WalRecordView
  pub record_count : ℕ
  pub total_payload_bytes : ℕ
  pub first_sequence : ℕ
  pub last_sequence : ℕ
  pub final_reader_offset : ℕ
  pub recovered_records : ℕ
  pub recovery_failures : ℕ

pub data Output : Type 0 where
  bad_arguments : Status → Output
  help_text : String → Output
  not_opened : Status → Output
  scan_ended : (printed : List WalRecordView) (offset : ℕ) → Status → Output
  summary : Summary → Output

-- The part of `main` behind the loop, and its failing branch, which prints no counters.
abbrev pub report : ReadEnd Totals → ℕ × Output
report end =
    let t = end.kept in
    elim end.failure [
      | some s ↦ (1, scan_ended t.printed end.reader.current_offset s)
      | none ↦
          let metrics = Counters.snapshot t.counters in
          (
            0,
            summary (record {
              printed = t.printed;
              record_count = end.count;
              total_payload_bytes = t.total_payload;
              first_sequence = if end.count == 0 then 0 else t.first_sequence;
              last_sequence = if end.count == 0 then 0 else t.last_sequence;
              final_reader_offset = end.reader.current_offset;
              recovered_records = metrics.recovered_records;
              recovery_failures = metrics.recovery_failures;
            }),
          )
    ]

-- `main` behind the opening of the reader; the bytes of the file bound its rounds.
unfoldable pub inspect_log : InspectWalOptions → WalReader → Option (ℕ × Output × WalReader)
unfolding add_record
inspect_log options reader =
    elim (read_loop (add_record options.verbose) options.limit (suc reader.file.size) no_totals 0
      reader) [
        | none ↦ none
        | some end ↦ let (code, out) = report end in some (code, out, end.reader)
      ]

module _ (os : Os) where
  open os use {World}

  -- The end of `main` destroys the reader.
  abbrev pub exit_closing : Option (ℕ × Output × WalReader) → World → Option (ℕ × Output × World)
  exit_closing none w = none
  exit_closing (some (code, out, reader)) w =
      let (s, f, w') = Mmap.close os reader.file w in some (code, out, w')

  abbrev pub inspect_with : InspectWalOptions → World → Option (ℕ × Output × World)
  inspect_with options w =
      if options.help
      then some (0, help_text inspect_wal_help, w)
      else let (opened, w') = open_reader os options.wal_path w in
        elim opened [
          | error s ↦ some (1, not_opened s, w')
          | value reader ↦ exit_closing (inspect_log options reader) w'
        ]

  -- `main`: the exit code and the output.
  unfoldable pub inspect_main : List View → World → Option (ℕ × Output × World)
  inspect_main args w = elim (parse_inspect_wal_args args) [
    | none ↦ none
    | some (error s) ↦ some (2, bad_arguments s, w)
    | some (value options) ↦ inspect_with options w
  ]
