-- ===== src/Apps/Replay.antt =====
-- apps/aether_replay.cpp: what it prints of a log.
pub mod Report
use aether_stream.Common.{
  String, ℕ, suc, ◌+◌, ◌%◌, ◌<◌, ◌≡◌, refl, ap, ap₂, ◌∙◌, Bool, not, ◌==◌, ltb, ◌&&◌, ◌||◌,
  if◌then◌else◌, Option, none, some, List, [], ◌∷◌, ◌++◌, append_assoc, append-nil, length, take,
  min, arith, zero,
}
use aether_stream.Core.Types.{u64_mod}
use aether_stream.Core.Status.{Status, StatusCode, code_eq}
use aether_stream.Core.Expected.{value, error}
use aether_stream.Metrics.Counters
use aether_stream.Metrics.Counters.{Counters, zero_counters}
use aether_stream.Io.Os.{Os}
use aether_stream.Io.Mmap
use aether_stream.Io.Mmap.{MmapFile}
use aether_stream.Wal.Record.{Bytes, WalRecordHeader, WalRecordView}
use aether_stream.Wal.Reader.{WalReader, open_reader, reader_on}
use aether_stream.Wal.Log.{Entry, encode_all, views_from}
use aether_stream.Wal.Log.Replay.{EndsIn}
use aether_stream.Cli.Text.{View}
use aether_stream.Cli.Help.{replay_help}
use aether_stream.Cli.Options.{ReplayOptions}
use aether_stream.Cli.Parse.{parse_replay_args}
use aether_stream.Apps.Scan.{
  ReadEnd, read_loop, within, within_eq, stopped, failure_eq, length-within-lt, length-views_from,
  keep_all, scan_log,
}

-- `preview`, with `std::isprint` of the locale.
module _ (is_print : ℕ → Bool) where
  -- Its loop over `payload[i]`, on the rounds left.
  unfoldable pub preview_loop : ℕ → Bytes → Bytes
  preview_loop zero payload = []
  preview_loop (suc rounds) [] = []
  preview_loop (suc rounds) (b ∷ payload) =
      (if is_print b then b else b'.') ∷ preview_loop rounds payload

  unfoldable pub preview : Bytes → ℕ → Bytes
  unfolding preview_loop
  preview payload limit = preview_loop (min (length payload) limit) payload

-- A line: the record's offset and header, and the preview of its payload.
pub record Line : Type 0 where
  pub offset : ℕ
  pub header : WalRecordHeader
  pub text : Bytes

-- The counters of `main`, and the lines that it has printed.
pub record Lines : Type 0 where
  pub counters : Counters
  pub printed : List Line

abbrev pub no_lines : Lines
no_lines = record { counters = zero_counters; printed = [] }

pub record Summary : Type 0 where
  pub printed : List Line
  pub records_replayed : ℕ
  pub final_offset : ℕ
  pub recovered_records : ℕ
  pub recovery_failures : ℕ

pub data Output : Type 0 where
  bad_arguments : Status → Output
  help_text : String → Output
  not_opened : Status → Output
  not_read : (printed : List Line) → Status → Output
  summary : Summary → Output

-- The part of `main` behind the loop, and its failing branch, which prints no counters.
abbrev pub report : ReadEnd Lines → ℕ × Output
report end = elim end.failure [
  | some s ↦ (1, not_read end.kept.printed s)
  | none ↦
      let metrics = Counters.snapshot end.kept.counters in
      (
        0,
        summary (record {
          printed = end.kept.printed;
          records_replayed = end.count;
          final_offset = end.reader.current_offset;
          recovered_records = metrics.recovered_records;
          recovery_failures = metrics.recovery_failures;
        }),
      )
]

module _ (is_print : ℕ → Bool) where
  abbrev pub line : ℕ → WalRecordView → Line
  line limit view = record {
    offset = view.offset;
    header = view.header;
    text = preview is_print view.payload limit;
  }

  -- What the body of the loop does with a record.
  unfoldable pub add_line : ℕ → ℕ → Lines → WalRecordView → Lines
  unfolding Counters.record_recovered_record
  add_line limit count t view = record {
    counters = Counters.record_recovered_record t.counters;
    printed = t.printed ++ line limit view ∷ [];
  }

  -- `main` behind the opening of the reader; the bytes of the file bound its rounds.
  unfoldable pub replay_log : ReplayOptions → WalReader → Option (ℕ × Output × WalReader)
  unfolding add_line
  replay_log options reader =
      elim (read_loop (add_line options.payload_preview_bytes) options.limit (suc reader.file.size)
        no_lines 0 reader) [
          | none ↦ none
          | some end ↦ let (code, out) = report end in some (code, out, end.reader)
        ]

  module _ (os : Os) where
    open os use {World}

    -- The end of `main` destroys the reader.
    abbrev pub exit_closing : Option (ℕ × Output × WalReader) → World → Option (ℕ × Output × World)
    exit_closing none w = none
    exit_closing (some (code, out, reader)) w =
        let (s, f, w') = Mmap.close os reader.file w in some (code, out, w')

    abbrev pub replay_with : ReplayOptions → World → Option (ℕ × Output × World)
    replay_with options w =
        if options.help
        then some (0, help_text replay_help, w)
        else let (opened, w') = open_reader os options.wal_path w in
          elim opened [
            | error s ↦ some (1, not_opened s, w')
            | value reader ↦ exit_closing (replay_log options reader) w'
          ]

    -- `main`: the exit code and the output.
    unfoldable pub replay_main : List View → World → Option (ℕ × Output × World)
    replay_main args w = elim (parse_replay_args args) [
      | none ↦ none
      | some (error s) ↦ some (2, bad_arguments s, w)
      | some (value options) ↦ replay_with options w
    ]
