-- ===== src/Tests/Apps.antt =====
-- Runs of the programs, and of a replay, on a log that ends in a damaged record.
use aether_stream.Common.{
  replicate, ℕ, ◌≡◌, Bool, true, some, none, List, [], ◌∷◌, arith, leb, ltb, ◌&&◌,
}
use aether_stream.Core.Status.{Status, StatusCode, status_ok, status_error}
use aether_stream.Wal.Record.{WalRecordView}
use aether_stream.Wal.Reader.{WalReader, reader_on, replay}
use aether_stream.Wal.Log.{views_from}
use aether_stream.Wal.Log.Replay.{visit_all, replay_stops, end_with}
use aether_stream.Cli.Options.{SubOptions, default_inspect_wal, default_replay, default_sub}
use aether_stream.Apps.InspectWal.{inspect_log}
use aether_stream.Apps.InspectWal.Report.{inspect_log_lem}
use aether_stream.Apps.InspectWal.Report
use aether_stream.Apps.Replay.{replay_log}
use aether_stream.Apps.Replay.Report.{replay_log_lem}
use aether_stream.Apps.Replay.Report as ReplayReport
use aether_stream.Apps.Sub.{run_local, not_published}
use aether_stream.Apps.Sub
use aether_stream.Core.Expected.{value}
use aether_stream.Metrics.Counters.{zero_counters}
use aether_stream.Persistent.Replay.{replay_on}
use aether_stream.Apps.Sub.Recovery
use aether_stream.Apps.Sub.Recovery.{
  behind_replay, visit_event, none_seen, all_replayed, replay_events,
}
use aether_stream.Apps.Sub.Local.{run_local_lem, all_consumed}
use aether_stream.Tests.Data.{
  bool_copyable, bool_file, bool_file-HoldsLog, bool_header, test_os, four-IsCapacity, test_entry,
  spoiled_bytes, spoiled_file, spoiled_file-EndsIn,
}

abbrev mismatch : Status
mismatch = status_error StatusCode.corrupted_record "wal checksum mismatch"

-- A visitor that keeps the offsets of the records.
abbrev offsets : List ℕ → WalRecordView → Status × List ℕ
offsets l view = (status_ok, view.offset ∷ l)

replay_stops_example :
    let done = end_with mismatch (visit_all offsets [] (views_from 0 (test_entry ∷ []))) in
    (r' : WalReader) × (replay offsets [] (reader_on spoiled_file) ≡ some (done.0, done.1, r'))
replay_stops_example =
    replay_stops offsets spoiled_file (test_entry ∷ []) mismatch spoiled_bytes []
      spoiled_file-EndsIn

-- The program reads the first record and fails at the second.
inspect_log_lem_example :
    let (code, out) = Report.printout true (test_entry ∷ []) (some mismatch) in
    (reader : WalReader) × (inspect_log
        (record default_inspect_wal { verbose = true })
        (reader_on spoiled_file)
      ≡ some (code, out, reader))
inspect_log_lem_example =
    inspect_log_lem (record default_inspect_wal { verbose = true }) spoiled_file (test_entry ∷ [])
      mismatch spoiled_bytes spoiled_file-EndsIn

-- `std::isprint` of the C locale.
abbrev is_print : ℕ → Bool
is_print ch = leb 32 ch && ltb ch 127

-- With a limit of one record, the damaged one is not read.
replay_log_lem_example :
    let (code, out) = ReplayReport.printout is_print 32 (test_entry ∷ []) none in
    (reader : WalReader) × (replay_log is_print
        (record default_replay { limit = 1 })
        (reader_on spoiled_file)
      ≡ some (code, out, reader))
replay_log_lem_example =
    replay_log_lem is_print (record default_replay { limit = 1 }) spoiled_file (test_entry ∷ [])
      mismatch spoiled_bytes spoiled_file-EndsIn

-- Three messages fit a queue of four.
abbrev three_messages : SubOptions
three_messages = record default_sub { messages = 3; limit = 2 }

run_local_lem_example :
    run_local 4 three_messages ≡ some (0, Sub.summary (all_consumed three_messages))
run_local_lem_example = run_local_lem four-IsCapacity three_messages (omega arith)

replay_events_example :
    (w' : ℕ) × (behind_replay bool_copyable test_os default_sub (
        replay_on {T = Bool} 65536 bool_copyable test_os
          (visit_event 10)
          none_seen
          zero_counters
          (value (reader_on bool_file), 3))
      ≡ some (0, Recovery.summary (all_replayed default_sub (true ∷ [])), w'))
replay_events_example =
    replay_events bool_copyable test_os default_sub bool_file ((true, bool_header) ∷ [])
      (replicate 23 0) 3 bool_file-HoldsLog
