-- ===== src/Persistent/Replay.antt =====
-- include/aether/persistent_broker.hpp: `replay` and `replay_with_metrics`, which read a log back.
use aether_stream.Common.{
  ℕ, Bool, true, false, not, ◌==◌, ◌&&◌, if◌then◌else◌, Option, none, some, length,
}
use aether_stream.Core.Status.{Status, StatusCode, status_error, is_ok}
use aether_stream.Core.Expected.{Expected, value, error}
use aether_stream.Core.Config.{FilePath}
use aether_stream.Metrics.Counters
use aether_stream.Metrics.Counters.{Counters, Snapshot, zero_counters}
use aether_stream.Io.Os.{Os}
use aether_stream.Io.Mmap
use aether_stream.Wal.Record.{WalRecordHeader, WalRecordView}
use aether_stream.Wal.Reader
use aether_stream.Wal.Reader.{WalReader, open_reader}
use aether_stream.Persistent.{TriviallyCopyable}

module _ {ℓ} {T : Type ℓ} (cap : ℕ) where
  module _ (t : TriviallyCopyable T) (os : Os) where
    open os use {World}

    -- `replay_with_metrics`: the lambda that it hands to the reader, with the visitor's state, the
    -- counters and `failure_recorded`.
    module _ {ν} {V : Type ν} (visitor : V → T → WalRecordHeader → Status × V) where
      abbrev pub visit_value : V × Counters × Bool → Status × V → Status × (V × Counters × Bool)
      visit_value (v, c, failed) (s, v') =
          if is_ok s
          then (s, (v', Counters.record_recovered_record c, failed))
          else (s, (v', Counters.record_recovery_failure c, true))

      unfoldable pub visit_record :
          V × Counters × Bool → WalRecordView → Status × (V × Counters × Bool)
      visit_record (v, c, failed) view =
          if not (length view.payload == t.size_of)
          then (
            status_error StatusCode.corrupted_record
                "WAL payload size does not match persistent broker value type",
            (v, Counters.record_recovery_failure c, true),
          )
          else visit_value (v, c, failed) (visitor v (t.copy_bytes view.payload) view.header)

      -- What is counted behind the reader's replay.
      abbrev pub replay_end : Status × (V × Counters × Bool) → Status × V × Counters
      replay_end (s, (v, c, failed)) =
          (s, v, if not (is_ok s) && not failed then Counters.record_recovery_failure c else c)

      -- The replay on a reader, which is closed at the end.
      abbrev pub replay_on :
          V → Counters → Expected WalReader × World → Option (Status × V × Counters × World)
      replay_on v c (error s, w) = some (s, v, Counters.record_recovery_failure c, w)
      replay_on v c (value reader, w) = elim (Reader.replay visit_record (v, c, false) reader) [
        | none ↦ none
        | some (s, state, reader') ↦
            let (s', v', c') = replay_end (s, state) in
            let (closed, file, w') = Mmap.close os reader'.file w in some (s', v', c', w')
      ]

      unfoldable pub replay_with_metrics :
          FilePath → V → Counters → World → Option (Status × V × Counters × World)
      replay_with_metrics path v c w = replay_on v c (open_reader os path w)

      -- Without the counters, which are ignored.
      abbrev pub without_metrics :
          Option (Status × V × Counters × World) → Option (Status × V × World)
      without_metrics none = none
      without_metrics (some (s, v, c, w)) = some (s, v, w)

      -- `replay`.
      unfoldable pub replay : FilePath → V → World → Option (Status × V × World)
      unfolding replay_with_metrics
      replay path v w = without_metrics (replay_with_metrics path v zero_counters w)
