-- ===== src/Apps/Pub.antt =====
-- apps/aether_pub.cpp: events into the log of a persistent broker. What the machine makes of an
-- event is a parameter with its bytes, since the price is a double.
pub mod Steps
pub mod Flush
pub mod Run
use aether_stream.Common.{
  ℕ, zero, suc, ◌+◌, Bool, not, if◌then◌else◌, Option, none, some, List, String,
}
use aether_stream.Core.Status.{Status, is_ok}
use aether_stream.Core.Expected.{value, error}
use aether_stream.Core.Config.{FilePath, WalConfig}
use aether_stream.Io.Os.{Os}
use aether_stream.Persistent.{
  PersistentBroker, TriviallyCopyable, make, open_wal, try_publish, flush,
}
use aether_stream.Persistent.Observers.{
  metrics_snapshot, wal_records_written, wal_next_sequence, wal_current_offset, wal_remaining_space,
}
use aether_stream.Cli.Text.{View}
use aether_stream.Cli.Options.{PubOptions}
use aether_stream.Cli.Parse.{parse_pub_args}
use aether_stream.Cli.Help.{pub_help}
use aether_stream.Apps.Sub.{OrderEvent}
use aether_stream.Apps.Sub

-- What `main` asks of `std::filesystem`: `parent_path`, if the path has one, and
-- `create_directories`, where `none` is an exception.
pub record Directories (os : Os) : Type 1 where
  pub parent_path : FilePath → Option FilePath
  pub create_directories : FilePath → os.World → Option os.World

pub record Summary : Type 0 where
  pub wal_path : FilePath
  pub messages_requested : ℕ
  pub records_written : ℕ
  pub published_metric : ℕ
  pub records_metric : ℕ
  pub bytes_metric : ℕ
  pub flushes_metric : ℕ
  pub full_metric : ℕ
  pub failures_metric : ℕ
  pub next_sequence : ℕ
  pub current_offset : ℕ
  pub remaining_space : ℕ

pub data Output : Type 0 where
  failed : Status → Output
  help_text : String → Output
  summary : Summary → Output

-- `PersistentBroker<OrderEvent, 65536>`.
abbrev pub queue_capacity : ℕ
queue_capacity = 65536

module _ {T : Type 0} (t : TriviallyCopyable T) (event_of : OrderEvent → T) (os : Os) where
  open os use {World}

  -- `make_event`: the numbers of the event are those of aether_sub.
  abbrev pub make_event : ℕ → T
  make_event i = event_of (Sub.make_event i)

  -- The loop over the messages, on the rounds left: the status that it stops at, if any.
  unfoldable pub publish_loop :
      ℕ → ℕ → PersistentBroker T → World → Option Status × PersistentBroker T × World
  publish_loop zero i b w = (none, b, w)
  publish_loop (suc rounds) i b w =
      let (status, b', w') = try_publish queue_capacity t os b (make_event i) 0 w in
      let rest = publish_loop rounds (i + 1) b' w' in
      if not (is_ok status) then (some status, b', w') else rest

  abbrev pub summary_of : PubOptions → PersistentBroker T → Summary
  summary_of options b =
      let metrics = metrics_snapshot queue_capacity b in
      record {
        wal_path = options.wal_path;
        messages_requested = options.messages;
        records_written = wal_records_written queue_capacity b;
        published_metric = metrics.published;
        records_metric = metrics.wal_records_written;
        bytes_metric = metrics.wal_bytes_written;
        flushes_metric = metrics.wal_flushes;
        full_metric = metrics.publish_failed_full;
        failures_metric = metrics.wal_failures;
        next_sequence = wal_next_sequence queue_capacity b;
        current_offset = wal_current_offset queue_capacity b;
        remaining_space = wal_remaining_space queue_capacity b;
      }

  -- The parts of `main` from its end: behind the flush, the loop and `open`. The broker goes with
  -- the exit code and the output, for its destructor.
  abbrev pub behind_flush :
      PubOptions → Status × PersistentBroker T × World → ℕ × Output × PersistentBroker T × World
  behind_flush options (status, b, w) =
      if not (is_ok status)
      then (1, failed status, b, w)
      else (0, summary (summary_of options b), b, w)

  abbrev pub behind_loop :
      PubOptions
      → Option Status × PersistentBroker T × World
      → ℕ × Output × PersistentBroker T × World
  behind_loop options (some status, b, w) = (1, failed status, b, w)
  behind_loop options (none, b, w) = behind_flush options (flush queue_capacity t os b w)

  abbrev pub behind_open :
      PubOptions → Status × PersistentBroker T × World → ℕ × Output × PersistentBroker T × World
  behind_open options (status, b, w) =
      if not (is_ok status)
      then (1, failed status, b, w)
      else behind_loop options (publish_loop options.messages 0 b w)

  abbrev pub config_of : PubOptions → WalConfig
  config_of options = record {
    path = options.wal_path;
    file_size_bytes = options.wal_size_bytes;
    flush_on_commit = options.flush_on_commit;
  }

  -- `main` from the broker on.
  unfoldable pub publish_all : PubOptions → World → ℕ × Output × PersistentBroker T × World
  unfolding publish_loop
  publish_all options w =
      behind_open options (open_wal queue_capacity t os (make queue_capacity) (config_of options) w)

  module _ (directories : Directories os) where
    open directories use {parent_path, create_directories}

    -- The world behind `create_directories`, if that throws nothing.
    abbrev pub with_directories : FilePath → World → Option World
    with_directories path w = elim (parent_path path) [
      | none ↦ some w
      | some parent ↦ create_directories parent w
    ]

    abbrev pub pub_with :
        PubOptions → World → Option (ℕ × Output × Option (PersistentBroker T) × World)
    pub_with options w =
        if options.help
        then some (0, help_text pub_help, none, w)
        else elim (with_directories options.wal_path w) [
          | none ↦ none
          | some w' ↦
              let (code, out, b, w'') = publish_all options w' in some (code, out, some b, w'')
        ]

    -- `main`: the exit code, the output and the broker; `none` is an exception, or too few rounds
    -- of the parser.
    unfoldable pub pub_main :
        List View → World → Option (ℕ × Output × Option (PersistentBroker T) × World)
    pub_main args w = elim (parse_pub_args args) [
      | none ↦ none
      | some (error s) ↦ some (2, failed s, none, w)
      | some (value options) ↦ pub_with options w
    ]
