-- ===== src/Cli/Options.antt =====
-- include/aether/cli/args.hpp: the options of the five tools and their defaults.
use aether_stream.Common.{ℕ, ◌*◌, Bool, false, codes}
use aether_stream.Core.Config.{FilePath}

pub record BenchOptions : Type 0 where
  pub help : Bool
  pub messages : ℕ
  pub payload_size : ℕ
  pub capacity : ℕ
  pub output_dir : FilePath

abbrev pub default_bench : BenchOptions
default_bench = record {
  help = false;
  messages = 1000000;
  payload_size = 64;
  capacity = 65536;
  output_dir = codes "benchmark-results";
}

pub record PubOptions : Type 0 where
  pub help : Bool
  pub wal_path : FilePath
  pub messages : ℕ
  pub wal_size_bytes : ℕ
  pub flush_on_commit : Bool

abbrev pub default_pub : PubOptions
default_pub = record {
  help = false;
  wal_path = codes "data/sample.wal";
  messages = 1000;
  wal_size_bytes = 64 * 1024 * 1024;
  flush_on_commit = false;
}

pub record SubOptions : Type 0 where
  pub help : Bool
  pub wal_path : FilePath
  pub messages : ℕ
  pub limit : ℕ
  pub capacity : ℕ

abbrev pub default_sub : SubOptions
default_sub = record {
  help = false;
  wal_path = codes "";
  messages = 10;
  limit = 10;
  capacity = 1024;
}

pub record ReplayOptions : Type 0 where
  pub help : Bool
  pub wal_path : FilePath
  pub limit : ℕ
  pub payload_preview_bytes : ℕ

abbrev pub default_replay : ReplayOptions
default_replay = record {
  help = false;
  wal_path = codes "data/sample.wal";
  limit = 0;
  payload_preview_bytes = 32;
}

pub record InspectWalOptions : Type 0 where
  pub help : Bool
  pub wal_path : FilePath
  pub limit : ℕ
  pub verbose : Bool

abbrev pub default_inspect_wal : InspectWalOptions
default_inspect_wal = record {
  help = false;
  wal_path = codes "data/sample.wal";
  limit = 0;
  verbose = false;
}
