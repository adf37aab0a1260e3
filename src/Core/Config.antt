-- ===== src/Core/Config.antt =====
-- include/aether/core/config.hpp: the configurations and their validation.
use aether_stream.Common.{ℕ, List, Bool, true, false, if◌then◌else◌, ◌==◌, not, codes, is_empty}
use aether_stream.Core.Status.{Status, StatusCode, status_error, status_ok, is_ok}
use aether_stream.Core.Types.{is_power_of_two, default_queue_capacity, default_wal_size_bytes}

-- `std::filesystem::path`, as the codes of its characters.
abbrev pub FilePath : Type 0
FilePath = List ℕ

pub record QueueConfig : Type 0 where
  pub capacity : ℕ
  pub spin_pause_iterations : ℕ
  pub yield_after_spin : Bool

abbrev pub default_queue_config : QueueConfig
default_queue_config = record {
  capacity = default_queue_capacity;
  spin_pause_iterations = 64;
  yield_after_spin = true;
}

-- `QueueConfig::validate`.
unfoldable pub validate_queue : QueueConfig → Status
validate_queue c =
    if c.capacity == 0
    then status_error StatusCode.invalid_argument "queue capacity must be nonzero"
    else if not (is_power_of_two c.capacity)
    then status_error StatusCode.invalid_argument "queue capacity must be a power of two"
    else status_ok

pub record WalConfig : Type 0 where
  pub path : FilePath
  pub file_size_bytes : ℕ
  pub flush_on_commit : Bool

abbrev pub default_wal_config : WalConfig
default_wal_config = record {
  path = codes "aether.wal";
  file_size_bytes = default_wal_size_bytes;
  flush_on_commit = false;
}

-- `WalConfig::validate`.
unfoldable pub validate_wal : WalConfig → Status
validate_wal c =
    if is_empty c.path
    then status_error StatusCode.invalid_argument "wal path must not be empty"
    else if c.file_size_bytes == 0
    then status_error StatusCode.invalid_argument "wal file size must be nonzero"
    else status_ok

pub record BrokerConfig : Type 0 where
  pub queue : QueueConfig
  pub wal : WalConfig
  pub enable_wal : Bool

-- `BrokerConfig::validate`.
unfoldable pub validate_broker : BrokerConfig → Status
validate_broker c =
    let queue_status = validate_queue c.queue in
    if not (is_ok queue_status)
    then queue_status
    else if c.enable_wal
    then validate_wal c.wal
    else status_ok
