-- ===== src/Core/Validate.antt =====
-- src/broker.cpp: which configurations a broker of a fixed capacity and payload size accepts.
use aether_stream.Common.{
  ℕ, ◌+◌, ◌^◌, ◌%◌, ◌≤◌, true, false, if◌then◌else◌, not, ◌==◌, ltb, is_empty, ◌≡◌, ◌↔◌, arith,
}
use aether_stream.Core.Status.{Status, StatusCode, status_error, status_ok, is_ok}
use aether_stream.Core.Types.{max_payload_size, u64_mod, is_power_of_two, is_power_of_two_iff}
use aether_stream.Core.Config.{QueueConfig, WalConfig, validate_queue, validate_wal}

-- `wal::wal_record_header_size`.
abbrev pub wal_record_header_size : ℕ
wal_record_header_size = 40

-- `detail::validate_queue_config_for_capacity`.
unfoldable pub validate_queue_config_for_capacity : QueueConfig → ℕ → Status
validate_queue_config_for_capacity config static_capacity =
    let status = validate_queue config in
    if not (is_ok status)
    then status
    else if not (config.capacity == static_capacity)
    then status_error StatusCode.invalid_argument
        "queue config capacity does not match broker template capacity"
    else status_ok

-- `detail::validate_wal_config_for_payload`; the sum is a `std::size_t`.
unfoldable pub validate_wal_config_for_payload : WalConfig → ℕ → Status
validate_wal_config_for_payload config payload_size =
    let status = validate_wal config in
    if not (is_ok status)
    then status
    else if ltb max_payload_size payload_size
    then status_error StatusCode.invalid_argument "broker payload too large for WAL record"
    else if ltb config.file_size_bytes ((wal_record_header_size + payload_size) % u64_mod)
    then status_error StatusCode.invalid_argument
        "wal file size must fit at least one broker record"
    else status_ok

-- A queue configuration passes for a capacity exactly when it names that capacity and the
-- capacity is a power of two.
pub validate_queue_config_for_capacity_iff :
    (config : QueueConfig) (cap : ℕ)
    → (is_ok (validate_queue_config_for_capacity config cap) ≡ true)
      ↔ ((config.capacity ≡ cap) × ((k : ℕ) × (cap ≡ 2 ^ k)))
unfolding validate_queue_config_for_capacity validate_queue
validate_queue_config_for_capacity_iff config cap = (
  λ h.
      let e : config.capacity ≡ cap = ground arith in
      let p : is_power_of_two config.capacity ≡ true = ground arith in
      (e, rw e at ((is_power_of_two_iff config.capacity).0 p)),
  λ (e, p).
      let q : is_power_of_two config.capacity ≡ true =
        (is_power_of_two_iff config.capacity).1 (rw e p) in
      unfold is_power_of_two in ground arith,
)

-- A WAL configuration passes for a payload size exactly when its path is not empty, the size
-- fits the payload field of a record, and the file has room for one record of that size.
pub validate_wal_config_for_payload_iff :
    (config : WalConfig) (size : ℕ)
    → (is_ok (validate_wal_config_for_payload config size) ≡ true) ↔ (
        (is_empty config.path ≡ false)
        × (size ≤ max_payload_size)
        × (wal_record_header_size + size ≤ config.file_size_bytes))
unfolding validate_wal_config_for_payload validate_wal
validate_wal_config_for_payload_iff config size = (λ h. ground arith, λ h. ground arith)
