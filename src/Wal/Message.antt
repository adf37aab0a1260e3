-- ===== src/Wal/Message.antt =====
-- include/aether/message.hpp: messages and their headers.
use aether_stream.Common.{ℕ, Bool, not, ◌==◌, ◌%◌, leb, if◌then◌else◌, length}
use aether_stream.Core.Status.{Status, StatusCode, status_error, status_ok}
use aether_stream.Core.Expected.{Expected, value, of_status}
use aether_stream.Core.Types.{u32_mod, max_payload_size}
use aether_stream.Wal.Record.{Bytes}

pub record MessageHeader : Type 0 where
  pub sequence : ℕ
  pub timestamp_ns : ℕ
  pub payload_size : ℕ
  pub flags : ℕ

pub record MessageView : Type 0 where
  pub header : MessageHeader
  pub payload : Bytes

unfoldable pub payload_size_fits : ℕ → Bool
payload_size_fits size = leb size max_payload_size

-- `make_message_view`; the size is cast to 32 bits.
unfoldable pub make_message_view : ℕ → ℕ → Bytes → ℕ → Expected MessageView
unfolding payload_size_fits
make_message_view sequence timestamp_ns payload flags =
    if not (payload_size_fits (length payload))
    then of_status (status_error StatusCode.invalid_argument "payload too large")
    else value (record {
      header = record {
        sequence = sequence;
        timestamp_ns = timestamp_ns;
        payload_size = length payload % u32_mod;
        flags = flags;
      };
      payload = payload;
    })

unfoldable pub validate_message_view : MessageView → Status
validate_message_view message =
    if not (message.header.payload_size == length message.payload)
    then status_error StatusCode.invalid_argument "payload size mismatch"
    else status_ok
