-- ===== src/Core/Status.antt =====
-- include/aether/core/status.hpp and src/core/status.cpp.
use text.Mathlib.Text.{◌==◌ as str_eq}
use aether_stream.Common.{Bool, ◌&&◌, ◌==◌, if◌then◌else◌, ℕ, String}

-- `enum class StatusCode`, in its order.
pub data StatusCode : Type 0 where
  ok unknown full empty invalid_argument io_error corrupted_record out_of_space : StatusCode

-- The value of a code in its `std::uint8_t`.
abbrev pub code_value : StatusCode → ℕ
code_value StatusCode.ok = 0
code_value StatusCode.unknown = 1
code_value StatusCode.full = 2
code_value StatusCode.empty = 3
code_value StatusCode.invalid_argument = 4
code_value StatusCode.io_error = 5
code_value StatusCode.corrupted_record = 6
code_value StatusCode.out_of_space = 7

abbrev pub code_eq : StatusCode → StatusCode → Bool
code_eq a b = code_value a == code_value b

unfoldable pub status_code_name : StatusCode → String
status_code_name StatusCode.ok = "ok"
status_code_name StatusCode.unknown = "unknown"
status_code_name StatusCode.full = "full"
status_code_name StatusCode.empty = "empty"
status_code_name StatusCode.invalid_argument = "invalid_argument"
status_code_name StatusCode.io_error = "io_error"
status_code_name StatusCode.corrupted_record = "corrupted_record"
status_code_name StatusCode.out_of_space = "out_of_space"

unfoldable pub status_code_message : StatusCode → String
status_code_message StatusCode.ok = "operation completed successfully"
status_code_message StatusCode.unknown = "unknown error"
status_code_message StatusCode.full = "resource is full"
status_code_message StatusCode.empty = "resource is empty"
status_code_message StatusCode.invalid_argument = "invalid argument"
status_code_message StatusCode.io_error = "I/O error"
status_code_message StatusCode.corrupted_record = "corrupted record"
status_code_message StatusCode.out_of_space = "not enough space"

-- `class Status`: `code_` and `detail_`.
pub record Status : Type 0 where
  pub code : StatusCode
  pub detail : String

-- `Status{code, detail}`, and `Status::error`.
abbrev pub status_error : StatusCode → String → Status
status_error c d = record { code = c; detail = d }

-- `Status::ok`.
abbrev pub status_ok : Status
status_ok = record { code = StatusCode.ok; detail = "" }

abbrev pub is_ok : Status → Bool
is_ok s = code_eq s.code StatusCode.ok

unfoldable pub message : Status → String
message s = if str_eq s.detail "" then status_code_message s.code else s.detail

-- `operator==` of two statuses.
unfoldable pub status_eq : Status → Status → Bool
status_eq lhs rhs = code_eq lhs.code rhs.code && str_eq lhs.detail rhs.detail
