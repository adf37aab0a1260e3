-- ===== src/Core/Expected.antt =====
-- include/aether/core/expected.hpp: a value or a status that is not ok.
use aether_stream.Common.{Bool, true, false, if◌then◌else◌, ◌≡◌, arith}
use aether_stream.Core.Status.{Status, StatusCode, status_error, status_ok, is_ok}

abbrev pub normalize_expected_error : Status → Status
normalize_expected_error status =
    if is_ok status
    then status_error StatusCode.invalid_argument "Expected error status must not be ok"
    else status

-- `std::variant<T, Status>` of the class.
pub data Expected {ℓ} (A : Type ℓ) : Type ℓ where
  value : A → Expected A
  error : Status → Expected A

module _ {ℓ} {A : Type ℓ} where
  -- The constructor from a status.
  abbrev pub of_status : Status → Expected A
  of_status s = error (normalize_expected_error s)

  abbrev pub has_value : Expected A → Bool
  has_value (value a) = true
  has_value (error s) = false

  abbrev pub status_of : Expected A → Status
  status_of (value a) = status_ok
  status_of (error s) = s

-- An expected value that a status was put into holds no value, and its status is never ok; a
-- status that is not ok comes back as it was put in.
pub of_status_lem {ℓ} :
    (A : Type ℓ) (s : Status)
    → (has_value {A = A} (of_status s) ≡ false)
      × (is_ok (status_of {A = A} (of_status s)) ≡ false)
      × (is_ok s ≡ false → status_of {A = A} (of_status s) ≡ s)
of_status_lem A s = ground arith

-- `Expected<void>` holds a status alone; `Expected{status}` of an ok status is the ok value.
pub record ExpectedVoid : Type 0 where
  pub status : Status

unfoldable pub void_of_status : Status → ExpectedVoid
void_of_status s = record { status = if is_ok s then status_ok else normalize_expected_error s }

unfoldable pub void_has_value : ExpectedVoid → Bool
void_has_value e = is_ok e.status
