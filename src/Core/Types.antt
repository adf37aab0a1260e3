-- ===== src/Core/Types.antt =====
-- include/aether/core/types.hpp: widths, limits and defaults.
use aether_stream.Common.{
  ℕ, ◌-◌, ◌*◌, ◌^◌, bit_and, Bool, true, not, ◌&&◌, ◌==◌, ◌≡◌, ◌↔◌, ap, arith, pow_of_disjoint,
  disjoint_of_pow, ◌∙◌,
}
use native.Mathlib.Nat.{one-le-pow}

-- `std::size_t` and the 64-bit types of the header.
abbrev pub u64_mod : ℕ
u64_mod = 2 ^ 64

abbrev pub u32_mod : ℕ
u32_mod = 2 ^ 32

-- `max_payload_size`, the largest `payload_size_t`.
abbrev pub max_payload_size : ℕ
max_payload_size = 2 ^ 32 - 1

abbrev pub invalid_sequence : ℕ
invalid_sequence = 2 ^ 64 - 1

abbrev pub default_queue_capacity : ℕ
default_queue_capacity = 1024

abbrev pub default_wal_size_bytes : ℕ
default_wal_size_bytes = 64 * 1024 * 1024

-- `value - 1` is read only where `value` is not zero.
unfoldable pub is_power_of_two : ℕ → Bool
is_power_of_two value = not (value == 0) && bit_and value (value - 1) == 0

-- The bit trick tells the powers of two from all other numbers.
pub is_power_of_two_iff : (c : ℕ) → (is_power_of_two c ≡ true) ↔ ((k : ℕ) × (c ≡ 2 ^ k))
unfolding is_power_of_two
is_power_of_two_iff c = (
  λ h. pow_of_disjoint c (ground arith) (ground arith),
  λ (k, e). ground (arith, one-le-pow k 2, ap (λ (t : ℕ). bit_and t (t - 1)) e ∙ disjoint_of_pow k),
)
