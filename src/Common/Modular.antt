-- ===== src/Common/Modular.antt =====
-- Remainders by a size that divides another, as a ring's capacity divides `2 ^ 64`.
use Prim.Native.Nat.{ℕ, zero, suc, ◌+◌, ◌*◌, ◌/◌, ◌%◌, ◌^◌, ◌≤◌, ◌<◌}
use mathlib.Core.Path.{◌≡◌, ap}
use mathlib.Core.Logic.{◌≢◌, ◌⊎◌, inl, inr}
use native.Mathlib.Omega.{arith}
use native.Mathlib.Nat.{pow-suc, pow-zero, add-zero, add-suc, mul_assoc, div-add-mod}
use native.Mathlib.Nat.{mod-mod_of_dvd, dvd-mul_right}
use native.Mathlib.Decide.{dec_lt}

pub pow-add : (b m n : ℕ) → b ^ (m + n) ≡ b ^ m * b ^ n
pow-add b m zero = rw (add-zero, pow-zero) (omega arith)
pow-add b m (suc n) =
    rw (add-suc m n, pow-suc b (m + n), pow-add b m n, pow-suc b n) (mul_assoc (b ^ m) (b ^ n) b)

-- A remainder by a multiple of `c` does not change the remainder by `c`.
pub mod-mul-mod : (c m x : ℕ) → x % (c * m) % c ≡ x % c
mod-mul-mod c m x = mod-mod_of_dvd c x (dvd-mul_right c m)

-- Multiples of `c` that differ are at least `c` apart.
mul_gap : (c a b : ℕ) → (c * a ≡ c * b) ⊎ ((c * a + c ≤ c * b) ⊎ (c * b + c ≤ c * a))
mul_gap c a b = elim (dec_lt a b) [
  | yes p ↦ inr (inl (grind arith))
  | no p ↦ elim (dec_lt b a) [
    | yes q ↦ inr (inr (grind arith))
    | no q ↦ inl (ap (λ (t : ℕ). c * t) (omega arith))
  ]
]

-- Two different offsets below the size of a ring name different slots.
pub add-mod-ne : (cap t i j : ℕ) → i < j → j < cap → (t + i) % cap ≢ (t + j) % cap
add-mod-ne cap t i j lt le e = absurd (
    omega (
      arith,
      div-add-mod (t + i) cap,
      div-add-mod (t + j) cap,
      e,
      mul_gap cap ((t + i) / cap) ((t + j) / cap),
    ))
