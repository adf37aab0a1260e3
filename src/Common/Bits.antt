-- ===== src/Common/Bits.antt =====
-- `&`, `|` and `^` at variables: the law of the lowest digit, low masks, disjoint fields, ranges.
use Prim.Native.Nat.{ℕ, zero, suc, ◌+◌, ◌-◌, ◌*◌, ◌/◌, ◌%◌, ◌^◌, ◌≤◌, ◌<◌, min, max}
use Prim.Native.Nat.{bit_and, bit_or, bit_xor, digits, differ}
use Prim.Native.Nat.{bit_and-bitwise, bit_or-bitwise, bit_xor-bitwise}
use mathlib.Core.Path.{◌≡◌, refl, ap, ◌∙◌}
use native.Mathlib.Omega.{arith}
use native.Mathlib.Nat.{pow-suc, one-le-pow, div-add-mod, mod_self, div-div-eq-div-mul}
use native.Mathlib.Decide.{ℕ_discrete}

-- Any two counts that cover the first number give the same digits.
module _ (z : ℕ → ℕ) (f : ℕ → ℕ → ℕ) where
  digits_enough : (n m a b : ℕ) → a ≤ n → a ≤ m → digits z f n a b ≡ digits z f m a b
  digits_enough zero zero a b p q = refl
  digits_enough zero (suc m) zero b p q = refl
  digits_enough zero (suc m) (suc a) b p q = absurd (omega arith)
  digits_enough (suc n) zero zero b p q = refl
  digits_enough (suc n) zero (suc a) b p q = absurd (omega arith)
  digits_enough (suc n) (suc m) zero b p q = refl
  digits_enough (suc n) (suc m) (suc a) b p q =
      omega (arith, digits_enough n m (suc a / 2) (b / 2) (omega arith) (omega arith))

and_low_digit : (a b : ℕ) → bit_and a b ≡ bit_and (a / 2) (b / 2) * 2 + min (a % 2) (b % 2)
and_low_digit zero b = omega (arith, bit_and-bitwise 0 b, bit_and-bitwise 0 (b / 2))
and_low_digit (suc a) b = omega (
  arith,
  bit_and-bitwise (suc a) b,
  bit_and-bitwise (suc a / 2) (b / 2),
  digits_enough (λ b. zero) min a (suc a / 2) (suc a / 2) (b / 2) (omega arith) (omega arith),
)

or_low_digit : (a b : ℕ) → bit_or a b ≡ bit_or (a / 2) (b / 2) * 2 + max (a % 2) (b % 2)
or_low_digit zero b = omega (arith, bit_or-bitwise 0 b, bit_or-bitwise 0 (b / 2))
or_low_digit (suc a) b = omega (
  arith,
  bit_or-bitwise (suc a) b,
  bit_or-bitwise (suc a / 2) (b / 2),
  digits_enough (λ b. b) max a (suc a / 2) (suc a / 2) (b / 2) (omega arith) (omega arith),
)

xor_low_digit : (a b : ℕ) → bit_xor a b ≡ bit_xor (a / 2) (b / 2) * 2 + differ (a % 2) (b % 2)
xor_low_digit zero b = rw (bit_xor-bitwise 0 b, bit_xor-bitwise 0 (b / 2)) (omega arith)
xor_low_digit (suc a) b = omega (
  arith,
  bit_xor-bitwise (suc a) b,
  bit_xor-bitwise (suc a / 2) (b / 2),
  digits_enough (λ b. b) differ a (suc a / 2) (suc a / 2) (b / 2) (omega arith) (omega arith),
)

-- The digits of numbers below 2 differ by a number below 2.
differ-lt : (a b : ℕ) → a < 2 → b < 2 → differ a b < 2
differ-lt zero b p q = q
differ-lt (suc a) zero p q = p
differ-lt (suc a) (suc b) p q = differ-lt a b (omega arith) (omega arith)

and_zero_below : (n a : ℕ) → a ≤ n → bit_and a 0 ≡ 0
and_zero_below n zero h = refl
and_zero_below zero (suc a) h = absurd (omega arith)
and_zero_below (suc n) (suc a) h =
    omega (arith, and_low_digit (suc a) 0, and_zero_below n (suc a / 2) (omega arith))

and_self_below : (n a : ℕ) → a ≤ n → bit_and a a ≡ a
and_self_below n zero h = refl
and_self_below zero (suc a) h = absurd (omega arith)
and_self_below (suc n) (suc a) h =
    omega (arith, and_low_digit (suc a) (suc a), and_self_below n (suc a / 2) (omega arith))

pub bit_and_self : (a : ℕ) → bit_and a a ≡ a
bit_and_self a = and_self_below a a (omega arith)

-- A mask of `k` ones keeps the remainder by `2 ^ k`.
pub bit_and-mask : (k a : ℕ) → bit_and a (2 ^ k - 1) ≡ a % 2 ^ k
bit_and-mask zero a = omega (arith, and_zero_below a a (omega arith))
bit_and-mask (suc k) a = ground (
  arith,
  and_low_digit a (2 ^ suc k - 1),
  bit_and-mask k (a / 2),
  pow-suc 2 k,
  one-le-pow k 2,
  div-div-eq-div-mul a 2 (2 ^ k),
  div-add-mod (a / 2) (2 ^ k),
  div-add-mod a (2 ^ suc k),
)

-- `|` of a number below `2 ^ k` and a multiple of `2 ^ k` is their sum.
pub bit_or-fields : (k r q : ℕ) → r < 2 ^ k → bit_or r (q * 2 ^ k) ≡ r + q * 2 ^ k
bit_or-fields zero zero q h = omega (arith, bit_or-bitwise 0 (q * 2 ^ 0))
bit_or-fields zero (suc r) q h = absurd (omega arith)
bit_or-fields (suc k) r q h =
    let double : q * 2 ^ suc k ≡ 2 * (q * 2 ^ k) =
      omega (arith, ap (λ (t : ℕ). q * t) (pow-suc 2 k)) in
    let half : q * 2 ^ suc k / 2 ≡ q * 2 ^ k = omega arith in
    omega (
      arith,
      or_low_digit r (q * 2 ^ suc k),
      ap (λ (t : ℕ). bit_or (r / 2) t) half,
      bit_or-fields k (r / 2) q (omega (arith, pow-suc 2 k)),
    )

-- `^` of two numbers of `k` bits has `k` bits.
pub bit_xor-lt : (k a b : ℕ) → a < 2 ^ k → b < 2 ^ k → bit_xor a b < 2 ^ k
bit_xor-lt zero zero zero p q = omega (arith, bit_xor-bitwise 0 0)
bit_xor-lt zero zero (suc b) p q = absurd (omega arith)
bit_xor-lt zero (suc a) b p q = absurd (omega arith)
bit_xor-lt (suc k) a b p q = omega (
  arith,
  xor_low_digit a b,
  pow-suc 2 k,
  differ-lt (a % 2) (b % 2) (omega arith) (omega arith),
  bit_xor-lt k (a / 2) (b / 2) (omega (arith, pow-suc 2 k)) (omega (arith, pow-suc 2 k)),
)

-- `&` is at most its second argument.
and_le_below : (n a b : ℕ) → a ≤ n → bit_and a b ≤ b
and_le_below n zero b h = omega (arith, bit_and-bitwise 0 b)
and_le_below zero (suc a) b h = absurd (omega arith)
and_le_below (suc n) (suc a) b h =
    omega (arith, and_low_digit (suc a) b, and_le_below n (suc a / 2) (b / 2) (omega arith))

pub bit_and-le_right : (a b : ℕ) → bit_and a b ≤ b
bit_and-le_right a b = and_le_below a a b (omega arith)

pow_of_disjoint_below : (n c : ℕ) → c ≤ n → 0 < c → bit_and c (c - 1) ≡ 0 → (k : ℕ) × (c ≡ 2 ^ k)
pow_of_disjoint_below n zero le pos h = absurd (omega arith)
pow_of_disjoint_below zero (suc c) le pos h = absurd (omega arith)
pow_of_disjoint_below (suc n) (suc zero) le pos h = (0, refl)
pow_of_disjoint_below (suc n) (suc (suc c)) le pos h = elim (ℕ_discrete (c % 2) 0) [
  | yes even ↦
      let half : (suc (suc c) - 1) / 2 ≡ suc (suc c) / 2 - 1 = omega arith in
      let rest : bit_and (suc (suc c) / 2) (suc (suc c) / 2 - 1) ≡ 0 = omega (
        arith,
        and_low_digit (suc (suc c)) (suc (suc c) - 1),
        ap (λ (t : ℕ). bit_and (suc (suc c) / 2) t) half,
      ) in
      let (k, e) = pow_of_disjoint_below n (suc (suc c) / 2) (omega arith) (omega arith) rest in
      (suc k, omega (arith, pow-suc 2 k))
  | no odd ↦
      let half : (suc (suc c) - 1) / 2 ≡ suc (suc c) / 2 = omega arith in
      absurd (
        omega (
          arith,
          and_low_digit (suc (suc c)) (suc (suc c) - 1),
          ap (λ (t : ℕ). bit_and (suc (suc c) / 2) t) half,
          bit_and_self (suc (suc c) / 2),
        ))
]

-- A positive number that shares no digit with its predecessor is a power of two.
pub pow_of_disjoint : (c : ℕ) → 0 < c → bit_and c (c - 1) ≡ 0 → (k : ℕ) × (c ≡ 2 ^ k)
pow_of_disjoint c = pow_of_disjoint_below c c (omega arith)

-- And a power of two shares none.
pub disjoint_of_pow : (k : ℕ) → bit_and (2 ^ k) (2 ^ k - 1) ≡ 0
disjoint_of_pow k = bit_and-mask k (2 ^ k) ∙ mod_self (2 ^ k)
