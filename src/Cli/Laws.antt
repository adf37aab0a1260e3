-- ===== src/Cli/Laws.antt =====
-- What a round of a parser leaves, by the kind of its option.
use aether_stream.Common.{
  ℕ, ◌^◌, ◌≤◌, ◌<◌, ◌≡◌, is_empty, refl, sym, subst, ◌⊎◌, Bool, true, false, not, if◌then◌else◌,
  List, String, [], ◌∷◌, inl, inr, arith,
}
use aether_stream.Core.Status.{StatusCode, status_error}
use aether_stream.Core.Expected.{Expected, value}
use aether_stream.Cli.Text.{
  View, cursor_value, parse_size, is_supported, invalid, supported_capacities,
}
use aether_stream.Cli.Parse.{with_value, with_number}
use aether_stream.Core.Types.{u64_mod}
use aether_stream.Cli.Numbers.{Bounded, parse_size-Bounded}
use aether_stream.Cli.Loop.{
  Good, Reads, of_status-Good, use_number-Good, with_value-Reads, cursor_value-le,
  cursor_value-Filled,
}

-- A capacity that the tools take: `2 ^ k` with `k` from 6 to 16.
abbrev pub TakesCapacity : ℕ → Type 0
TakesCapacity n = (k : ℕ) × (n ≡ 2 ^ k) × (6 ≤ k) × (k ≤ 16)

is_supported-or :
    (n s : ℕ) (l : List ℕ) → is_supported n (s ∷ l) ≡ true → (n ≡ s) ⊎ (is_supported n l ≡ true)
unfolding is_supported
is_supported-or n s l h = ground arith

-- What holds of each value of a list holds of those that it supports.
abbrev pub Each : (ℕ → Type 0) → List ℕ → Type 0
Each P [] = Unit {0}
Each P (s ∷ l) = P s × Each P l

pub is_supported-Each :
    (P : ℕ → Type 0) (n : ℕ) (l : List ℕ) → Each P l → is_supported n l ≡ true → P n
unfolding is_supported
is_supported-Each P n [] each h = ground arith
is_supported-Each P n (s ∷ l) each h = elim (is_supported-or n s l h) [
  | inl e ↦ subst P (sym e) each.0
  | inr more ↦ is_supported-Each P n l each.1 more
]

pub is_supported-TakesCapacity :
    (n : ℕ) → is_supported n supported_capacities ≡ true → TakesCapacity n
is_supported-TakesCapacity n = is_supported-Each TakesCapacity n supported_capacities (
  (6, refl, omega arith, omega arith),
  (
    (8, refl, omega arith, omega arith),
    (
      (10, refl, omega arith, omega arith),
      ((12, refl, omega arith, omega arith), ((16, refl, omega arith, omega arith), tt)),
    ),
  ),
)

module _ {ℓ} {O : Type ℓ} (P : O → Type 0) where
  pub guard-Good :
      (b : Bool) (detail : String) (x : Expected O)
      → (b ≡ true → Good P x)
      → Good P (if not b then invalid detail else x)
  guard-Good true detail x good = good refl
  guard-Good false detail x good =
      of_status-Good P (status_error StatusCode.invalid_argument detail)

  unknown : Good P (invalid "unknown option")
  unknown = of_status-Good P (status_error StatusCode.invalid_argument "unknown option")

  pub unknown-Reads : (i : ℕ) → Reads P i (invalid "unknown option", i)
  unknown-Reads i = record { good = unknown; forward = omega arith }

  -- The rounds that set a flag, read a number, a capacity and nothing but a text.
  pub flag-Reads : (i : ℕ) (o : O) → P o → Reads P i (value o, i)
  flag-Reads i o p = record { good = p; forward = omega arith }

  module _ (args : List View) (i : ℕ) where
    pub number-Reads :
        (parse : View → Expected ℕ) (use_it : ℕ → Expected O)
        → ((v : View) → Bounded (parse v))
        → ((n : ℕ) → n < u64_mod → Good P (use_it n))
        → Reads P i (with_value (with_number parse use_it) (cursor_value args i))
    number-Reads parse use_it fits good =
        with_value-Reads P i (with_number parse use_it) (cursor_value args i)
          (λ v filled. use_number-Good P use_it good (parse v) (fits v))
          (cursor_value-Filled args i) (cursor_value-le args i)

    pub listed-Reads :
        (supported : List ℕ) (detail : String) (use_it : ℕ → O)
        → ((n : ℕ) → is_supported n supported ≡ true → P (use_it n))
        → Reads P i (
            with_value
              (with_number parse_size
                (λ n. if not (is_supported n supported) then invalid detail else value (use_it n)))
              (cursor_value args i))
    listed-Reads supported detail use_it good =
        number-Reads parse_size _ parse_size-Bounded
          (λ n fits. guard-Good (is_supported n supported) detail (value (use_it n)) (good n))

    pub text-Reads :
        (use_it : View → Expected O)
        → ((v : View) → is_empty v ≡ false → Good P (use_it v))
        → Reads P i (with_value use_it (cursor_value args i))
    text-Reads use_it good =
        with_value-Reads P i use_it (cursor_value args i) good (cursor_value-Filled args i)
          (cursor_value-le args i)
