-- ===== src/Cli/Decimal.antt =====
-- Numbers printed in decimal, as the values of options.
use aether_stream.Common.{
  ℕ, zero, suc, ◌+◌, ◌-◌, ◌/◌, ◌%◌, ◌<◌, ◌≡◌, ◌≢◌, refl, false, ltb, ◌||◌, if◌then◌else◌, [], ◌∷◌,
  codes, is_empty, Bool-cases, inl, inr, arith,
}
use aether_stream.Core.Types.{u64_mod}
use aether_stream.Core.Expected.{value}
use aether_stream.Cli.Text.{View, starts_with, parse_u64, parse_size}
use aether_stream.Cli.Numbers.{spelt, AllDigits, Spells, parse_u64_iff}

-- The decimal digits of a number in front of a text, on the digits left.
unfoldable pub digits : ℕ → ℕ → View → View
digits zero n out = out
digits (suc left) n out =
    let more = digits left (n / 10) ((b'0' + n % 10) ∷ out) in
    if ltb n 10 then (b'0' + n % 10) ∷ out else more

unfoldable pub decimal : ℕ → View
decimal n = digits (n + 1) n []

spelt-digits : (left n : ℕ) (out : View) → n < left → spelt 0 (digits left n out) ≡ spelt n out
unfolding digits
spelt-digits zero n out h = absurd (omega arith)
spelt-digits (suc left) n out h = ground (arith, spelt-digits left (n / 10) ((b'0' + n % 10) ∷ out))

digits-AllDigits : (left n : ℕ) (out : View) → AllDigits out → AllDigits (digits left n out)
unfolding digits
digits-AllDigits zero n out h = h
digits-AllDigits (suc left) n out h = elim (Bool-cases (ltb n 10)) [
  | inl last ↦ rw last (omega arith, omega arith, h)
  | inr more ↦
      rw more (digits-AllDigits left (n / 10) ((b'0' + n % 10) ∷ out) (omega arith, omega arith, h))
]

digits-ne-nil : (left n : ℕ) (out : View) → n < left → digits left n out ≢ []
unfolding digits
digits-ne-nil zero n out h = absurd (omega arith)
digits-ne-nil (suc left) n out h =
    ground (arith, digits-ne-nil left (n / 10) ((b'0' + n % 10) ∷ out))

pub decimal-Spells : (n : ℕ) → n < u64_mod → Spells (decimal n) n
unfolding decimal
decimal-Spells n fits = record {
  some_digit = digits-ne-nil (n + 1) n [] (omega arith);
  digits = digits-AllDigits (n + 1) n [] tt;
  exact = omega (arith, spelt-digits (n + 1) n []);
  fits = fits;
}

pub parse_u64-decimal : (n : ℕ) → n < u64_mod → parse_u64 (decimal n) ≡ value n
parse_u64-decimal n fits = (parse_u64_iff (decimal n) n).1 (decimal-Spells n fits)

-- A text that the cursor takes as a value of its own: not empty, and with no dash in front.
abbrev pub IsValue : View → Type 0
IsValue text = is_empty text || starts_with text (codes "-") ≡ false

Spells-IsValue : (s : View) (n : ℕ) → Spells s n → IsValue s
unfolding starts_with
Spells-IsValue [] n h = absurd (h.some_digit refl)
Spells-IsValue (c ∷ cs) n h = ground (arith, h.digits.0)

pub decimal-IsValue : (n : ℕ) → n < u64_mod → IsValue (decimal n)
decimal-IsValue n fits = Spells-IsValue (decimal n) n (decimal-Spells n fits)

pub parse_size-decimal : (n : ℕ) → n < u64_mod → parse_size (decimal n) ≡ value n
unfolding parse_size
parse_size-decimal n fits =
    let le : ltb (u64_mod - 1) n ≡ false = ground (arith, fits) in
    rw (parse_size, parse_u64-decimal n fits) (rw le)
