-- ===== src/Cli/Numbers.antt =====
-- What `parse_u64` and `parse_size` accept, and what they return.
use mathlib.Core.List.{cons-ne-nil}
use aether_stream.Common.{
  ◌↔◌, ℕ, ◌+◌, ◌*◌, ◌-◌, ◌≤◌, ◌<◌, ◌≡◌, ◌≢◌, refl, subst, ap, ◌∙◌, sym, Bool, true, false, not,
  ◌==◌, leb, ◌||◌, if◌then◌else◌, Option, none, some, [], ◌∷◌, get_or, is_empty, Bool-cases, inl,
  inr, arith,
}
use aether_stream.Core.Types.{u64_mod}
use aether_stream.Core.Expected.{Expected, value, error}
use aether_stream.Cli.Text.{
  View, is_digit, read_digits, from_chars, parse_answer, parse_u64, parse_size,
}

abbrev pub AllDigits : View → Type 0
AllDigits [] = Unit {0}
AllDigits (c ∷ cs) = (b'0' ≤ c) × (c ≤ b'9') × AllDigits cs

-- The number that digits spell behind `n`.
abbrev pub spelt : ℕ → View → ℕ
spelt n [] = n
spelt n (c ∷ cs) = spelt (n * 10 + (c - b'0')) cs

-- A text that `parse_u64` takes, and its number.
pub record Spells (s : View) (n : ℕ) : Type 0 where
  pub some_digit : s ≢ []
  pub digits : AllDigits s
  pub exact : n ≡ spelt 0 s
  pub fits : n < u64_mod

read_digits-all : (s : View) (acc : ℕ) → AllDigits s → read_digits acc s ≡ (spelt acc s, [])
unfolding read_digits
read_digits-all [] acc h = refl
read_digits-all (c ∷ cs) acc h =
    let more = read_digits-all cs (acc * 10 + (c - b'0')) h.2 in
    let d : is_digit c ≡ true = ground (arith, h.0, h.1) in rw (d, more)

-- Where no text is left, all of it was digits.
read_digits_sound :
    (s : View) (acc : ℕ)
    → is_empty (read_digits acc s).1 ≡ true
    → AllDigits s × ((read_digits acc s).0 ≡ spelt acc s)
unfolding read_digits
read_digits_sound [] acc h = (tt, refl)
read_digits_sound (c ∷ cs) acc h = elim (Bool-cases (is_digit c)) [
  | inr other ↦ cc (rw other at h)
  | inl d ↦
      let (all, e) = read_digits_sound cs (acc * 10 + (c - b'0')) (rw d at h) in
      ((ground (arith, d), ground (arith, d), all), rw d e)
]

from_chars-all :
    (c : ℕ) (cs : View)
    → AllDigits (c ∷ cs)
    → spelt 0 (c ∷ cs) < u64_mod
    → from_chars (c ∷ cs) ≡ some (spelt 0 (c ∷ cs), [])
unfolding from_chars
from_chars-all c cs all fits =
    let d : is_digit c ≡ true = ground (arith, all.0, all.1) in
    let le : leb (spelt 0 (c ∷ cs)) (u64_mod - 1) ≡ true = ground (arith, fits) in
    rw (d, read_digits-all (c ∷ cs) 0 all, le)

pub from_chars-Spells : (s : View) (n : ℕ) → Spells s n → from_chars s ≡ some (n, [])
from_chars-Spells [] n h = absurd (h.some_digit refl)
from_chars-Spells (c ∷ cs) n h =
    let fits : spelt 0 (c ∷ cs) < u64_mod = omega (arith, h.fits, h.exact) in
    from_chars-all c cs h.digits fits ∙ ap (λ v. some (v, [])) (sym h.exact)

complete : (s : View) (n : ℕ) → Spells s n → parse_u64 s ≡ value n
unfolding parse_u64
complete [] n h = absurd (h.some_digit refl)
complete (c ∷ cs) n h =
    let signed : c == b'-' ≡ false = ground (arith, h.digits.0) in
    let all = h.digits in
    let fits : spelt 0 (c ∷ cs) < u64_mod = omega (arith, h.fits, h.exact) in
    rw (signed, from_chars-all c cs all fits) (ap value (sym h.exact))

-- The parts of what `from_chars` accepted, and of what `parse_answer` did.
from_chars-parts :
    (digit : Bool) (r r' : ℕ × View)
    → (if not digit then none else if leb r.0 (u64_mod - 1) then some r else none) ≡ some r'
    → (r.0 ≡ r'.0) × (r.1 ≡ r'.1) × (r'.0 < u64_mod)
from_chars-parts digit r r' e = ground arith

parse_answer-parts :
    (o : Option (ℕ × View)) (n : ℕ)
    → parse_answer o ≡ value n
    → (rest : View) × (o ≡ some (n, rest)) × (is_empty rest ≡ true)
parse_answer-parts none n e = cc
parse_answer-parts (some (v, [])) n e = ([], cc, refl)
parse_answer-parts (some (v, c ∷ rest)) n e = cc

-- What `from_chars` read, for a text that it read to the end.
from_chars_sound :
    (s : View) (v : ℕ) (rest : View)
    → from_chars s ≡ some (v, rest)
    → is_empty rest ≡ true
    → Spells s v
unfolding from_chars
from_chars_sound [] v rest e end = cc
from_chars_sound (c ∷ cs) v rest e end =
    let (v', e', fits) = from_chars-parts (is_digit c) (read_digits 0 (c ∷ cs)) (v, rest) e in
    let (all, exact) = read_digits_sound (c ∷ cs) 0 (subst (λ r. is_empty r ≡ true) (sym e') end) in
    record { some_digit = cons-ne-nil c cs; digits = all; exact = sym v' ∙ exact; fits = fits }

sound : (s : View) (n : ℕ) → parse_u64 s ≡ value n → Spells s n
unfolding parse_u64
sound s n h = elim (Bool-cases (is_empty s || get_or s 0 0 == b'-')) [
  | inl refused ↦ cc (rw refused at h)
  | inr accepted ↦
      let (rest, e, end) = parse_answer-parts (from_chars s) n (rw accepted at h) in
      from_chars_sound s n rest e end
]

-- `parse_u64` takes just the texts of one or more digits whose number is below `2 ^ 64`, and
-- returns that number.
pub parse_u64_iff : (s : View) (n : ℕ) → (parse_u64 s ≡ value n) ↔ Spells s n
parse_u64_iff s n = (sound s n, complete s n)

-- A number that fits 64 bits, if there is one.
abbrev pub Bounded : Expected ℕ → Type 0
Bounded (error s) = Unit {0}
Bounded (value n) = n < u64_mod

value-Bounded : (e : Expected ℕ) → ((n : ℕ) → e ≡ value n → n < u64_mod) → Bounded e
value-Bounded (error s) fits = tt
value-Bounded (value n) fits = fits n refl

pub parse_u64-Bounded : (v : View) → Bounded (parse_u64 v)
parse_u64-Bounded v = value-Bounded (parse_u64 v) (λ n e. let spells = sound v n e in spells.fits)

pub parse_size-Bounded : (v : View) → Bounded (parse_size v)
unfolding parse_size
parse_size-Bounded v = value-Bounded (parse_size v) (λ n e. ground (arith, e))
