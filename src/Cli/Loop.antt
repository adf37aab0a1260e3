-- ===== src/Cli/Loop.antt =====
-- The loop of the parsers ends, and what holds of each round holds of its result.
use aether_stream.Common.{
  ◌<◌, is_empty, ℕ, zero, suc, ◌+◌, ◌≤◌, ◌≡◌, refl, Bool, true, false, ltb, if◌then◌else◌, Option,
  some, List, length, Bool-cases, inl, inr, arith,
}
use aether_stream.Core.Status.{Status, is_ok}
use aether_stream.Core.Expected.{Expected, value, error, of_status, of_status_lem}
use aether_stream.Core.Types.{u64_mod}
use aether_stream.Cli.Text.{View, cursor_value}
use aether_stream.Cli.Numbers.{Bounded}
use aether_stream.Cli.Parse.{with_value, use_number, go_on, parse_loop}

-- A failure that is not ok, or a value with a property.
abbrev pub Good {ℓ} : {O : Type ℓ} → (O → Type 0) → Expected O → Type 0
Good P (value o) = P o
Good P (error s) = is_ok s ≡ false

-- A value that is not empty, if there is one.
abbrev pub Filled : Expected View → Type 0
Filled (error s) = Unit {0}
Filled (value v) = is_empty v ≡ false

-- A round leaves something good, and the index where it was or further.
pub record Reads {ℓ} {O : Type ℓ} (P : O → Type 0) (i : ℕ) (r : Expected O × ℕ) : Type 0 where
  pub good : Good P r.0
  pub forward : i ≤ r.1

module _ {ℓ} {O : Type ℓ} (P : O → Type 0) where
  pub of_status-Good : (s : Status) → Good P (of_status s)
  of_status-Good s = (of_status_lem O s).1

  pub if-Reads :
      {i : ℕ} (b : Bool) {x y : Expected O × ℕ}
      → Reads P i x
      → Reads P i y
      → Reads P i (if b then x else y)
  if-Reads true p q = p
  if-Reads false p q = q

  pub use_number-Good :
      (use_it : ℕ → Expected O)
      → ((n : ℕ) → n < u64_mod → Good P (use_it n))
      → (n : Expected ℕ) → Bounded n
      → Good P (use_number use_it n)
  use_number-Good use_it good (error s) fits = of_status-Good s
  use_number-Good use_it good (value n) fits = good n fits

  pub with_value-Reads :
      (i : ℕ) (use_it : View → Expected O) (got : Expected View × ℕ)
      → ((v : View) → is_empty v ≡ false → Good P (use_it v))
      → Filled got.0
      → i ≤ got.1
      → Reads P i (with_value use_it got)
  with_value-Reads i use_it (error s, j) good filled le = record {
    good = of_status-Good s;
    forward = le;
  }
  with_value-Reads i use_it (value v, j) good filled le = record {
    good = good v filled;
    forward = le;
  }

  go_on_lem :
      (rest : ℕ → O → Option (Expected O)) (i : ℕ) (r : Expected O × ℕ)
      → Reads P i r
      → ((j : ℕ) (o : O) → i ≤ j → P o → (a : Expected O) × (rest (j + 1) o ≡ some a) × Good P a)
      → (a : Expected O) × (go_on rest r ≡ some a) × Good P a
  go_on_lem rest i (error s, j) read again = (error s, refl, read.good)
  go_on_lem rest i (value o, j) read again = again j o read.forward read.good

  pub parse_loop_lem :
      (read : O → List View → ℕ → Expected O × ℕ) (args : List View)
      → ((o : O) (i : ℕ) → P o → Reads P i (read o args i))
      → (fuel i : ℕ) (o : O) → P o
      → length args ≤ i + fuel
      → (r : Expected O) × (parse_loop read fuel args i o ≡ some r) × Good P r
  unfolding parse_loop
  parse_loop_lem read args step zero i o p enough =
      let done : ltb i (length args) ≡ false = ground arith in (value o, rw done, p)
  parse_loop_lem read args step (suc fuel) i o p enough = elim (Bool-cases (ltb i (length args))) [
    | inr done ↦ (value o, rw done, p)
    | inl more ↦
        let (a, e, good) =
          go_on_lem (parse_loop read fuel args) i (read o args i) (step o i p)
            (λ j o' le p'. parse_loop_lem read args step fuel (j + 1) o' p' (omega arith)) in
        (a, rw more e, good)
  ]

pub cursor_value-le : (args : List View) (i : ℕ) → i ≤ (cursor_value args i).1
unfolding cursor_value
cursor_value-le args i = ground arith

value-Filled : (e : Expected View) → ((v : View) → e ≡ value v → is_empty v ≡ false) → Filled e
value-Filled (error s) filled = tt
value-Filled (value v) filled = filled v refl

pub cursor_value-Filled : (args : List View) (i : ℕ) → Filled (cursor_value args i).0
unfolding cursor_value
cursor_value-Filled args i = value-Filled (cursor_value args i).0 (λ v e. ground (arith, e))
