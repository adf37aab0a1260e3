-- ===== src/Tests/Histogram.antt =====
-- A percentile under an arithmetic in thousandths that rounds down and has a NaN.
use aether_stream.Common.{
  ℕ, ◌+◌, ◌*◌, ◌/◌, ◌≡◌, refl, leb, Bool, false, Option, some, none, [], ◌∷◌,
}
use aether_stream.Metrics.Histogram.{Doubles, LatencyHistogram, percentile}

-- `none` is the NaN, which no comparison holds of.
abbrev at_most : Option ℕ → Option ℕ → Bool
at_most (some x) (some y) = leb x y
at_most (some x) none = false
at_most none y = false

abbrev both : (ℕ → ℕ → ℕ) → Option ℕ → Option ℕ → Option ℕ
both f (some x) (some y) = some (f x y)
both f (some x) none = none
both f none y = none

abbrev rounded_up : Option ℕ → Option ℕ
rounded_up none = none
rounded_up (some x) = some ((x + 999) / 1000 * 1000)

abbrev cast : Option ℕ → Option ℕ
cast none = none
cast (some x) = some (x / 1000)

abbrev thousandths : Doubles
thousandths = record {
  Double = Option ℕ;
  of_size = λ n. some (n * 1000);
  to_size = cast;
  le = at_most;
  add = both (λ x y. x + y);
  mul = both (λ x y. x * y / 1000);
  div = both (λ x y. x * 1000 / y);
  ceil = rounded_up;
}

abbrev five_samples : LatencyHistogram
five_samples = record { samples = 40 ∷ 10 ∷ 50 ∷ 20 ∷ 30 ∷ [] }

abbrev fifty : thousandths.Double
fifty = some (50 * 1000)

percentile_test : percentile thousandths five_samples fifty ≡ some 30
unfolding percentile
percentile_test = refl

-- A NaN passes both tests of the code, and its cast is undefined.
percentile_of_nan : percentile thousandths five_samples none ≡ none
unfolding percentile
percentile_of_nan = refl
