-- ===== src/Metrics/Histogram/Percentile.antt =====
-- A percentile is the recorded sample of its rank.
use aether_stream.Common.{
  ℕ, ◌+◌, ◌^◌, ◌≤◌, ◌≡◌, Bool, true, if◌then◌else◌, Option, none, some, List, [], ◌∷◌,
}
use aether_stream.Metrics.Histogram.{Doubles}

-- How many samples pass a test.
abbrev pub tally : (ℕ → Bool) → List ℕ → ℕ
tally f [] = 0
tally f (x ∷ xs) = (if f x then 1 else 0) + tally f xs

-- No sample is below a bound; each is below none of those behind it.
abbrev AllGe : ℕ → List ℕ → Type 0
AllGe k [] = Unit {0}
AllGe k (x ∷ xs) = (k ≤ x) × AllGe k xs

abbrev IsSorted : List ℕ → Type 0
IsSorted [] = Unit {0}
IsSorted (x ∷ xs) = AllGe x xs × IsSorted xs

abbrev from_some : Option ℕ → ℕ
from_some none = 0
from_some (some v) = v

-- What IEEE 754 says of the operations on ordered values, so of no NaN: they are monotone and exact
-- where the result is a double. A hundredth of what is from 0 to 100 is from 0 to 1, a part of a size
-- is from 0 to the size, and `ceil` goes over no whole number, up to the `2 ^ 53` that a double counts
-- exactly, so that the cast is defined.
pub record IsRounded (d : Doubles) : Type 0 where
  pub div-le :
      (p : d.Double)
      → d.le (d.of_size 0) p ≡ true
      → d.le p (d.of_size 100) ≡ true
      → let part = d.div p (d.of_size 100) in
        (d.le (d.of_size 0) part ≡ true) × (d.le part (d.of_size 1) ≡ true)
  pub mul-le :
      (x : d.Double) (n : ℕ)
      → d.le (d.of_size 0) x ≡ true
      → d.le x (d.of_size 1) ≡ true
      → let y = d.mul x (d.of_size n) in
        (d.le (d.of_size 0) y ≡ true) × (d.le y (d.of_size n) ≡ true)
  pub ceil-le :
      (y : d.Double) (n : ℕ)
      → n ≤ 2 ^ 53
      → d.le (d.of_size 0) y ≡ true
      → d.le y (d.of_size n) ≡ true
      → (rank : ℕ) × (d.to_size (d.ceil y) ≡ some rank) × (rank ≤ n)
