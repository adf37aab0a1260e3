-- ===== src/Metrics/Histogram.antt =====
-- src/metrics/latency_histogram.cpp: `LatencyHistogram`. The arithmetic of `double` is a parameter.
pub mod Percentile
use aether_stream.Common.{
  ℕ, ◌-◌, Bool, true, false, ◌==◌, ltb, leb, if◌then◌else◌, Option, none, some, List, [], ◌∷◌, ◌++◌,
  length, is_empty, get_elem?,
}

-- What the code uses of `double`: the conversions, the comparison, and the operations with their
-- rounding. The cast to `std::size_t` of a value that has none there, as of a NaN, is undefined
-- behaviour, `none`.
pub record Doubles : Type 1 where
  pub Double : Type 0
  pub of_size : ℕ → Double
  pub to_size : Double → Option ℕ
  pub le : Double → Double → Bool
  pub add : Double → Double → Double
  pub mul : Double → Double → Double
  pub div : Double → Double → Double
  pub ceil : Double → Double

pub record LatencyHistogram : Type 0 where
  pub samples : List ℕ

abbrev pub empty_histogram : LatencyHistogram
empty_histogram = record { samples = [] }

unfoldable pub record_sample : LatencyHistogram → ℕ → LatencyHistogram
record_sample h latency_ns = record { samples = h.samples ++ latency_ns ∷ [] }

unfoldable pub clear : LatencyHistogram → LatencyHistogram
clear h = empty_histogram

unfoldable pub empty : LatencyHistogram → Bool
empty h = is_empty h.samples

unfoldable pub count : LatencyHistogram → ℕ
count h = length h.samples

-- `std::min_element` and `std::max_element` from a first element on.
abbrev pub min_from : ℕ → List ℕ → ℕ
min_from k [] = k
min_from k (x ∷ xs) = min_from (if ltb x k then x else k) xs

abbrev pub max_from : ℕ → List ℕ → ℕ
max_from k [] = k
max_from k (x ∷ xs) = max_from (if ltb k x then x else k) xs

abbrev pub min_element : List ℕ → ℕ
min_element [] = 0
min_element (x ∷ xs) = min_from x xs

abbrev pub max_element : List ℕ → ℕ
max_element [] = 0
max_element (x ∷ xs) = max_from x xs

unfoldable pub min : LatencyHistogram → ℕ
min h = min_element h.samples

unfoldable pub max : LatencyHistogram → ℕ
max h = max_element h.samples

-- `std::sort`.
abbrev pub insert : ℕ → List ℕ → List ℕ
insert x [] = x ∷ []
insert x (y ∷ ys) = let rest = insert x ys in if leb x y then x ∷ y ∷ ys else y ∷ rest

abbrev pub sort : List ℕ → List ℕ
sort [] = []
sort (x ∷ xs) = insert x (sort xs)

module _ (d : Doubles) where
  open d use {Double, of_size, to_size, le, add, mul, div, ceil}

  abbrev pub accumulate : Double → List ℕ → Double
  accumulate total [] = total
  accumulate total (x ∷ xs) = accumulate (add total (of_size x)) xs

  unfoldable pub mean : LatencyHistogram → Double
  mean h =
      if is_empty h.samples
      then of_size 0
      else div (accumulate (of_size 0) h.samples) (of_size (length h.samples))

  -- The rank that `percentile` computes for so many samples, and the index of that rank.
  abbrev pub rank_of : Double → ℕ → Option ℕ
  rank_of percentile_value size =
      to_size (ceil (mul (div percentile_value (of_size 100)) (of_size size)))

  abbrev pub index_of : ℕ → ℕ
  index_of rank = (if rank == 0 then 1 else rank) - 1

  abbrev pub sample_at : List ℕ → Option ℕ → Option ℕ
  sample_at sorted none = none
  sample_at sorted (some rank) = get_elem? sorted (index_of rank)

  -- `percentile`; `none` is undefined behaviour: the cast of the rank, or an access behind the end
  -- of the sorted vector.
  unfoldable pub percentile : LatencyHistogram → Double → Option ℕ
  unfolding min max
  percentile h percentile_value =
      let sorted = sort h.samples in
      if is_empty h.samples
      then some 0
      else if le percentile_value (of_size 0)
      then some (min h)
      else if le (of_size 100) percentile_value
      then some (max h)
      else sample_at sorted (rank_of percentile_value (length sorted))

  unfoldable pub p50 : LatencyHistogram → Option ℕ
  unfolding percentile
  p50 h = percentile h (of_size 50)

  unfoldable pub p95 : LatencyHistogram → Option ℕ
  unfolding percentile
  p95 h = percentile h (of_size 95)

  unfoldable pub p99 : LatencyHistogram → Option ℕ
  unfolding percentile
  p99 h = percentile h (of_size 99)

  -- With the value of the literal `99.9`.
  unfoldable pub p999 : Double → LatencyHistogram → Option ℕ
  unfolding percentile
  p999 literal h = percentile h literal
