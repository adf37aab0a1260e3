-- ===== src/Apps/Scan/Limit.antt =====
-- What the limit of apps/aether_inspect_wal.cpp and apps/aether_replay.cpp lets their loop read.
use aether_stream.Common.{
  ℕ, zero, suc, ◌+◌, ◌-◌, ◌≤◌, ◌≡◌, refl, ap, ◌∙◌, Bool, true, false, not, ◌==◌, ltb, ◌&&◌, ◌||◌,
  if◌then◌else◌, Option, none, some, List, [], ◌∷◌, length, take, Bool-cases, inl, inr, arith,
}
use aether_stream.Core.Status.{Status, StatusCode, code_eq}
use aether_stream.Wal.Log.{Entry}

module _ (limit : ℕ) where
  -- `while (limit == 0 || count < limit)`.
  abbrev pub goes_on : ℕ → Bool
  goes_on count = limit == 0 || ltb count limit

  -- The entries that the loop reads, and the failure behind them.
  abbrev pub within : ℕ → List Entry → List Entry
  within count [] = []
  within count (e ∷ es) = let rest = within (count + 1) es in if goes_on count then e ∷ rest else []

  abbrev pub stopped : ℕ → List Entry → Status → Option Status
  stopped count [] stop =
      if goes_on count
      then (if code_eq stop.code StatusCode.empty then none else some stop)
      else none
  stopped count (e ∷ es) stop =
      let rest = stopped (count + 1) es stop in if goes_on count then rest else none

  within_all : (es : List Entry) (count : ℕ) → (limit == 0) ≡ true → within count es ≡ es
  within_all [] count unlimited = refl
  within_all (e ∷ es) count unlimited =
      rw unlimited (ap (λ (l : List Entry). e ∷ l) (within_all es (count + 1) unlimited))

  within_first :
      (es : List Entry) (count n : ℕ)
      → (limit == 0) ≡ false
      → limit - count ≡ n
      → within count es ≡ take n es
  within_first [] count zero limited left = refl
  within_first [] count (suc n) limited left = refl
  within_first (e ∷ es) count zero limited left =
      let stops : ltb count limit ≡ false = ground arith in rw (limited, stops)
  within_first (e ∷ es) count (suc n) limited left =
      let goes : ltb count limit ≡ true = ground arith in
      rw (limited, goes)
        (ap (λ (l : List Entry). e ∷ l)
          (within_first es (count + 1) n limited (omega (arith, left))))

  -- The loop from the start reads all entries, or the first `limit`.
  pub within_eq : (es : List Entry) → within 0 es ≡ (if limit == 0 then es else take limit es)
  within_eq es = elim (Bool-cases (limit == 0)) [
    | inl unlimited ↦ rw (within_all es 0 unlimited, unlimited)
    | inr limited ↦ rw (within_first es 0 limit limited (omega arith), limited)
  ]

  stopped_from :
      (es : List Entry) (count n : ℕ) (stop : Status)
      → count + length es ≡ n
      → stopped count es stop ≡ stopped n [] stop
  stopped_from [] count n stop end = let e : count ≡ n = omega (arith, end) in rw e
  stopped_from (e ∷ es) count n stop end = elim (Bool-cases (goes_on count)) [
    | inl goes ↦ rw goes (stopped_from es (count + 1) n stop (omega (arith, end)))
    | inr stops ↦ let later : goes_on n ≡ false = ground (arith, stops, end) in rw (stops, later)
  ]

  -- It comes to the ending if its limit is not reached with the last entry.
  stopped_eq : (es : List Entry) (stop : Status) → stopped 0 es stop ≡ stopped (length es) [] stop
  stopped_eq es stop = stopped_from es 0 (length es) stop (omega arith)

  pub failure_eq :
      (es : List Entry) (stop : Status)
      → stopped 0 es stop ≡ (
          if (limit == 0 || ltb (length es) limit) && not (code_eq stop.code StatusCode.empty)
          then some stop
          else none)
  failure_eq es stop = stopped_eq es stop ∙ elim (Bool-cases (goes_on (length es))) [
    | inl goes ↦ elim (Bool-cases (code_eq stop.code StatusCode.empty)) [
      | inl e ↦ rw (goes, e)
      | inr e ↦ rw (goes, e)
    ]
    | inr stops ↦ rw stops
  ]

  pub length-within-le : (count : ℕ) (es : List Entry) → length (within count es) ≤ length es
  length-within-le count [] = omega arith
  length-within-le count (e ∷ es) = elim (Bool-cases (goes_on count)) [
    | inl goes ↦ rw goes (omega (arith, length-within-le (count + 1) es))
    | inr stops ↦ rw stops (omega arith)
  ]
