-- ===== src/Utils/Backoff.antt =====
-- The two backoff helpers give the same hints.
use aether_stream.Common.{
  ℕ, zero, suc, ◌+◌, ◌%◌, ◌≤◌, ◌<◌, ◌≡◌, refl, ap, ap₂, Bool, true, false, ltb, List, [], ◌∷◌,
  Bool-cases, inl, inr, arith, dec_lt,
}
use aether_stream.Core.Types.{u32_mod}
use aether_stream.Utils.{Hint, SpinWait, make, pause, wait}

-- The hints of calls in a row.
abbrev pub hints : (SpinWait → Hint × SpinWait) → ℕ → SpinWait → List Hint
hints call zero s = []
hints call (suc n) s = let (hint, s') = call s in hint ∷ hints call n s'

-- The first counter runs on where the second stands still.
record Beside (s t : SpinWait) : Type 0 where
  iterations : t.pause_iterations ≡ s.pause_iterations
  yielding : t.yield_after_spin ≡ s.yield_after_spin
  early : s.count < s.pause_iterations → t.count ≡ s.count
  late : s.pause_iterations ≤ s.count → t.count ≡ s.pause_iterations
  fits : s.pause_iterations < u32_mod

-- Both are still in their first calls, or neither is.
same_phase :
    (s t : SpinWait) → Beside s t → ltb s.count s.pause_iterations ≡ ltb t.count t.pause_iterations
same_phase s t b = elim (dec_lt s.count s.pause_iterations) [
  | yes lt ↦ rw (b.iterations, b.early lt)
  | no ge ↦
      let e = b.late (omega arith) in
      let a : ltb s.count s.pause_iterations ≡ false = ground arith in
      let c : ltb s.pause_iterations s.pause_iterations ≡ false = ground arith in
      rw (b.iterations, e, a, c)
]

same_hint : (s t : SpinWait) → Beside s t → (pause s).0 ≡ (wait t).0
unfolding pause wait
same_hint s t b =
    rw (same_phase s t b, ← b.yielding)
      (elim (Bool-cases (ltb t.count t.pause_iterations)) [
        | inl e ↦ rw e
        | inr e ↦ elim (Bool-cases t.yield_after_spin) [ inl y ↦ rw (e, y) | inr y ↦ rw (e, y) ]
      ])

still-Beside : (s t : SpinWait) → Beside s t → s.count + 1 < u32_mod → Beside (pause s).1 (wait t).1
unfolding pause wait
still-Beside s t b few =
    let next : (s.count + 1) % u32_mod ≡ s.count + 1 = omega (arith, few) in
    elim (dec_lt s.count s.pause_iterations) [
      | yes lt ↦
          let same = b.early lt in
          let a : ltb t.count t.pause_iterations ≡ true = ground (arith, same, b.iterations, lt) in
          rw (next, a)
            (record {
              iterations = b.iterations;
              yielding = b.yielding;
              early = λ h. omega (arith, same, few);
              late = λ h. omega (arith, same, few, lt);
              fits = b.fits;
            })
      | no ge ↦
          let done = b.late (omega arith) in
          let a : ltb t.count t.pause_iterations ≡ false = ground (arith, done, b.iterations) in
          rw (next, a)
            (record {
              iterations = b.iterations;
              yielding = b.yielding;
              early = λ h. absurd (omega arith);
              late = λ h. done;
              fits = b.fits;
            })
    ]

count-pause : (s : SpinWait) → s.count + 1 < u32_mod → (pause s).1.count ≡ s.count + 1
unfolding pause
count-pause s few = omega (arith, few)

hints_from :
    (n : ℕ) (s t : SpinWait) → Beside s t → s.count + n ≤ u32_mod → hints pause n s ≡ hints wait n t
hints_from zero s t b few = refl
hints_from (suc zero) s t b few = ap (λ (h : Hint). h ∷ []) (same_hint s t b)
hints_from (suc (suc n)) s t b few =
    let rest =
      hints_from (suc n) (pause s).1 (wait t).1 (still-Beside s t b (omega arith))
        (omega (arith, count-pause s (omega arith))) in
    ap₂ (λ (h : Hint) (l : List Hint). h ∷ l) (same_hint s t b) rest

-- New helpers of the same settings, called equally often, give the same hints for the first
-- `2 ^ 32` calls, whatever the settings are. (Behind them, the counter of `pause` has wrapped.)
pub hints_agree :
    (pause_iterations n : ℕ) (yield_after_spin : Bool)
    → pause_iterations < u32_mod
    → n ≤ u32_mod
    → hints pause n (make pause_iterations yield_after_spin)
      ≡ hints wait n (make pause_iterations yield_after_spin)
hints_agree pause_iterations n yield_after_spin fits few =
    let s = make pause_iterations yield_after_spin in
    hints_from n s s
      (record {
        iterations = refl;
        yielding = refl;
        early = λ h. refl;
        late = λ h. omega arith;
        fits = fits;
      })
      (omega (arith, few))
