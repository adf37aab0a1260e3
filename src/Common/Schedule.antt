-- ===== src/Common/Schedule.antt =====
-- The turns of threads in the order of a schedule, where a turn may be a fault.
use mathlib.Core.Path.{◌≡◌, ap, ◌∙◌}
use mathlib.Core.Option.{Option, none, some}
use mathlib.Core.List.{List, [], ◌∷◌, ◌++◌}

module _ {ℓ κ} {A : Type ℓ} {S : Type κ} (turn : A → S → Option S) where
  unfoldable pub run_turns : List A → S → Option S
  run_turns [] s = some s
  run_turns (a ∷ schedule) s = elim (turn a s) [ none ↦ none | some s' ↦ run_turns schedule s' ]

  pub run_turns-cons :
      (a : A) (schedule : List A) (s s' : S)
      → turn a s ≡ some s'
      → run_turns (a ∷ schedule) s ≡ run_turns schedule s'
  unfolding run_turns
  run_turns-cons a schedule s s' e =
      ap (λ (o : Option S). elim o [ none ↦ none | some next ↦ run_turns schedule next ]) e

  -- Where no turn is a fault and each keeps `P`, what can follow at once can follow any schedule.
  pub run_turns-then {ω π} :
      (P : S → Type ω) (Q : S → Type π) (more : List A)
      → ((a : A) (s : S) → P s → (s' : S) × (turn a s ≡ some s') × P s')
      → ((s : S) → P s → (s' : S) × (run_turns more s ≡ some s') × Q s')
      → (schedule : List A) (s : S) → P s
      → (s' : S) × (run_turns (schedule ++ more) s ≡ some s') × Q s'
  run_turns-then P Q more keep ends [] s p = ends s p
  run_turns-then P Q more keep ends (a ∷ schedule) s p =
      let (next, e, p') = keep a s p in
      let (s', e', q) = run_turns-then P Q more keep ends schedule next p' in
      (s', run_turns-cons a (schedule ++ more) s next e ∙ e', q)
