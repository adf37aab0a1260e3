-- ===== src/Tools/Stress/Passes.antt =====
-- The stress tool reports success under every schedule that lets its threads end, and any schedule
-- can be continued so that they do.
use aether_stream.Common.{
  ℕ, zero, suc, ◌+◌, ◌≤◌, ◌<◌, ◌≡◌, refl, sym, ap, ◌∙◌, true, false, some, List, [], ◌∷◌, ◌++◌,
  append-nil, arith,
}
use aether_stream.Common.Schedule.{run_turns, run_turns-cons, run_turns-then}
use aether_stream.Core.Types.{u64_mod}
use aether_stream.Ring.Repr.{IsCapacity}
use aether_stream.Ring.Ops.{observers_lem}
use aether_stream.Tools.Stress.{
  Stress, Thread, producer, consumer, start, produce, turn, run, ended, passed, run_stress, verdict,
}
use aether_stream.Tools.Stress.Rounds.{
  length-numbers, Flows, start-Flows, produce-Fed, consume-Taken,
}

-- The producer and the consumer in turn, so many times.
abbrev pub in_turn : ℕ → List Thread
in_turn zero = []
in_turn (suc n) = producer ∷ consumer ∷ in_turn n

module _ {cap messages : ℕ} (c : IsCapacity cap) (small : messages < u64_mod) where
  turn-Flows :
      (thread : Thread) (s : Stress)
      → Flows c small s
      → (s' : Stress) × (turn cap messages thread s ≡ some s') × Flows c small s'
  unfolding turn
  turn-Flows producer s f = (_, refl, (produce-Fed c small s f).0)
  turn-Flows consumer s f = let (s', e, (f', _, _)) = consume-Taken c small s f in (s', e, f')

  -- Both loops have ended exactly if the verdict is success.
  ended-passed : (s : Stress) → Flows c small s → ended cap messages s ≡ passed cap messages s
  unfolding passed
  ended-passed s f =
      let drained = (observers_lem c f.holds).1 in
      let size = length-numbers s.expected f.inside in
      ground (arith, f.sound, f.told, f.count, f.below, drained, size)

  -- After so many rounds of each thread all numbers are through.
  in_turn_ends :
      (n : ℕ) (s : Stress)
      → Flows c small s
      → messages ≤ s.expected + n
      → (s' : Stress) × (run cap messages (in_turn n) s ≡ some s')
        × Flows c small s'
        × (messages ≤ s'.expected)
  unfolding run turn run_turns
  in_turn_ends zero s f all = (s, refl, f, omega (arith, all))
  in_turn_ends (suc n) s f all =
      let (fed, same, more) = produce-Fed c small s f in
      let (s', e, (f', _, taken)) = consume-Taken c small (produce cap messages s) fed in
      let (end, e', g, through) = in_turn_ends n s' f' (ground (arith, taken, more, same, all)) in
      (
        end,
        run_turns-cons (turn cap messages) consumer (in_turn n) (produce cap messages s) s' e ∙ e',
        g,
        through,
      )

  -- Under any schedule the tool runs without undefined behaviour of the ring, no number comes out of
  -- order, and once both threads have ended its verdict is success.
  pub stress_safe :
      (schedule : List Thread)
      → (s : Stress) × (run cap messages schedule (start cap messages) ≡ some s)
        × (s.failed ≡ false)
        × (s.expected ≤ s.value)
        × (s.value ≤ messages)
        × (passed cap messages s ≡ ended cap messages s)
  unfolding run run_turns
  stress_safe schedule =
      let (s, e, f) =
        run_turns-then (turn cap messages) (Flows c small) (Flows c small) [] turn-Flows
          (λ s f. (s, refl, f)) schedule (start cap messages) (start-Flows c small) in
      (s, rw append-nil at e, f.sound, omega (arith, f.count), f.below, sym (ended-passed s f))

  -- After any schedule, as many rounds of each thread in turn as there are numbers end both loops,
  -- and the tool reports success.
  pub stress_passes :
      (schedule : List Thread) → run_stress cap messages (schedule ++ in_turn messages) ≡ some true
  unfolding run_stress run
  stress_passes schedule =
      let (s, e, (f, through)) =
        run_turns-then (turn cap messages) (Flows c small)
          (λ s. Flows c small s × (messages ≤ s.expected)) (in_turn messages) turn-Flows
          (λ s f.
            let (s', e, g, through) = in_turn_ends messages s f (omega arith) in
            (s', e, (g, through)))
          schedule (start cap messages) (start-Flows c small) in
      let over : ended cap messages s ≡ true = ground (arith, f.sound, f.count, through) in
      ap (verdict cap messages) e ∙ rw (over, sym (ended-passed s f), over)
