-- ===== src/Ring/Threads/Progress.antt =====
-- Both calls are wait-free: a thread ends its call with at most three more of its own accesses,
-- whatever the other thread does in between.
use aether_stream.Common.{
  ℕ, ◌+◌, ◌≤◌, ◌<◌, ◌≡◌, Option, some, List, [], ◌∷◌, ◌++◌, refl, arith, sym, ap, ◌∙◌, subst,
  dec_lt,
}
use aether_stream.Ring.Repr.{IsCapacity}
use aether_stream.Ring.Threads.{Producer, Consumer, System, start, Turn, run, step}
use aether_stream.Ring.Threads.Inv.{SystemInv, start-SystemInv}
use aether_stream.Ring.Threads.Safety.{step-Goes, run-Goes, get_or_start}
use aether_stream.Ring.Threads.Moves.{
  producer_left, consumer_left, producer_left-le, consumer_left-le, producer_rests, consumer_rests,
  own_producer, own_consumer, count, ProducerMoved, ConsumerMoved, producer_steps, consumer_steps,
}

-- A number of accesses left that each own access lowers and no other raises.
module _ {ℓ} {T : Type ℓ} {cap : ℕ} (ok : IsCapacity cap) (left : System T → ℕ) (own : Turn T → ℕ)
    (lowers : (s s' : System T) (turn : Turn T)
      → step cap s turn ≡ some s'
      → 0 < left s
      → left s' + own turn ≤ left s) where
  -- Within as many own accesses, none is left.
  ends :
      (turns : List (Turn T)) (s : System T)
      → SystemInv cap s
      → left s ≤ count own turns
      → (first rest : List (Turn T)) × (s' : System T) × (turns ≡ first ++ rest)
        × (run cap s first ≡ some s')
        × (left s' ≡ 0)
        × (count own first ≤ left s)
  unfolding run
  ends [] s v enough = ([], [], s, refl, refl, omega arith, omega arith)
  ends (turn ∷ turns) s v enough = elim (dec_lt 0 (left s)) [
    | no done ↦ ([], turn ∷ turns, s, refl, refl, omega arith, omega arith)
    | yes pos ↦
        let (s1, e, v1) = step-Goes ok s turn v in
        let lower = lowers s s1 turn e pos in
        let (first, rest, s', split, ran, none_left, few) = ends turns s1 v1 (omega arith) in
        (
          turn ∷ first,
          rest,
          s',
          ap (λ (l : List (Turn T)). turn ∷ l) split,
          rw (e, run) ran,
          none_left,
          omega arith,
        )
  ]

module _ {ℓ} {T : Type ℓ} {cap : ℕ} (ok : IsCapacity cap) where
  -- A part of the schedule, with at most three accesses of the thread, behind which it rests.
  abbrev pub EndsIn : System T → List (Turn T) → (Turn T → ℕ) → (System T → Type ℓ) → Type ℓ
  EndsIn s more own Rests =
      (first rest : List (Turn T)) × (s' : System T) × (more ≡ first ++ rest)
      × (run cap s first ≡ some s')
      × Rests s'
      × (count own first ≤ 3)

  -- However the threads have run before and whatever their schedule is from there, if it gives each
  -- thread three accesses at least, the call of either thread has ended with the third of that
  -- thread's own accesses at the latest.
  pub calls_end :
      (turns more : List (Turn T)) (s : System T)
      → run cap (start cap) turns ≡ some s
      → 3 ≤ count own_producer more
      → 3 ≤ count own_consumer more
      → EndsIn s more own_producer (λ s'. s'.producer ≡ Producer.resting)
        × EndsIn s more own_consumer (λ s'. s'.consumer ≡ Consumer.resting)
  calls_end turns more s e enough enough' =
      let (s0, e0, v0) = run-Goes ok (start cap) turns (start-SystemInv cap ok) in
      let same : s0 ≡ s = ap (λ (o : Option (System T)). get_or_start ok o) (sym e0 ∙ e) in
      let v = subst (λ (z : System T). SystemInv cap z) same v0 in
      let (first, rest, s', split, ran, done, few) =
        ends ok (λ z. producer_left z.producer) own_producer
          (λ z z' turn step_eq pos.
            subst (λ (o : Option (System T)). ProducerMoved z (own_producer turn) o) step_eq
              (producer_steps cap z turn pos))
          more s v (omega (arith, producer_left-le s.producer)) in
      let (first', rest', t', split', ran', done', few') =
        ends ok (λ z. consumer_left z.consumer) own_consumer
          (λ z z' turn step_eq pos.
            subst (λ (o : Option (System T)). ConsumerMoved z (own_consumer turn) o) step_eq
              (consumer_steps cap z turn pos))
          more s v (omega (arith, consumer_left-le s.consumer)) in
      (
        (
          first,
          rest,
          s',
          split,
          ran,
          producer_rests s'.producer done,
          omega (arith, few, producer_left-le s.producer),
        ),
        (
          first',
          rest',
          t',
          split',
          ran',
          consumer_rests t'.consumer done',
          omega (arith, few', consumer_left-le s.consumer),
        ),
      )
