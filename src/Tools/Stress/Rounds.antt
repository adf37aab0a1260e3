-- ===== src/Tools/Stress/Rounds.antt =====
-- What a round of either thread of the stress tool does to the numbers on their way.
use aether_stream.Common.{
  ℕ, zero, suc, ◌+◌, ◌%◌, ◌≤◌, ◌<◌, ◌≡◌, ◌⊎◌, inl, inr, refl, sym, ap, subst, ◌∙◌, Bool, true,
  false, not, ◌==◌, ltb, leb, ◌&&◌, if◌then◌else◌, some, List, [], ◌∷◌, ◌++◌, length, Bool-cases,
  arith,
}
use aether_stream.Core.Types.{u64_mod}
use aether_stream.Ring.{Ring, try_push, try_pop}
use aether_stream.Utils.{reset}
use aether_stream.Ring.Queue
use aether_stream.Ring.Repr.{IsCapacity, Holds, init-Holds, cap_bounds}
use aether_stream.Ring.Ops.{try_push_refines, try_pop_refines}
use aether_stream.Tools.Stress.{Stress, start, pushed, popped, popped_any, produce, consume}

-- So many numbers from one on.
abbrev pub numbers : ℕ → ℕ → List ℕ
numbers a zero = []
numbers a (suc n) = a ∷ numbers (a + 1) n

pub length-numbers : (a n : ℕ) → length (numbers a n) ≡ n
length-numbers a zero = refl
length-numbers a (suc n) = ap suc (length-numbers (a + 1) n)

numbers-snoc : (a n : ℕ) → numbers a n ++ (a + n) ∷ [] ≡ numbers a (suc n)
numbers-snoc a zero = let e : a + 0 ≡ a = omega arith in rw e
numbers-snoc a (suc n) =
    let e : a + suc n ≡ a + 1 + n = omega arith in rw e (ap (λ l. a ∷ l) (numbers-snoc (a + 1) n))

module _ {cap messages : ℕ} (c : IsCapacity cap) (small : messages < u64_mod) where
  -- The ring holds the numbers that are pushed and not popped, nothing has failed, and what was
  -- popped is counted.
  pub record Flows (s : Stress) : Type 0 where
    pub inside : ℕ
    pub holds : Holds cap s.queue (numbers s.expected inside)
    pub count : s.value ≡ s.expected + inside
    pub below : s.value ≤ messages
    pub sound : s.failed ≡ false
    pub told : s.consumed ≡ s.expected

  pub start-Flows : Flows (start cap messages)
  start-Flows = record {
    inside = 0;
    holds = init-Holds cap c;
    count = omega arith;
    below = omega arith;
    sound = refl;
    told = refl;
  }

  -- What the producer's round leaves: also a number for the consumer, unless all are popped.
  abbrev pub Fed : Stress → Stress → Type 0
  Fed s s' =
      Flows s' × (s'.expected ≡ s.expected) × ((messages ≤ s.expected) ⊎ (s.expected < s'.value))

  pushed-Fed :
      (s : Stress) (f : Flows s) (r : Bool × Ring ℕ)
      → s.value < messages
      → ((r.0 ≡ true) × Holds cap r.1 (numbers s.expected (suc f.inside)))
        ⊎ ((r.0 ≡ false) × Holds cap r.1 (numbers s.expected f.inside) × (0 < f.inside))
      → Fed s (pushed cap messages s r)
  pushed-Fed s f (true, queue) more (inl (_, h)) =
      let next : (s.value + 1) % u64_mod ≡ s.value + 1 = omega (arith, more, small) in
      (
        record {
          inside = suc f.inside;
          holds = h;
          count = omega (arith, next, f.count);
          below = omega (arith, next, more);
          sound = f.sound;
          told = f.told;
        },
        refl,
        inr (omega (arith, next, f.count)),
      )
  pushed-Fed s f (false, queue) more (inr (_, h, pos)) = (
    record {
      inside = f.inside;
      holds = h;
      count = f.count;
      below = f.below;
      sound = f.sound;
      told = f.told;
    },
    refl,
    inr (omega (arith, f.count, pos)),
  )
  pushed-Fed s f (false, queue) more (inl (e, _)) = cc
  pushed-Fed s f (true, queue) more (inr (e, _, _)) = cc

  pub produce-Fed : (s : Stress) → Flows s → Fed s (produce cap messages s)
  unfolding produce Queue.push
  produce-Fed s f = elim (Bool-cases (ltb s.value messages)) [
    | inr over ↦ rw over (f, refl, ground (arith, over, f.count))
    | inl more ↦
        let r = try_push cap s.queue s.value in
        let size = length-numbers s.expected f.inside in
        let (answer, h) = try_push_refines c s.value f.holds in
        let P : Bool → Type 0 = λ failed.
          Fed s (if ltb s.value messages && not failed then pushed cap messages s r else s) in
        subst P (sym f.sound) (
          rw more (
            pushed-Fed s f r (ground (arith, more))
              (elim (Bool-cases (leb cap (length (numbers s.expected f.inside)))) [
                | inl is_full ↦ inr (
                  rw is_full at answer,
                  rw is_full at h,
                  ground (arith, is_full, size, cap_bounds c),
                )
                | inr room ↦ inl (
                  rw room at answer,
                  (let last : numbers s.expected f.inside ++ s.value ∷ []
                          ≡ numbers s.expected (suc f.inside) =
                        ap (λ v. numbers s.expected f.inside ++ v ∷ []) f.count
                        ∙ numbers-snoc s.expected f.inside in
                      subst (Holds cap r.1) last (rw room at h)),
                )
              ])))
  ]

  -- What the consumer's round leaves: one number less in the ring, unless there is none.
  abbrev pub Taken : Stress → Stress → Type 0
  Taken s s' =
      Flows s'
      × (s'.value ≡ s.value)
      × (((s'.expected ≡ s.expected) × (s.value ≤ s.expected)) ⊎ (s'.expected ≡ s.expected + 1))

  pop_Taken :
      (s : Stress) (n : ℕ)
      → Holds cap s.queue (numbers s.expected n)
      → s.value ≡ s.expected + n
      → s.value ≤ messages
      → s.failed ≡ false
      → s.consumed ≡ s.expected
      → (s' : Stress) × (popped_any cap messages s (try_pop cap s.queue 0) ≡ some s') × Taken s s'
  unfolding Queue.pop
  pop_Taken s zero h count below sound told =
      let (queue, e, h') = try_pop_refines c [] 0 h in
      (
        popped cap messages s (false, 0, queue),
        ap (popped_any cap messages s) e,
        (
          record {
            inside = 0;
            holds = h';
            count = count;
            below = below;
            sound = sound;
            told = told;
          },
          refl,
          inl (refl, omega (arith, count)),
        ),
      )
  pop_Taken s (suc n) h count below sound told =
      let (queue, e, h') = try_pop_refines c (numbers s.expected (suc n)) 0 h in
      let right : (s.expected == s.expected) ≡ true = ground arith in
      let next : (s.expected + 1) % u64_mod ≡ s.expected + 1 = omega (arith, count, below, small) in
      let s' : Stress = popped cap messages s (true, s.expected, queue) in
      let s'' : Stress = record s {
        queue = queue;
        expected = s.expected + 1;
        consumed = s.expected + 1;
        consumer_spin = reset s.consumer_spin;
      } in
      let same : s' ≡ s'' = rw (right, next) in
      (
        s'',
        ap (popped_any cap messages s) e ∙ ap some same,
        (
          record {
            inside = n;
            holds = h';
            count = omega (arith, count);
            below = below;
            sound = sound;
            told = refl;
          },
          refl,
          inr refl,
        ),
      )

  pub consume-Taken :
      (s : Stress) → Flows s → (s' : Stress) × (consume cap messages s ≡ some s') × Taken s s'
  unfolding consume
  consume-Taken s f =
      let tries = popped_any cap messages s (try_pop cap s.queue 0) in
      let P : Bool → Type 0 = λ failed.
        (s' : Stress) × ((if ltb s.expected messages && not failed then tries else some s)
          ≡ some s')
        × Taken s s' in
      subst P (sym f.sound) (elim (Bool-cases (ltb s.expected messages)) [
        | inl more ↦ rw more (pop_Taken s f.inside f.holds f.count f.below f.sound f.told)
        | inr over ↦ rw over (s, refl, (f, refl, inl (refl, ground (arith, over, f.below))))
      ])
