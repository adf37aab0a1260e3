-- ===== src/Ring/Run.antt =====
-- Whole lives of a ring: a client's calls in order, and the destructor.
use native.Mathlib.Nat.{add-mod-mod, add-mul-mod_self_left, mod-eq_of_lt, div-add-mod, mod-lt}
use aether_stream.Common.{
  ℕ, zero, suc, ◌+◌, ◌-◌, ◌*◌, ◌/◌, ◌%◌, ◌≤◌, ◌<◌, ◌≡◌, refl, ap, ◌∙◌, Bool, true, false, Option,
  none, some, List, [], ◌∷◌, arith, length, get_elem?, ◌==◌,
}
use aether_stream.Ring.{Ring, init, try_push, try_pop, destroy_from, destroy_remaining}
use aether_stream.Ring.Queue
use aether_stream.Ring.Repr.{IsCapacity, Holds, init-Holds, tail-eq-head_iff}
use aether_stream.Ring.Ops.{try_push_refines, try_pop_refines, consume-Holds, tail_slot_live}

-- A client's call, with the value that it pushes or that its `out` holds before.
pub data Call {ℓ} (T : Type ℓ) : Type ℓ where
  pushes : T → Call T
  pops : T → Call T

-- What a client sees of a call: the result, and `out` after a pop.
abbrev pub Reply {ℓ} : Type ℓ → Type ℓ
Reply T = Bool × Option T

module _ {ℓ} {T : Type ℓ} (cap : ℕ) where
  -- The replies of a ring to calls in order; `none` is undefined behaviour in one of them.
  unfoldable pub run : Ring T → List (Call T) → Option (List (Reply T))
  run r [] = some []
  run r (pushes x ∷ calls) =
      let (done, r') = try_push cap r x in
      elim (run r' calls) [ none ↦ none | some replies ↦ some ((done, none) ∷ replies) ]
  run r (pops out ∷ calls) = elim (try_pop cap r out) [
    | none ↦ none
    | some (done, out', r') ↦ elim (run r' calls) [
      | none ↦ none
      | some replies ↦ some ((done, some out') ∷ replies)
    ]
  ]

  -- The replies of the bounded queue.
  unfoldable pub run_queue : List T → List (Call T) → List (Reply T)
  run_queue q [] = []
  run_queue q (pushes x ∷ calls) =
      let (done, q') = Queue.push cap q x in (done, none) ∷ run_queue q' calls
  run_queue q (pops out ∷ calls) =
      let (done, out', q') = Queue.pop q out in (done, some out') ∷ run_queue q' calls

  run_from :
      IsCapacity cap
      → (calls : List (Call T)) {r : Ring T} (q : List T) → Holds cap r q
      → run r calls ≡ some (run_queue q calls)
  unfolding run run_queue
  run_from c [] q h = refl
  run_from c (pushes x ∷ calls) {r} q h =
      let (e, h') = try_push_refines c x h in rw (run_from c calls (Queue.push cap q x).1 h', e)
  run_from c (pops out ∷ calls) {r} q h =
      let (r', e, h') = try_pop_refines c q out h in
      rw (e, run) (rw (run_from c calls (Queue.pop q out).2 h'))

  -- No sequence of calls on a new ring, however long and so however often its counters wrap, is
  -- undefined behaviour or tells the ring from the bounded first-in first-out queue.
  pub run_refines :
      IsCapacity cap → (calls : List (Call T)) → run (init cap) calls ≡ some (run_queue [] calls)
  run_refines c calls = run_from c calls [] (init-Holds cap c)

  -- No slot holds an object.
  abbrev pub AllFree : List (Option T) → Type ℓ
  AllFree buf = (i : ℕ) → i < cap → get_elem? buf i ≡ some none

-- Each slot stands at some offset from `tail`.
offset_of : (cap t j : ℕ) → 0 < cap → j < cap → (t + (j + (cap - t % cap)) % cap) % cap ≡ j
offset_of cap t j pos lt =
    add-mod-mod t (j + (cap - t % cap)) cap
    ∙ ap (λ (s : ℕ). s % cap) regroup
    ∙ add-mul-mod_self_left j cap (t / cap + 1)
    ∙ mod-eq_of_lt lt
  where
    regroup : t + (j + (cap - t % cap)) ≡ j + cap * (t / cap + 1)
    regroup = omega (arith, div-add-mod t cap, mod-lt t {m = cap} pos)

module _ {ℓ} {T : Type ℓ} {cap : ℕ} (c : IsCapacity cap) where
  AllFree-of_empty : {r : Ring T} → Holds cap r [] → AllFree cap r.buffer
  AllFree-of_empty {r} h j lt = rw (← offset_of cap r.tail j (omega arith) lt) (
      h.slots ((j + (cap - r.tail % cap)) % cap)
        (mod-lt (j + (cap - r.tail % cap)) {m = cap} (omega arith)))

  destroy_from_lem :
      (rounds : ℕ) (q : List T) {r : Ring T}
      → Holds cap r q
      → length q ≤ rounds
      → (buf : List (Option T)) × (destroy_from cap rounds r.buffer r.tail r.head ≡ some buf)
        × AllFree cap buf
  unfolding destroy_from
  destroy_from_lem zero [] {r} h le =
      let e : r.tail ≡ r.head = (tail-eq-head_iff c h).1 refl in
      (r.buffer, ground arith, AllFree-of_empty h)
  destroy_from_lem zero (x ∷ q) h le = absurd (omega arith)
  destroy_from_lem (suc rounds) [] {r} h le =
      let e : (r.tail == r.head) ≡ true = ground (arith, (tail-eq-head_iff c h).1 refl) in
      (r.buffer, rw e, AllFree-of_empty h)
  destroy_from_lem (suc rounds) (x ∷ q) {r} h le =
      let ne : (r.tail == r.head) ≡ false = ground (arith, (tail-eq-head_iff c h).0) in
      let (buf, e, free) = destroy_from_lem rounds q (consume-Holds c h) (omega arith) in
      (buf, rw (ne, tail_slot_live c h) e, free)

  -- The destructor ends, ends the lifetime of live objects only, and of all of them: afterwards no
  -- slot holds an object.
  pub destroy_remaining_lem :
      {r : Ring T} (q : List T)
      → Holds cap r q
      → (buf : List (Option T)) × (destroy_remaining cap r ≡ some buf) × AllFree cap buf
  unfolding destroy_remaining
  destroy_remaining_lem q h = destroy_from_lem cap q h h.bounded
