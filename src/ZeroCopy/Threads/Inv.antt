-- ===== src/ZeroCopy/Threads/Inv.antt =====
-- The invariant of the two threads of the zero-copy queue: that of a ring whose producer has
-- constructed and not yet published while the reservation holds a value, and what the
-- producer knows.
use aether_stream.Common.{
  ℕ, ◌+◌, ◌%◌, ◌≤◌, ◌<◌, ◌≡◌, Bool, true, false, List, [], ◌∷◌, ◌++◌, append_assoc, length,
  length-append, refl, sym, ap, ◌∙◌, arith,
}
use aether_stream.Core.Types.{u64_mod}
use aether_stream.Ring.Repr.{IsCapacity}
use aether_stream.Ring.Threads
use aether_stream.Ring.Threads.{Producer}
use aether_stream.Ring.Threads.Inv.{pending_pop}
use aether_stream.Ring.Threads.Inv
use aether_stream.ZeroCopy.Threads.{Reserver, System, ring_system, start}

module _ {ℓ} {T : Type ℓ} where
  -- A value that is not committed is one that the ring's producer has not yet published.
  abbrev pub as_producer : Reserver T → Producer T
  as_producer (Reserver.filled head value) = Producer.constructed head
  as_producer _ = Producer.resting

  abbrev pub with_value : List T → Reserver T → List T
  with_value committed (Reserver.filled head value) = committed ++ value ∷ []
  with_value committed _ = committed

  -- The flag is set from the exchange that claims it to the store that gives it up.
  abbrev pub is_active : Reserver T → Bool
  is_active Reserver.resting = false
  is_active _ = true

  -- What the producer has loaded, where `used` slots at most are taken; a reservation without a
  -- value has room for one.
  abbrev pub Knows : ℕ → ℕ → ℕ → Reserver T → Type 0
  Knows cap head used (Reserver.loaded_head h) = (h ≡ head) × Unit {0}
  Knows cap head used (Reserver.loaded_both h t) =
      (n : ℕ) × (h ≡ head) × ((t + n) % u64_mod ≡ head) × (n ≤ cap) × (used ≤ n) × (t < u64_mod)
  Knows cap head used (Reserver.reserved h) = (h ≡ head) × (used < cap)
  Knows cap head used (Reserver.emptied h x) = (h ≡ head) × (used < cap)
  Knows cap head used (Reserver.filled h x) = (h ≡ head) × Unit {0}
  Knows cap head used Reserver.resting = Unit {0}
  Knows cap head used Reserver.claimed = Unit {0}
  Knows cap head used Reserver.releasing = Unit {0}

  -- More free slots leave it true.
  pub Knows-mono :
      (cap head : ℕ) {a b : ℕ} (p : Reserver T) → b ≤ a → Knows cap head a p → Knows cap head b p
  Knows-mono cap head (Reserver.loaded_head h) le k = k
  Knows-mono cap head (Reserver.loaded_both h t) le (n, p1, p2, p3, p4, p5) =
      (n, p1, p2, p3, omega arith, p5)
  Knows-mono cap head (Reserver.reserved h) le (e, room) = (e, omega arith)
  Knows-mono cap head (Reserver.emptied h x) le (e, room) = (e, omega arith)
  Knows-mono cap head (Reserver.filled h x) le k = k
  Knows-mono cap head Reserver.resting le k = k
  Knows-mono cap head Reserver.claimed le k = k
  Knows-mono cap head Reserver.releasing le k = k

  abbrev pub view : System T → Threads.System T
  view s = ring_system s (as_producer s.producer) (with_value s.committed s.producer)

  pub record SystemInv (cap : ℕ) (s : System T) : Type ℓ where
    pub ring : Inv.SystemInv cap (view s)
    pub knows : Knows cap s.ring.head (length ring.queue + pending_pop s.consumer) s.producer
    pub flag : s.active ≡ is_active s.producer

  pub start-SystemInv : (cap : ℕ) → IsCapacity cap → SystemInv cap (start cap)
  start-SystemInv cap c = record { ring = Inv.start-SystemInv cap c; knows = tt; flag = refl }

  -- Lists that end in one value have the same ones in front and the same last one.
  snoc_inj : (xs ys : List T) (x y : T) → xs ++ x ∷ [] ≡ ys ++ y ∷ [] → (xs ≡ ys) × (x ≡ y)
  snoc_inj [] [] x y e = (refl, cc)
  snoc_inj [] (b ∷ ys) x y e = absurd (omega (arith, ap length e, length-append ys (y ∷ [])))
  snoc_inj (a ∷ xs) [] x y e = absurd (omega (arith, ap length e, length-append xs (x ∷ [])))
  snoc_inj (a ∷ xs) (b ∷ ys) x y e = let (same, last) = snoc_inj xs ys x y (cc) in (cc, last)

  snoc_of : (y : T) (ys : List T) → (zs : List T) × (z : T) × (y ∷ ys ≡ zs ++ z ∷ [])
  snoc_of y [] = ([], y, refl)
  snoc_of y (z ∷ ys) = let (zs, last, e) = snoc_of z ys in (y ∷ zs, last, ap (λ l. y ∷ l) e)

  -- What follows the values taken ends in the last value, if it is not empty.
  pub last_queued :
      (taken queue committed : List T) (x : T)
      → taken ++ queue ≡ committed ++ x ∷ []
      → 1 ≤ length queue
      → (q : List T) × (queue ≡ q ++ x ∷ []) × (taken ++ q ≡ committed)
  last_queued taken [] committed x e some_value = absurd (omega arith)
  last_queued taken (y ∷ ys) committed x e some_value =
      let (q, z, split) = snoc_of y ys in
      let whole = ap (λ l. taken ++ l) split in
      let (same, last) =
        snoc_inj (taken ++ q) committed z x (append_assoc taken q (z ∷ []) ∙ sym whole ∙ e) in
      (q, split ∙ ap (λ v. q ++ v ∷ []) last, same)
