-- ===== src/ZeroCopy/Repr.antt =====
-- When a zero-copy queue and the producer's reservation stand for a queue and a pending value.
use native.Mathlib.Nat.{mod-lt}
use aether_stream.Common.{
  ℕ, ◌+◌, ◌%◌, ◌<◌, ◌≡◌, sym, ap, ◌∙◌, true, false, none, some, List, [], ◌∷◌, ◌++◌, Bool, arith,
  length, get_elem?, set, get_elem?-set_self, get_elem?-set_ne, get_elem?-snoc_last,
  get_elem?-snoc_ne, get_elem?_of_ge, length-set, length-append, ℕ_discrete,
}
use aether_stream.Core.Types.{u64_mod}
use aether_stream.Ring.{Ring, slot_index, sub_size, next_size}
use aether_stream.Ring.Repr.{IsCapacity, cap_bounds, slot_index-wrap, Holds}
use aether_stream.Ring.Ops.{offset_ne}
use aether_stream.ZeroCopy.Protocol.{Pending, closed, reserved, filled}
use aether_stream.ZeroCopy.{ZeroCopySpsc, Reservation}

-- The ring as it would stand with the reserved slot committed.
abbrev pub committed {ℓ} : {T : Type ℓ} → Ring T → Ring T
committed r = record r { head = next_size r.head }

module _ {ℓ} {T : Type ℓ} (cap : ℕ) where
  -- The reservation is that of the slot at `head`.
  pub record Owns (s : ZeroCopySpsc T) (r : Reservation) (constructed : Bool) : Type ℓ where
    pub active : s.active_reservation ≡ true
    pub attached : r.attached ≡ true
    pub index : r.index ≡ s.ring.head
    pub ptr : r.ptr ≡ some (slot_index cap s.ring.head)
    pub built : r.constructed ≡ constructed

  pub record Idle (s : ZeroCopySpsc T) (r : Reservation) (q : List T) : Type ℓ where
    pub inactive : s.active_reservation ≡ false
    pub detached : r.attached ≡ false
    pub unbuilt : r.constructed ≡ false
    pub nowhere : r.ptr ≡ none
    pub holds : Holds cap s.ring q

  pub record Open (s : ZeroCopySpsc T) (r : Reservation) (q : List T) : Type ℓ where
    pub owns : Owns s r false
    pub room : length q < cap
    pub holds : Holds cap s.ring q

  pub record Full (s : ZeroCopySpsc T) (r : Reservation) (q : List T) (x : T) : Type ℓ where
    pub owns : Owns s r true
    pub head_fits : s.ring.head < u64_mod
    pub holds : Holds cap (committed s.ring) (q ++ x ∷ [])

  -- The queue holds the committed values; the object of a filled reservation lives behind them.
  abbrev pub StandsFor : ZeroCopySpsc T → Reservation → List T → Pending T → Type ℓ
  StandsFor s r q closed = Idle s r q
  StandsFor s r q reserved = Open s r q
  StandsFor s r q (filled x) = Full s r q x

module _ {ℓ} {T : Type ℓ} {cap : ℕ} (c : IsCapacity cap) {r : Ring T} (q : List T) (x : T)
    (fits : r.head < u64_mod) (h : Holds cap (committed r) (q ++ x ∷ [])) where
  pub room : length q < cap
  room = omega (arith, h.bounded, length-append q (x ∷ []))

  pub head_eq : (r.tail + length q) % u64_mod ≡ r.head
  head_eq = omega (arith, h.count, h.tail_fits, length-append q (x ∷ []), room, cap_bounds c)

  slot_eq : slot_index cap r.head ≡ (r.tail + length q) % cap
  slot_eq = rw (← head_eq) (slot_index-wrap c (r.tail + length q))

  pub sub_size_eq : sub_size r.head r.tail ≡ length q
  sub_size_eq = omega (arith, head_eq, h.tail_fits, fits, room, cap_bounds c)

  -- The object lives in the reserved slot.
  pub reserved_live : get_elem? r.buffer (slot_index cap r.head) ≡ some (some x)
  reserved_live = rw slot_eq (h.slots (length q) room ∙ ap some (get_elem?-snoc_last q x))

  -- Ending its life leaves the ring with the committed values.
  pub drop-Holds : Holds cap (record r { buffer = set r.buffer (slot_index cap r.head) none }) q
  drop-Holds = record {
    storage = length-set r.buffer _ none ∙ h.storage;
    head_fits = fits;
    tail_fits = h.tail_fits;
    count = head_eq;
    bounded = omega (arith, room);
    slots = λ i lt. rw slot_eq (elim (ℕ_discrete (length q) i) [
      | yes e ↦
          rw (← e, get_elem?_of_ge q (length q) (omega arith))
            (get_elem?-set_self r.buffer ((r.tail + length q) % cap) none
              (omega (arith, h.storage, mod-lt (r.tail + length q) {m = cap} (omega arith))))
      | no ne ↦
          get_elem?-set_ne r.buffer ((r.tail + length q) % cap) ((r.tail + i) % cap) none
            (offset_ne cap r.tail (length q) i room lt ne)
          ∙ h.slots i lt
          ∙ ap some (get_elem?-snoc_ne q x i (λ e. ne (sym e)))
    ]);
  }
