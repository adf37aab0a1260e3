-- ===== src/Ring/Repr.antt =====
-- When a ring holds a queue, and what follows for its slots and counters.
use aether_stream.Common.{
  ℕ, zero, suc, ◌+◌, ◌-◌, ◌*◌, ◌%◌, ◌^◌, ◌≤◌, ◌<◌, ◌≡◌, ap, ◌∙◌, true, none, some, List, [], arith,
  length, get_elem?, bit_and-mask, pow_of_disjoint, pow-add, mod-mul-mod, ◌↔◌, dec_lt,
  get_elem?-replicate, length-replicate,
}
use native.Mathlib.Nat.{pow-le-pow_right, mod-lt}
use aether_stream.Core.Types.{u64_mod}
use aether_stream.Ring.{Ring, static_asserts, slot_index, sub_size, init}

-- What the model needs of a capacity: a power of two from 2 to `2 ^ 63`.
pub record IsCapacity (cap : ℕ) : Type 0 where
  pub exponent : ℕ
  pub pow : cap ≡ 2 ^ exponent
  pub pos : 1 ≤ exponent
  pub fits : exponent ≤ 63

-- A power of two below `2 ^ 64` has an exponent of at most 63.
exponent_fits : (k : ℕ) → 2 ^ k < u64_mod → k ≤ 63
exponent_fits k h = elim (dec_lt k 64) [
  | yes p ↦ omega arith
  | no p ↦
      absurd (omega (arith, pow-le-pow_right {n = 2} (omega arith) {i = 64} {j = k} (omega arith)))
]

one_le_exponent : (k : ℕ) → 2 ≤ 2 ^ k → 1 ≤ k
one_le_exponent zero h = absurd (omega arith)
one_le_exponent (suc k) h = omega arith

-- The `static_assert`s let only such capacities through.
pub static_asserts-IsCapacity :
    (cap : ℕ) → static_asserts cap ≡ true → cap < u64_mod → IsCapacity cap
static_asserts-IsCapacity cap h small =
    let two : 2 ≤ cap = ground arith in
    let (k, e) = pow_of_disjoint cap (omega arith) (ground arith) in
    record {
      exponent = k;
      pow = e;
      pos = one_le_exponent k (omega arith);
      fits = exponent_fits k (omega arith);
    }

module _ {cap : ℕ} (c : IsCapacity cap) where
  pub cap_bounds : (2 ≤ cap) × (cap ≤ 2 ^ 63)
  cap_bounds = (
    omega (arith, c.pow, pow-le-pow_right {n = 2} (omega arith) {i = 1} {j = c.exponent} c.pos),
    omega (arith, c.pow, pow-le-pow_right {n = 2} (omega arith) {i = c.exponent} {j = 63} c.fits),
  )

  -- The capacity divides the range of the counters.
  pub cap_divides : u64_mod ≡ cap * 2 ^ (64 - c.exponent)
  cap_divides =
      rw (c.pow, ← pow-add 2 c.exponent (64 - c.exponent))
        (ap (λ (t : ℕ). 2 ^ t)
          (let e : 64 ≡ c.exponent + (64 - c.exponent) = omega (arith, c.fits) in e))

  -- The mask takes the remainder by the capacity.
  pub slot_index-eq-mod : (i : ℕ) → slot_index cap i ≡ i % cap
  slot_index-eq-mod i = rw c.pow (bit_and-mask c.exponent i)

  -- A counter's wrap does not move its slot.
  pub slot_index-wrap : (i : ℕ) → slot_index cap (i % u64_mod) ≡ i % cap
  slot_index-wrap i =
      slot_index-eq-mod (i % u64_mod) ∙ (rw cap_divides (mod-mul-mod cap (2 ^ (64 - c.exponent)) i))

  pub wrap-mod : (i : ℕ) → i % u64_mod % cap ≡ i % cap
  wrap-mod i = rw cap_divides (mod-mul-mod cap (2 ^ (64 - c.exponent)) i)

-- A ring holds a queue: the counters are as far apart as the queue is long, its values live in
-- the slots from `tail` on, going round, and no other slot holds an object.
pub record Holds {ℓ} {T : Type ℓ} (cap : ℕ) (r : Ring T) (q : List T) : Type ℓ where
  pub storage : length r.buffer ≡ cap
  pub head_fits : r.head < u64_mod
  pub tail_fits : r.tail < u64_mod
  pub count : (r.tail + length q) % u64_mod ≡ r.head
  pub bounded : length q ≤ cap
  pub slots : (i : ℕ) → i < cap → get_elem? r.buffer ((r.tail + i) % cap) ≡ some (get_elem? q i)

-- A ring is constructed empty.
pub init-Holds {ℓ} : {T : Type ℓ} (cap : ℕ) → IsCapacity cap → Holds {T = T} cap (init cap) []
init-Holds cap c = record {
  storage = length-replicate cap none;
  head_fits = omega arith;
  tail_fits = omega arith;
  count = omega arith;
  bounded = omega arith;
  slots =
      λ i h. get_elem?-replicate cap ((0 + i) % cap) none (mod-lt (0 + i) {m = cap} (omega arith));
}

module _ {ℓ} {T : Type ℓ} {cap : ℕ} (c : IsCapacity cap) {r : Ring T} {q : List T} where
  -- The distance of the counters, which may have wrapped, is the length of the queue.
  pub sub_size-eq-length : Holds cap r q → sub_size r.head r.tail ≡ length q
  sub_size-eq-length h = omega (arith, cap_bounds c)

  -- The counters are equal exactly when the queue is empty.
  pub tail-eq-head_iff : Holds cap r q → (r.tail ≡ r.head) ↔ (length q ≡ 0)
  tail-eq-head_iff h = (λ e. omega (arith, cap_bounds c), λ e. omega (arith, cap_bounds c))

  -- A live slot or a free one, at each offset from `tail`.
  pub slot_at :
      Holds cap r q
      → (i : ℕ) → i < cap
      → get_elem? r.buffer (slot_index cap ((r.tail + i) % u64_mod)) ≡ some (get_elem? q i)
  slot_at h i lt = rw (slot_index-wrap c (r.tail + i)) (h.slots i lt)
