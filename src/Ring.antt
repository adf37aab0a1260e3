-- ===== src/Ring.antt =====
-- include/aether/spsc_ring_buffer.hpp: `SpscRingBuffer<T, Capacity>`, called by one thread at a
-- time. `Ring/Threads.antt` takes the calls apart into the accesses of two threads.
pub mod Queue
pub mod Repr
pub mod Ops
pub mod Run
pub mod Threads
use aether_stream.Common.{
  ℕ, zero, suc, ◌+◌, ◌-◌, ◌%◌, Bool, true, false, ◌==◌, leb, ltb, ◌&&◌, bit_and, if◌then◌else◌,
  Option, none, some, List, [], ◌∷◌, get_elem?, set, replicate,
}
use aether_stream.Core.Types.{u64_mod}

-- The two `static_assert`s on `Capacity`.
abbrev pub static_asserts : ℕ → Bool
static_asserts cap = bit_and cap (cap - 1) == 0 && leb 2 cap

-- The slots, and the two counters, which are `std::size_t` and wrap. A slot is `some x` while an
-- object lives in its storage, and `none` otherwise.
pub record Ring {ℓ} (T : Type ℓ) : Type ℓ where
  pub buffer : List (Option T)
  pub head : ℕ
  pub tail : ℕ

-- `a - b` and `a + 1` of `std::size_t`.
abbrev pub sub_size : ℕ → ℕ → ℕ
sub_size a b = (a + u64_mod - b) % u64_mod

abbrev pub next_size : ℕ → ℕ
next_size a = (a + 1) % u64_mod

module _ (cap : ℕ) where
  -- The slot that `slot_ptr(index)` points to: `index & mask_`.
  abbrev pub slot_index : ℕ → ℕ
  slot_index index = bit_and index (cap - 1)

  module _ {ℓ} {T : Type ℓ} where
    -- A ring as it is constructed.
    abbrev pub init : Ring T
    init = record { buffer = replicate cap none; head = 0; tail = 0 }

    -- `try_emplace`, with the value that its arguments construct. `try_push` of a copy and of a
    -- moved value call it.
    unfoldable pub try_emplace : Ring T → T → Bool × Ring T
    try_emplace r value = if leb cap (sub_size r.head r.tail) then (false, r) else (
      true,
      record r { buffer = set r.buffer (slot_index r.head) (some value); head = next_size r.head },
    )

    unfoldable pub try_push : Ring T → T → Bool × Ring T
    unfolding try_emplace
    try_push r value = try_emplace r value

    -- What `try_pop` does with the slot: it moves the object out and ends its lifetime. There is
    -- no object to move in a slot that holds none, which is undefined behaviour, `none`.
    abbrev pub pop_slot : Ring T → Option (Option T) → Option (Bool × T × Ring T)
    pop_slot r (some (some x)) = some (
      true,
      x,
      record r { buffer = set r.buffer (slot_index r.tail) none; tail = next_size r.tail },
    )
    pop_slot r _ = none

    -- `try_pop(out)`: the result, `out` after the call and the ring.
    unfoldable pub try_pop : Ring T → T → Option (Bool × T × Ring T)
    try_pop r out =
        if r.tail == r.head
        then some (false, out, r)
        else pop_slot r (get_elem? r.buffer (slot_index r.tail))

    unfoldable pub empty : Ring T → Bool
    empty r = r.head == r.tail

    unfoldable pub size_approx : Ring T → ℕ
    size_approx r = sub_size r.head r.tail

    unfoldable pub full : Ring T → Bool
    unfolding size_approx
    full r = leb cap (size_approx r)

    -- The loop of `destroy_remaining`, on the rounds left; `none` is the end of a lifetime that
    -- has not begun, or a loop that runs on after that many rounds.
    unfoldable pub destroy_from : ℕ → List (Option T) → ℕ → ℕ → Option (List (Option T))
    destroy_from zero buf tail head = if tail == head then some buf else none
    destroy_from (suc rounds) buf tail head =
        let rest = destroy_from rounds (set buf (slot_index tail) none) (next_size tail) head in
        if tail == head
        then some buf
        else elim (get_elem? buf (slot_index tail)) [ some (some x) ↦ rest | _ ↦ none ]

    -- `destroy_remaining`, which the destructor calls. Its loop makes at most `cap` rounds.
    unfoldable pub destroy_remaining : Ring T → Option (List (Option T))
    destroy_remaining r = destroy_from cap r.buffer r.tail r.head
