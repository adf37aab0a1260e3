-- ===== src/ZeroCopy.antt =====
-- include/aether/zero_copy_spsc.hpp: `ZeroCopySpsc<T, Capacity>` and its `Reservation`. A pointer
-- to a slot is the slot's number, and the pointer to the queue is whether there is one.
pub mod Protocol
pub mod Repr
pub mod Session
pub mod Steps
pub mod Ends
pub mod Consumes
pub mod Refine
pub mod Threads
use aether_stream.Common.{
  ℕ, Bool, true, false, not, ◌||◌, leb, if◌then◌else◌, Option, none, some, List, get_elem?, set,
}
use aether_stream.Ring
use aether_stream.Ring.{Ring, slot_index, sub_size, next_size, init}

-- The slots and the two counters are declared and used as those of `SpscRingBuffer`.
pub record ZeroCopySpsc {ℓ} (T : Type ℓ) : Type ℓ where
  pub ring : Ring T
  pub active_reservation : Bool

pub record Reservation : Type 0 where
  pub attached : Bool
  pub index : ℕ
  pub ptr : Option ℕ
  pub constructed : Bool

-- `Reservation{}`, and what `commit`, `cancel` and a move leave behind.
abbrev pub no_reservation : Reservation
no_reservation = record { attached = false; index = 0; ptr = none; constructed = false }

abbrev pub detach : Reservation → Reservation
detach r = record r { attached = false; ptr = none; constructed = false }

-- `get`: the pointer to the object, or null.
unfoldable pub get : Reservation → Option ℕ
get r = if r.constructed then r.ptr else none

-- `move_from`: this reservation and the other, after the move.
unfoldable pub move_from : Reservation → Reservation × Reservation
move_from other = (other, detach other)

module _ {ℓ} {T : Type ℓ} where
  -- `std::destroy_at` and `std::construct_at` through a pointer. `none` is undefined behaviour: a
  -- null pointer, the end of a lifetime that has not begun, or an object over one that lives.
  abbrev pub destroy_slot : ℕ → List (Option T) → Option (Option T) → Option (List (Option T))
  destroy_slot p buffer (some (some x)) = some (set buffer p none)
  destroy_slot p buffer _ = none

  abbrev pub destroy_at : Option ℕ → List (Option T) → Option (List (Option T))
  destroy_at none buffer = none
  destroy_at (some p) buffer = destroy_slot p buffer (get_elem? buffer p)

  abbrev pub construct_slot : ℕ → T → List (Option T) → Option (Option T) → Option (List (Option T))
  construct_slot p x buffer (some none) = some (set buffer p (some x))
  construct_slot p x buffer _ = none

  abbrev pub construct_at : Option ℕ → T → List (Option T) → Option (List (Option T))
  construct_at none x buffer = none
  construct_at (some p) x buffer = construct_slot p x buffer (get_elem? buffer p)

  -- `if (constructed_) std::destroy_at(ptr_)`.
  abbrev pub destroy_constructed : Reservation → List (Option T) → Option (List (Option T))
  destroy_constructed r buffer = if r.constructed then destroy_at r.ptr buffer else some buffer

  abbrev pub with_buffer : ZeroCopySpsc T → List (Option T) → ZeroCopySpsc T
  with_buffer s buffer = record s { ring = record s.ring { buffer = buffer } }

  abbrev pub constructed_in :
      ZeroCopySpsc T
      → Reservation
      → Option (List (Option T))
      → Option (ZeroCopySpsc T × Reservation)
  constructed_in s r none = none
  constructed_in s r (some buffer) = some (with_buffer s buffer, record r { constructed = true })

  -- The part of `construct` behind the end of an earlier object.
  abbrev pub construct_free :
      ZeroCopySpsc T
      → Reservation
      → T
      → Option (List (Option T))
      → Option (ZeroCopySpsc T × Reservation)
  construct_free s r x none = none
  construct_free s r x (some free) = constructed_in s r (construct_at r.ptr x free)

  -- `Reservation::construct`, with the value that its arguments construct.
  unfoldable pub construct :
      ZeroCopySpsc T → Reservation → T → Option (ZeroCopySpsc T × Reservation)
  construct s r x = construct_free s r x (destroy_constructed r s.ring.buffer)

  -- `Reservation::commit`.
  unfoldable pub commit : ZeroCopySpsc T → Reservation → Bool × ZeroCopySpsc T × Reservation
  commit s r = if not r.attached || not r.constructed then (false, s, r) else (
    true,
    record s { ring = record s.ring { head = next_size r.index }; active_reservation = false },
    detach r,
  )

  -- The end of `cancel`.
  abbrev pub release :
      ZeroCopySpsc T
      → Reservation
      → Option (List (Option T))
      → Option (ZeroCopySpsc T × Reservation)
  release s r none = none
  release s r (some buffer) =
      some (record (with_buffer s buffer) { active_reservation = false }, detach r)

  -- `Reservation::cancel`, which the destructor calls.
  unfoldable pub cancel : ZeroCopySpsc T → Reservation → Option (ZeroCopySpsc T × Reservation)
  cancel s r =
      if not r.attached then some (s, r) else release s r (destroy_constructed r s.ring.buffer)

  -- The move assignment from another reservation.
  unfoldable pub move_assign :
      ZeroCopySpsc T → Reservation → Reservation → Option (ZeroCopySpsc T × Reservation)
  unfolding cancel move_from
  move_assign s r other = elim (cancel s r) [
    | none ↦ none
    | some (s', r') ↦ some (s', (move_from other).0)
  ]

  module _ (cap : ℕ) where
    -- A queue as it is constructed.
    abbrev pub make : ZeroCopySpsc T
    make = record { ring = init cap; active_reservation = false }

    unfoldable pub try_reserve : ZeroCopySpsc T → Option Reservation × ZeroCopySpsc T
    try_reserve s =
        let head = s.ring.head in
        if s.active_reservation
        then (none, s)
        else if leb cap (sub_size head s.ring.tail)
        then (none, record s { active_reservation = false })
        else (
          some (record {
            attached = true;
            index = head;
            ptr = some (slot_index cap head);
            constructed = false;
          }),
          record s { active_reservation = true },
        )

    abbrev pub with_popped :
        ZeroCopySpsc T → Option (Bool × T × Ring T) → Option (Bool × T × ZeroCopySpsc T)
    with_popped s none = none
    with_popped s (some (done, out, ring)) = some (done, out, record s { ring = ring })

    -- `try_consume(out)`, word for word the body of `SpscRingBuffer::try_pop`.
    unfoldable pub try_consume : ZeroCopySpsc T → T → Option (Bool × T × ZeroCopySpsc T)
    try_consume s out = with_popped s (Ring.try_pop cap s.ring out)

    unfoldable pub empty : ZeroCopySpsc T → Bool
    empty s = Ring.empty cap s.ring

    unfoldable pub size_approx : ZeroCopySpsc T → ℕ
    size_approx s = Ring.size_approx cap s.ring

    unfoldable pub full : ZeroCopySpsc T → Bool
    unfolding size_approx
    full s = leb cap (size_approx s)

    -- `destroy_remaining`, which the destructor calls.
    unfoldable pub destroy_remaining : ZeroCopySpsc T → Option (List (Option T))
    destroy_remaining s = Ring.destroy_remaining cap s.ring
