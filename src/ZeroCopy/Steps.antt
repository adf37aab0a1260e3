-- ===== src/ZeroCopy/Steps.antt =====
-- Reserving and constructing do what the protocol says.
use aether_stream.Common.{
  ℕ, ◌<◌, ◌≡◌, refl, ap, ◌∙◌, true, false, none, some, List, Option, Bool, arith, length, set, leb,
  if◌then◌else◌, Bool-cases, inl, inr,
}
use aether_stream.Ring.{slot_index}
use aether_stream.Ring.Repr.{IsCapacity, Holds}
use aether_stream.Ring.Ops.{produce-Holds, full-eq, head_slot_free}
use aether_stream.ZeroCopy.{
  ZeroCopySpsc, Reservation, try_reserve, move_assign, construct, with_buffer, destroy_constructed,
  destroy_at, destroy_slot, construct_at, construct_slot, construct_free, constructed_in,
}
use aether_stream.ZeroCopy.Protocol.{
  closed, reserved, filled, reserves, constructs, Reply, Spec, answer,
}
use aether_stream.ZeroCopy.Repr.{Owns, Idle, Open, Full, StandsFor, room, reserved_live, drop-Holds}
use aether_stream.ZeroCopy.Session.{Stepped, after_change, after_reserve, step}

module _ {ℓ} {T : Type ℓ} {cap : ℕ} (c : IsCapacity cap) where
  -- A call did what the protocol says, and one that it forbids is undefined behaviour.
  abbrev pub Does : Stepped T → Option (Reply T × Spec T) → Type ℓ
  Does out none = out ≡ none
  Does out (some said) =
      (s : ZeroCopySpsc T) × (r : Reservation) × (out ≡ some (said.0, s, r))
      × StandsFor cap s r said.1.queue said.1.pending

  try_reserve_full :
      (s : ZeroCopySpsc T) (q : List T)
      → s.active_reservation ≡ false
      → Holds cap s.ring q
      → leb cap (length q) ≡ true
      → try_reserve cap s ≡ (none, record s { active_reservation = false })
  unfolding try_reserve
  try_reserve_full s q e h full = rw (e, full-eq c h, full)

  -- What a new reservation of the slot at `head` is.
  abbrev fresh : ZeroCopySpsc T → Reservation
  fresh s = record {
    attached = true;
    index = s.ring.head;
    ptr = some (slot_index cap s.ring.head);
    constructed = false;
  }

  try_reserve_free :
      (s : ZeroCopySpsc T) (q : List T)
      → s.active_reservation ≡ false
      → Holds cap s.ring q
      → leb cap (length q) ≡ false
      → try_reserve cap s ≡ (some (fresh s), record s { active_reservation = true })
  unfolding try_reserve
  try_reserve_free s q e h free = rw (e, full-eq c h, free)

  try_reserve_active :
      (s : ZeroCopySpsc T) → s.active_reservation ≡ true → try_reserve cap s ≡ (none, s)
  unfolding try_reserve
  try_reserve_active s e = rw e

  -- The move assignment to a reservation variable that holds none.
  move_assign_detached :
      (s : ZeroCopySpsc T) (r r' : Reservation)
      → r.attached ≡ false
      → move_assign s r r' ≡ some (s, r')
  unfolding move_assign
  move_assign_detached s r r' e = rw e

  pub reserves_closed :
      (s : ZeroCopySpsc T) (r : Reservation) (q : List T)
      → Idle cap s r q
      → Does (step cap s r reserves) (answer cap q closed reserves)
  unfolding step answer
  reserves_closed s r q i = elim (Bool-cases (leb cap (length q))) [
    | inl is_full ↦ rw is_full (
      record s { active_reservation = false },
      r,
      ap (after_reserve r) (try_reserve_full s q i.inactive i.holds is_full),
      record {
        inactive = refl;
        detached = i.detached;
        unbuilt = i.unbuilt;
        nowhere = i.nowhere;
        holds = i.holds;
      },
    )
    | inr free ↦
        let s' = record s { active_reservation = true } in
        rw free (
          s',
          fresh s,
          ap (after_reserve r) (try_reserve_free s q i.inactive i.holds free)
              ∙ ap after_change (move_assign_detached s' r (fresh s) i.detached),
          record {
            owns = record {
              active = refl;
              attached = refl;
              index = refl;
              ptr = refl;
              built = refl;
            };
            room = ground arith;
            holds = i.holds;
          },
        )
  ]

  -- While there is a reservation, there is no other.
  pub reserves_active :
      (s : ZeroCopySpsc T) (r : Reservation)
      → s.active_reservation ≡ true
      → step cap s r reserves ≡ some ((false, none), s, r)
  unfolding step
  reserves_active s r e = ap (after_reserve r) (try_reserve_active s e)

  -- No object lives in a reserved slot; in a filled one the value does, and its life ends.
  pub destroy_open :
      (s : ZeroCopySpsc T) (r : Reservation)
      → Owns cap s r false
      → destroy_constructed r s.ring.buffer ≡ some s.ring.buffer
  destroy_open s r o =
      ap (λ (b : Bool). if b then destroy_at r.ptr s.ring.buffer else some s.ring.buffer) o.built

  pub destroy-Full :
      (s : ZeroCopySpsc T) (r : Reservation) (q : List T) (y : T)
      → Full cap s r q y
      → destroy_constructed r s.ring.buffer
        ≡ some (set s.ring.buffer (slot_index cap s.ring.head) none)
  destroy-Full s r q y f =
      let buffer = s.ring.buffer in
      ap (λ (b : Bool). if b then destroy_at r.ptr buffer else some buffer) f.owns.built
      ∙ ap (λ (p : Option ℕ). destroy_at p buffer) f.owns.ptr
      ∙ ap (destroy_slot (slot_index cap s.ring.head) buffer)
          (reserved_live c q y f.head_fits f.holds)

  -- A free slot takes the value.
  construct_in_free :
      (s : ZeroCopySpsc T) (r : Reservation) (q : List T) (x : T) (free : List (Option T))
      (b : Bool)
      → Owns cap s r b
      → length q < cap
      → Holds cap (record s.ring { buffer = free }) q
      → construct_free s r x (some free)
        ≡ some (
          with_buffer s (set free (slot_index cap s.ring.head) (some x)),
          record r { constructed = true },
        )
  construct_in_free s r q x free b o room h = ap (constructed_in s r) (
      ap (λ (p : Option ℕ). construct_at p x free) o.ptr
      ∙ ap (construct_slot (slot_index cap s.ring.head) x free) (head_slot_free c h room))

  construct_eq :
      (s : ZeroCopySpsc T) (r : Reservation) (x : T) (free : List (Option T))
      → destroy_constructed r s.ring.buffer ≡ some free
      → construct s r x ≡ construct_free s r x (some free)
  unfolding construct
  construct_eq s r x free e = ap (construct_free s r x) e

  with_value_Full :
      (s : ZeroCopySpsc T) (r : Reservation) (q : List T) (x : T) (free : List (Option T))
      (b : Bool)
      → Owns cap s r b
      → length q < cap
      → Holds cap (record s.ring { buffer = free }) q
      → Full cap
          (with_buffer s (set free (slot_index cap s.ring.head) (some x)))
          (record r { constructed = true })
          q
          x
  with_value_Full s r q x free b o room h = record {
    owns = record {
      active = o.active;
      attached = o.attached;
      index = o.index;
      ptr = o.ptr;
      built = refl;
    };
    head_fits = h.head_fits;
    holds = produce-Holds c x h room;
  }

  pub constructs_reserved :
      (s : ZeroCopySpsc T) (r : Reservation) (q : List T) (x : T)
      → Open cap s r q
      → Does (step cap s r (constructs x)) (answer cap q reserved (constructs x))
  unfolding step answer
  constructs_reserved s r q x o = (
    _,
    _,
    ap after_change (
        construct_eq s r x s.ring.buffer (destroy_open s r o.owns)
        ∙ construct_in_free s r q x s.ring.buffer false o.owns o.room o.holds),
    with_value_Full s r q x s.ring.buffer false o.owns o.room o.holds,
  )

  pub constructs_filled :
      (s : ZeroCopySpsc T) (r : Reservation) (q : List T) (x y : T)
      → Full cap s r q y
      → Does (step cap s r (constructs x)) (answer cap q (filled y) (constructs x))
  unfolding step answer
  constructs_filled s r q x y f =
      let free = set s.ring.buffer (slot_index cap s.ring.head) none in
      (
        _,
        _,
        ap after_change (
            construct_eq s r x free (destroy-Full s r q y f)
            ∙ construct_in_free s r q x free true f.owns (room c q y f.head_fits f.holds)
                (drop-Holds c q y f.head_fits f.holds)),
        with_value_Full s r q x free true f.owns (room c q y f.head_fits f.holds)
            (drop-Holds c q y f.head_fits f.holds),
      )

  -- Without a reservation there is no slot to construct in.
  pub constructs_closed :
      (s : ZeroCopySpsc T) (r : Reservation) (q : List T) (x : T)
      → Idle cap s r q
      → step cap s r (constructs x) ≡ none
  unfolding step construct
  constructs_closed s r q x i = rw (i.unbuilt, i.nowhere)
