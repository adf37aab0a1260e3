-- ===== src/ZeroCopy/Ends.antt =====
-- What ends a reservation does what the protocol says: a commit and a cancel.
use aether_stream.Common.{
  ℕ, ◌≡◌, refl, ap, ◌∙◌, true, false, none, some, List, Option, Bool, not, ◌||◌, if◌then◌else◌,
}
use aether_stream.Ring.{next_size}
use aether_stream.Ring.Repr.{IsCapacity}
use aether_stream.ZeroCopy.{
  ZeroCopySpsc, Reservation, detach, commit, cancel, with_buffer, destroy_constructed, release,
}
use aether_stream.ZeroCopy.Protocol.{filled, commits, cancels, answer}
use aether_stream.ZeroCopy.Repr.{committed, Full}
use aether_stream.ZeroCopy.Session.{after_change, after_commit, step}
use aether_stream.ZeroCopy.Steps.{Does}

module _ {ℓ} {T : Type ℓ} {cap : ℕ} (c : IsCapacity cap) where
  commit-Full :
      (s : ZeroCopySpsc T) (r : Reservation) (q : List T) (y : T)
      → Full cap s r q y
      → commit s r
        ≡ (true, record s { ring = committed s.ring; active_reservation = false }, detach r)
  unfolding commit
  commit-Full s r q y f = rw (f.owns.attached, f.owns.built, commit, f.owns.index)

  pub commits_filled :
      (s : ZeroCopySpsc T) (r : Reservation) (q : List T) (y : T)
      → Full cap s r q y
      → Does c (step cap s r commits) (answer cap q (filled y) commits)
  unfolding step answer
  commits_filled s r q y f = (
    record s { ring = committed s.ring; active_reservation = false },
    detach r,
    ap after_commit (commit-Full s r q y f),
    record { inactive = refl; detached = refl; unbuilt = refl; nowhere = refl; holds = f.holds },
  )

  -- A commit without a value, or without a reservation, does nothing.
  commit_nothing :
      (s : ZeroCopySpsc T) (r : Reservation)
      → (not r.attached || not r.constructed) ≡ true
      → commit s r ≡ (false, s, r)
  unfolding commit
  commit_nothing s r e =
      ap
        (λ (b : Bool). if b then (false, s, r) else (
          true,
          record s {
            ring = record s.ring { head = next_size r.index };
            active_reservation = false;
          },
          detach r,
        ))
        e

  pub commits_nothing :
      (s : ZeroCopySpsc T) (r : Reservation)
      → (not r.attached || not r.constructed) ≡ true
      → step cap s r commits ≡ some ((false, none), s, r)
  unfolding step
  commits_nothing s r e = ap after_commit (commit_nothing s r e)

  -- `cancel` of a reservation frees it, and its value is destroyed.
  pub cancel_attached :
      (s : ZeroCopySpsc T) (r : Reservation) (buffer : List (Option T))
      → r.attached ≡ true
      → destroy_constructed r s.ring.buffer ≡ some buffer
      → step cap s r cancels
        ≡ some
            ((true, none), record (with_buffer s buffer) { active_reservation = false }, detach r)
  unfolding step cancel
  cancel_attached s r buffer a e =
      ap
        (λ (b : Bool).
          after_change
            (if not b then some (s, r) else release s r (destroy_constructed r s.ring.buffer)))
        a
      ∙ ap (λ (d : Option (List (Option T))). after_change (release s r d)) e

  pub cancel_detached :
      (s : ZeroCopySpsc T) (r : Reservation)
      → r.attached ≡ false
      → step cap s r cancels ≡ some ((true, none), s, r)
  unfolding step cancel
  cancel_detached s r a =
      ap
        (λ (b : Bool).
          after_change
            (if not b then some (s, r) else release s r (destroy_constructed r s.ring.buffer)))
        a
