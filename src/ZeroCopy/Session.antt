-- ===== src/ZeroCopy/Session.antt =====
-- Whole sessions of a client of the zero-copy queue, against the protocol.
use aether_stream.Common.{ℕ, true, false, none, some, List, [], ◌∷◌, Option, Bool}
use aether_stream.ZeroCopy.{
  ZeroCopySpsc, Reservation, try_reserve, move_assign, construct, commit, cancel, try_consume,
  destroy_remaining,
}
use aether_stream.ZeroCopy.Protocol.{
  Call, reserves, constructs, commits, cancels, consumes, Reply, Spec, answer,
}

abbrev pub Stepped {ℓ} : Type ℓ → Type ℓ
Stepped T = Option (Reply T × ZeroCopySpsc T × Reservation)

module _ {ℓ} {T : Type ℓ} where
  -- The results of the calls, as the client sees them.
  abbrev pub after_change : Option (ZeroCopySpsc T × Reservation) → Stepped T
  after_change none = none
  after_change (some (s, r)) = some ((true, none), s, r)

  abbrev pub after_reserve : Reservation → Option Reservation × ZeroCopySpsc T → Stepped T
  after_reserve r (none, s) = some ((false, none), s, r)
  after_reserve r (some r', s) = after_change (move_assign s r r')

  abbrev pub after_commit : Bool × ZeroCopySpsc T × Reservation → Stepped T
  after_commit (done, s, r) = some ((done, none), s, r)

  abbrev pub after_consume : Reservation → Option (Bool × T × ZeroCopySpsc T) → Stepped T
  after_consume r none = none
  after_consume r (some (done, out, s)) = some ((done, some out), s, r)

module _ {ℓ} {T : Type ℓ} (cap : ℕ) where
  -- A call of a client with one reservation variable: what it sees, and the state behind it.
  unfoldable pub step : ZeroCopySpsc T → Reservation → Call T → Stepped T
  step s r reserves = after_reserve r (try_reserve cap s)
  step s r (constructs x) = after_change (construct s r x)
  step s r commits = after_commit (commit s r)
  step s r cancels = after_change (cancel s r)
  step s r (consumes out) = after_consume r (try_consume cap s out)

  -- The client's replies; `none` is undefined behaviour in one of the calls.
  unfoldable pub run : ZeroCopySpsc T → Reservation → List (Call T) → Option (List (Reply T))
  run s r [] = some []
  run s r (call ∷ calls) = elim (step s r call) [
    | none ↦ none
    | some (reply, s', r') ↦ elim (run s' r' calls) [
      | none ↦ none
      | some replies ↦ some (reply ∷ replies)
    ]
  ]

  -- The session, then the reservation's destructor, which cancels, and the queue's.
  unfoldable pub finish : ZeroCopySpsc T → Reservation → List (Call T) → Option (List (Option T))
  finish s r [] = elim (step s r cancels) [
    | none ↦ none
    | some (reply, s', r') ↦ destroy_remaining cap s'
  ]
  finish s r (call ∷ calls) = elim (step s r call) [
    | none ↦ none
    | some (reply, s', r') ↦ finish s' r' calls
  ]

  -- The replies of the protocol; `none` is a session with a call that it forbids.
  unfoldable pub run_spec : Spec T → List (Call T) → Option (List (Reply T))
  run_spec k [] = some []
  run_spec k (call ∷ calls) = elim (answer cap k.queue k.pending call) [
    | none ↦ none
    | some (reply, k') ↦ elim (run_spec k' calls) [
      | none ↦ none
      | some replies ↦ some (reply ∷ replies)
    ]
  ]
