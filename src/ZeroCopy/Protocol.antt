-- ===== src/ZeroCopy/Protocol.antt =====
-- What the zero-copy queue promises: a bounded queue with at most one reservation under way, whose
-- value nobody sees before it is committed.
use aether_stream.Common.{
  ℕ, Bool, true, false, leb, if◌then◌else◌, Option, none, some, List, [], ◌∷◌, ◌++◌, length,
}
use aether_stream.Ring.Queue

-- The producer's reservation: none, one without a value yet, or one with a value.
pub data Pending {ℓ} (T : Type ℓ) : Type ℓ where
  closed : Pending T
  reserved : Pending T
  filled : T → Pending T

-- A client's call. The client holds one reservation variable.
pub data Call {ℓ} (T : Type ℓ) : Type ℓ where
  reserves : Call T
  constructs : T → Call T
  commits : Call T
  cancels : Call T
  consumes : T → Call T

-- What the client sees: the result, and `out` behind a `try_consume`.
abbrev pub Reply {ℓ} : Type ℓ → Type ℓ
Reply T = Bool × Option T

pub record Spec {ℓ} (T : Type ℓ) : Type ℓ where
  pub queue : List T
  pub pending : Pending T

module _ {ℓ} {T : Type ℓ} (cap : ℕ) where
  -- The result of a call on the queue and the reservation, and the two behind it; `none` is the
  -- call that the protocol forbids, a construction without a reservation.
  unfoldable pub answer : List T → Pending T → Call T → Option (Reply T × Spec T)
  answer q closed reserves =
      if leb cap (length q)
      then some ((false, none), record { queue = q; pending = closed })
      else some ((true, none), record { queue = q; pending = reserved })
  answer q reserved reserves = some ((false, none), record { queue = q; pending = reserved })
  answer q (filled y) reserves = some ((false, none), record { queue = q; pending = filled y })
  answer q closed (constructs x) = none
  answer q reserved (constructs x) = some ((true, none), record { queue = q; pending = filled x })
  answer q (filled y) (constructs x) = some ((true, none), record { queue = q; pending = filled x })
  answer q closed commits = some ((false, none), record { queue = q; pending = closed })
  answer q reserved commits = some ((false, none), record { queue = q; pending = reserved })
  answer q (filled y) commits =
      some ((true, none), record { queue = q ++ y ∷ []; pending = closed })
  answer q p cancels = some ((true, none), record { queue = q; pending = closed })
  answer q p (consumes out) =
      let (done, out', q') = Queue.pop q out in
      some ((done, some out'), record { queue = q'; pending = p })
