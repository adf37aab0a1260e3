-- ===== src/Ring/Queue.antt =====
-- What a ring promises: a first-in first-out queue of at most `cap` values, oldest first.
use aether_stream.Common.{ℕ, Bool, true, false, leb, if◌then◌else◌, List, [], ◌∷◌, ◌++◌, length}

module _ {ℓ} {T : Type ℓ} where
  unfoldable pub push : ℕ → List T → T → Bool × List T
  push cap q x = if leb cap (length q) then (false, q) else (true, q ++ x ∷ [])

  unfoldable pub pop : List T → T → Bool × T × List T
  pop [] out = (false, out, [])
  pop (x ∷ q) out = (true, x, q)
