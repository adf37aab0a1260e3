-- ===== src/ZeroCopy/Refine.antt =====
-- The zero-copy queue implements its protocol.
use aether_stream.Common.{
  ℕ, ◌≡◌, refl, true, none, some, List, [], ◌∷◌, Option, inl, inr, Option-cases, set,
}
use aether_stream.Ring.{slot_index}
use aether_stream.Ring.Repr.{IsCapacity, init-Holds}
use aether_stream.Ring.Run.{AllFree, destroy_remaining_lem}
use aether_stream.ZeroCopy.{ZeroCopySpsc, Reservation, no_reservation, make, destroy_remaining}
use aether_stream.ZeroCopy.Protocol.{
  Pending, closed, reserved, filled, Call, Reply, Spec, reserves, constructs, commits, cancels,
  consumes, answer,
}
use aether_stream.ZeroCopy.Repr.{Idle, StandsFor, drop-Holds}
use aether_stream.ZeroCopy.Session.{step, run, run_spec, finish}
use aether_stream.ZeroCopy.Steps.{
  Does, reserves_closed, reserves_active, constructs_closed, constructs_reserved, constructs_filled,
  destroy_open, destroy-Full,
}
use aether_stream.ZeroCopy.Ends.{commits_nothing, commits_filled, cancel_attached, cancel_detached}
use aether_stream.ZeroCopy.Consumes.{consumes_closed, consumes_reserved, consumes_filled}

module _ {ℓ} {T : Type ℓ} {cap : ℕ} (c : IsCapacity cap) where
  -- Each call keeps what the queue stands for, and answers as the protocol does.
  step_refines :
      (s : ZeroCopySpsc T) (r : Reservation) (q : List T) (p : Pending T) (call : Call T)
      → StandsFor cap s r q p
      → Does c (step cap s r call) (answer cap q p call)
  unfolding answer
  step_refines s r q closed reserves h = reserves_closed c s r q h
  step_refines s r q reserved reserves h = (s, r, reserves_active c s r h.owns.active, h)
  step_refines s r q (filled y) reserves h = (s, r, reserves_active c s r h.owns.active, h)
  step_refines s r q closed (constructs x) h = constructs_closed c s r q x h
  step_refines s r q reserved (constructs x) h = constructs_reserved c s r q x h
  step_refines s r q (filled y) (constructs x) h = constructs_filled c s r q x y h
  step_refines s r q closed commits h = (s, r, commits_nothing c s r (rw h.detached), h)
  step_refines s r q reserved commits h =
      (s, r, commits_nothing c s r (rw (h.owns.attached, h.owns.built)), h)
  step_refines s r q (filled y) commits h = commits_filled c s r q y h
  step_refines s r q closed cancels h = (s, r, cancel_detached c s r h.detached, h)
  step_refines s r q reserved cancels h = (
    _,
    _,
    cancel_attached c s r s.ring.buffer h.owns.attached (destroy_open c s r h.owns),
    record { inactive = refl; detached = refl; unbuilt = refl; nowhere = refl; holds = h.holds },
  )
  step_refines s r q (filled y) cancels h = (
    _,
    _,
    cancel_attached c s r (set s.ring.buffer (slot_index cap s.ring.head) none) h.owns.attached
        (destroy-Full c s r q y h),
    record {
      inactive = refl;
      detached = refl;
      unbuilt = refl;
      nowhere = refl;
      holds = drop-Holds c q y h.head_fits h.holds;
    },
  )
  step_refines s r q closed (consumes out) h = consumes_closed c s r q out h
  step_refines s r q reserved (consumes out) h = consumes_reserved c s r q out h
  step_refines s r q (filled y) (consumes out) h = consumes_filled c s r q out y h

  start_Idle : Idle cap (make {T = T} cap) no_reservation []
  start_Idle = record {
    inactive = refl;
    detached = refl;
    unbuilt = refl;
    nowhere = refl;
    holds = init-Holds cap c;
  }

  run_from :
      (calls : List (Call T)) (s : ZeroCopySpsc T) (r : Reservation) (q : List T) (p : Pending T)
      → StandsFor cap s r q p
      → run cap s r calls ≡ run_spec cap (record { queue = q; pending = p }) calls
  unfolding run run_spec
  run_from [] s r q p h = refl
  run_from (call ∷ calls) s r q p h =
      let does = step_refines s r q p call h in
      elim (Option-cases (answer cap q p call)) [
        | inl forbidden ↦ let wrong = rw forbidden at does in rw (forbidden, wrong, run, run_spec)
        | inr (said, e) ↦
            let (s', r', stepped, h') = rw e at does in
            rw (e, stepped, run, run_spec, run_from calls s' r' said.1.queue said.1.pending h')
      ]

  -- Whatever the calls of a client with one reservation variable on a new zero-copy queue, and
  -- however many: where the protocol forbids one, a construction without a reservation, the session
  -- is undefined behaviour; all others are defined, and answer as the protocol does: a bounded
  -- first-in first-out queue that has at most one reservation at a time and shows no value before
  -- its commit.
  pub sessions_refine :
      (calls : List (Call T))
      → run cap (make cap) no_reservation calls
        ≡ run_spec cap (record { queue = []; pending = closed }) calls
  sessions_refine calls = run_from calls (make cap) no_reservation [] closed start_Idle

  cancel_closes :
      (s : ZeroCopySpsc T) (r : Reservation) (q : List T) (p : Pending T)
      → StandsFor cap s r q p
      → Does c (step cap s r cancels) (some ((true, none), record { queue = q; pending = closed }))
  unfolding answer
  cancel_closes s r q closed h = step_refines s r q closed cancels h
  cancel_closes s r q reserved h = step_refines s r q reserved cancels h
  cancel_closes s r q (filled y) h = step_refines s r q (filled y) cancels h

  -- The protocol admits all calls of a session.
  abbrev pub Admits : Spec T → List (Call T) → Type ℓ
  Admits k calls = (replies : List (Reply T)) × (run_spec cap k calls ≡ some replies)

  Admits-head :
      (k : Spec T) (call : Call T) (calls : List (Call T))
      → Admits k (call ∷ calls)
      → (said : Reply T × Spec T) × (answer cap k.queue k.pending call ≡ some said)
        × Admits said.1 calls
  unfolding run_spec
  Admits-head k call calls (replies, e) = elim (Option-cases (answer cap k.queue k.pending call)) [
    | inl forbidden ↦ let wrong = rw (forbidden, run_spec) at e in cc
    | inr (said, e') ↦ elim (Option-cases (run_spec cap said.1 calls)) [
      | inl none_left ↦ let wrong = rw (e', run_spec, none_left) at e in cc
      | inr (rest, more) ↦ (said, e', (rest, more))
    ]
  ]

  finish_from :
      (calls : List (Call T)) (s : ZeroCopySpsc T) (r : Reservation) (q : List T) (p : Pending T)
      → StandsFor cap s r q p
      → Admits (record { queue = q; pending = p }) calls
      → (buffer : List (Option T)) × (finish cap s r calls ≡ some buffer) × AllFree cap buffer
  unfolding finish destroy_remaining
  finish_from [] s r q p h a =
      let (s', r', e, h') = cancel_closes s r q p h in
      let (buffer, freed, free) = destroy_remaining_lem c q h'.holds in
      (buffer, rw (e, finish, freed), free)
  finish_from (call ∷ calls) s r q p h a =
      let (said, admitted, rest) = Admits-head (record { queue = q; pending = p }) call calls a in
      let does = step_refines s r q p call h in
      let (s', r', e, h') = rw admitted at does in
      let (buffer, freed, free) = finish_from calls s' r' said.1.queue said.1.pending h' rest in
      (buffer, rw (e, finish, freed), free)

  -- Wherever a session that its protocol admits ends, the destructor of the reservation and then
  -- that of the queue are defined and end the life of each object: no slot holds one afterwards.
  pub sessions_finish :
      (calls : List (Call T))
      → Admits (record { queue = []; pending = closed }) calls
      → (buffer : List (Option T)) × (finish cap (make cap) no_reservation calls ≡ some buffer)
        × AllFree cap buffer
  sessions_finish calls admitted =
      finish_from calls (make cap) no_reservation [] closed start_Idle admitted
