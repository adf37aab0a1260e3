-- ===== src/ZeroCopy/Threads/Step.antt =====
-- No access of the reserving thread is a fault, and each keeps the invariant.
use aether_stream.Common.{
  ℕ, ◌+◌, ◌<◌, ◌≡◌, inl, inr, Bool, true, false, Option, some, none, List, [], ◌∷◌, ◌++◌, length,
  length-append, refl, arith, leb, Bool-cases, sym, ap, ◌∙◌, append_assoc, get_elem?, set, subst,
}
use aether_stream.Ring.{Ring, sub_size, slot_index}
use aether_stream.Ring.Repr.{IsCapacity, cap_bounds}
use aether_stream.Ring.Threads.{Producer, Consumer}
use aether_stream.Ring.Threads.Inv.{Inv, pending_pop}
use aether_stream.Ring.Threads.Inv
use aether_stream.Ring.Threads.Step.{
  load_head-Inv, load_tail-Inv, construct-Inv, retract-Inv, publish-Inv,
}
use aether_stream.ZeroCopy.Threads.{
  Request, reserves, constructs, commits, cancels, Reserver, System, claim_again, construct_in,
  destroy_in, produce, ring_system, is_stray, producer_turn,
}
use aether_stream.ZeroCopy.Threads.Inv.{SystemInv, last_queued}

module _ {ℓ} {T : Type ℓ} {cap : ℕ} (ok : IsCapacity cap) where
  -- An access is no fault, and leads to a system with the invariant.
  abbrev pub Goes : Option (System T) → Type ℓ
  Goes o = (s : System T) × (o ≡ some s) × SystemInv cap s

  abbrev pub system : Ring T → Bool → Reserver T → Consumer T → List T → List T → System T
  system r active p c committed taken = record {
    ring = r;
    active = active;
    producer = p;
    consumer = c;
    committed = committed;
    taken = taken;
  }

  module _ (r : Ring T) (active : Bool) (c : Consumer T) (committed taken : List T) where
    abbrev at : Reserver T → System T
    at p = system r active p c committed taken

    reserve-Goes :
        SystemInv cap (at Reserver.resting)
        → Goes (produce cap (at Reserver.resting) Reserver.resting reserves)
    unfolding produce
    reserve-Goes v = rw v.flag (_, refl, record { ring = v.ring; knows = tt; flag = refl })

    load_tail-Goes :
        (h : ℕ) (request : Request T)
        → SystemInv cap (at (Reserver.loaded_head h))
        → Goes (produce cap (at (Reserver.loaded_head h)) (Reserver.loaded_head h) request)
    unfolding produce
    load_tail-Goes h request v = (
      _,
      refl,
      record {
        ring = v.ring;
        knows = (
          length v.ring.queue + pending_pop c,
          v.knows.0,
          omega (arith, v.ring.inv.distance),
          v.ring.inv.room,
          omega arith,
          v.ring.inv.tail_fits,
        );
        flag = v.flag;
      },
    )

    answer-Goes :
        (h t : ℕ) (request : Request T)
        → SystemInv cap (at (Reserver.loaded_both h t))
        → Goes (produce cap (at (Reserver.loaded_both h t)) (Reserver.loaded_both h t) request)
    unfolding produce
    answer-Goes h t request v =
        let (n, p1, p2, p3, p4, p5) = v.knows in
        elim (Bool-cases (leb cap (sub_size h t))) [
          | inl is_full ↦ rw is_full (_, refl, record { ring = v.ring; knows = tt; flag = refl })
          | inr room ↦ rw room (
            _,
            refl,
            record { ring = v.ring; knows = (p1, ground (arith, cap_bounds ok)); flag = v.flag },
          )
        ]

    -- `construct` in the slot of a reservation that holds no value.
    construct-Goes :
        (p : Reserver T) (h : ℕ) (x : T)
        → (sys : Inv.SystemInv cap (ring_system (at p) Producer.resting committed)) → h ≡ r.head
        → length sys.queue + pending_pop c < cap
        → active ≡ true
        → Goes (construct_in cap (at p) h x (get_elem? r.buffer (slot_index cap h)))
    construct-Goes p h x sys e room flag =
        let now = load_tail-Inv ok x r.head (load_head-Inv ok x sys.inv) in
        let (free, kept) = construct-Inv ok x r.tail now room in
        rw e (
          rw (free, construct_in)
            (
              _,
              refl,
              record {
                ring = record {
                  queue = sys.queue ++ x ∷ [];
                  inv = kept;
                  history =
                      sym (append_assoc taken sys.queue (x ∷ []))
                      ∙ ap (λ (l : List T). l ++ x ∷ []) sys.history;
                };
                knows = (refl, tt);
                flag = flag;
              },
            ))

    -- The value of a reservation is destroyed, by a second `construct` or by `cancel`.
    abbrev emptied_at : Reserver T → System T
    emptied_at p =
        system (record r { buffer = set r.buffer (slot_index cap r.head) none }) active p c
          committed taken

    destroy-Goes :
        (h : ℕ) (x : T) (next : Reserver T)
        → SystemInv cap (at (Reserver.filled h x))
        → ((sys : Inv.SystemInv cap (ring_system (emptied_at next) Producer.resting committed))
            → length sys.queue + pending_pop c < cap
            → SystemInv cap (emptied_at next))
        → Goes (
            destroy_in cap
              (at (Reserver.filled h x))
              h
              next
              (get_elem? r.buffer (slot_index cap h)))
    destroy-Goes h x next v after =
        let e : h ≡ r.head = v.knows.0 in
        let (q, split, history) =
          last_queued taken v.ring.queue committed x v.ring.history v.ring.inv.published in
        let now = subst (λ k. Inv cap r (Producer.constructed k) c v.ring.queue) e v.ring.inv in
        let more = length-append q (x ∷ []) in
        let room : length q + pending_pop c < cap =
          omega (arith, v.ring.inv.room, ap length split, more) in
        let (live, kept) =
          retract-Inv ok x (subst (λ l. Inv cap r (Producer.constructed r.head) c l) split now) in
        rw e (
          rw (live, destroy_in)
            (_, refl, after (record { queue = q; inv = kept; history = history }) room))

    commit-Goes :
        (h : ℕ) (x : T)
        → SystemInv cap (at (Reserver.filled h x))
        → Goes (produce cap (at (Reserver.filled h x)) (Reserver.filled h x) commits)
    unfolding produce
    commit-Goes h x v =
        let e : h ≡ r.head = v.knows.0 in
        let now = subst (λ k. Inv cap r (Producer.constructed k) c v.ring.queue) e v.ring.inv in
        (
          _,
          refl,
          record {
            ring = record {
              queue = v.ring.queue;
              inv = rw e (publish-Inv ok now);
              history = v.ring.history;
            };
            knows = tt;
            flag = v.flag;
          },
        )

    again-Goes :
        (p : Reserver T) → active ≡ true → SystemInv cap (at p) → Goes (claim_again cap (at p))
    again-Goes p e v = rw e (_, refl, rw e at v)

    pub produce-Goes :
        (p : Reserver T) (request : Request T)
        → is_stray p (producer_turn request) ≡ false
        → SystemInv cap (at p)
        → Goes (produce cap (at p) p request)
    unfolding produce
    produce-Goes Reserver.resting reserves held v = reserve-Goes v
    produce-Goes Reserver.resting (constructs x) held v = cc
    produce-Goes Reserver.resting commits held v = (_, refl, v)
    produce-Goes Reserver.resting cancels held v = (_, refl, v)
    produce-Goes Reserver.claimed request held v =
        (_, refl, record { ring = v.ring; knows = (refl, tt); flag = v.flag })
    produce-Goes (Reserver.loaded_head h) request held v = load_tail-Goes h request v
    produce-Goes (Reserver.loaded_both h t) request held v = answer-Goes h t request v
    produce-Goes (Reserver.reserved h) reserves held v = again-Goes (Reserver.reserved h) v.flag v
    produce-Goes (Reserver.reserved h) (constructs x) held v =
        construct-Goes (Reserver.reserved h) h x v.ring v.knows.0 v.knows.1 v.flag
    produce-Goes (Reserver.reserved h) commits held v = (_, refl, v)
    produce-Goes (Reserver.reserved h) cancels held v =
        (_, refl, record { ring = v.ring; knows = tt; flag = refl })
    produce-Goes (Reserver.emptied h x) request held v =
        construct-Goes (Reserver.emptied h x) h x v.ring v.knows.0 v.knows.1 v.flag
    produce-Goes (Reserver.filled h x) reserves held v = again-Goes (Reserver.filled h x) v.flag v
    produce-Goes (Reserver.filled h x) (constructs y) held v =
        destroy-Goes h x (Reserver.emptied h y) v
          (λ sys room. record { ring = sys; knows = (v.knows.0, room); flag = v.flag })
    produce-Goes (Reserver.filled h x) commits held v = commit-Goes h x v
    produce-Goes (Reserver.filled h x) cancels held v =
        destroy-Goes h x Reserver.releasing v
          (λ sys room. record { ring = sys; knows = tt; flag = v.flag })
    produce-Goes Reserver.releasing request held v =
        (_, refl, record { ring = v.ring; knows = tt; flag = refl })
