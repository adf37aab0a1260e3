-- ===== src/Ring/Threads/Safety.antt =====
-- What holds of every interleaving of the two threads.
use aether_stream.Common.{
  ℕ, ◌+◌, ◌≤◌, ◌≡◌, inl, inr, Option, some, none, List, [], ◌∷◌, ◌++◌, length, refl, arith, false,
  leb, ◌==◌, Bool-cases, sym, ap, ◌∙◌, append_assoc, get_elem?, subst,
}
use aether_stream.Ring.{Ring, sub_size, slot_index, next_size}
use aether_stream.Ring.Repr.{IsCapacity, Holds}
use aether_stream.Ring.Threads.{
  Producer, Consumer, System, produce, consume, start, Turn, producer_turn, consumer_turn, run,
  construct_in, take_from, step,
}
use aether_stream.Ring.Threads.Inv.{Inv, SystemInv, start-SystemInv, pending_pop}
use aether_stream.Ring.Threads.Step.{
  load_head-Inv, load_tail-Inv, give_up-Inv, room_left, construct-Inv, publish-Inv,
  load_own_tail-Inv, load_their_head-Inv, find_empty-Inv, value_published, retire-Inv, take-Inv,
}

module _ {ℓ} {T : Type ℓ} {cap : ℕ} (ok : IsCapacity cap) where
  -- An access is no fault, and leads to a system with the invariant.
  abbrev pub Goes : Option (System T) → Type ℓ
  Goes o = (s : System T) × (o ≡ some s) × SystemInv cap s

  abbrev pub system : Ring T → Producer T → Consumer T → List T → List T → System T
  system r p c pushed taken = record {
    ring = r;
    producer = p;
    consumer = c;
    pushed = pushed;
    taken = taken;
  }

  construct-Goes :
      (r : Ring T) (c : Consumer T) (pushed taken : List T) (y : T) (h t : ℕ)
      → h ≡ r.head
      → leb cap (sub_size h t) ≡ false
      → SystemInv cap (system r (Producer.loaded_both y h t) c pushed taken)
      → let s = system r (Producer.loaded_both y h t) c pushed taken in
        Goes (construct_in cap s y h (get_elem? r.buffer (slot_index cap h)))
  construct-Goes r c pushed taken y h t e room v =
      let now = subst (λ k. Inv cap r (Producer.loaded_both y k t) c v.queue) e v.inv in
      let (free, kept) = construct-Inv ok y t now (room_left ok y h t v.inv room) in
      rw e (
        rw (free, construct_in)
          (
            _,
            refl,
            record {
              queue = v.queue ++ y ∷ [];
              inv = kept;
              history =
                  sym (append_assoc taken v.queue (y ∷ []))
                  ∙ ap (λ (l : List T). l ++ y ∷ []) v.history;
            },
          ))

  publish-Goes :
      (r : Ring T) (c : Consumer T) (pushed taken : List T) (h : ℕ)
      → h ≡ r.head
      → SystemInv cap (system r (Producer.constructed h) c pushed taken)
      → SystemInv cap (system (record r { head = next_size h }) Producer.resting c pushed taken)
  publish-Goes r c pushed taken h e v = record {
    queue = v.queue;
    inv = rw e (publish-Inv ok (subst (λ k. Inv cap r (Producer.constructed k) c v.queue) e v.inv));
    history = v.history;
  }

  produce-Goes :
      (r : Ring T) (p : Producer T) (c : Consumer T) (pushed taken : List T) (x : T)
      → SystemInv cap (system r p c pushed taken)
      → Goes (produce cap (system r p c pushed taken) p x)
  unfolding produce
  produce-Goes r Producer.resting c pushed taken x v =
      (_, refl, record { queue = v.queue; inv = load_head-Inv ok x v.inv; history = v.history })
  produce-Goes r (Producer.loaded_head y h) c pushed taken x v =
      (_, refl, record { queue = v.queue; inv = load_tail-Inv ok y h v.inv; history = v.history })
  produce-Goes r (Producer.loaded_both y h t) c pushed taken x v =
      elim (Bool-cases (leb cap (sub_size h t))) [
        | inl is_full ↦ rw is_full (
          _,
          refl,
          record { queue = v.queue; inv = give_up-Inv ok y h t v.inv; history = v.history },
        )
        | inr room ↦ rw room (construct-Goes r c pushed taken y h t v.inv.producer_knows.1 room v)
      ]
  produce-Goes r (Producer.constructed h) c pushed taken x v =
      (_, refl, publish-Goes r c pushed taken h v.inv.producer_knows.0 v)

  -- An access of the consumer is no fault, keeps the invariant, leaves alone what the producer writes
  -- and knows, and leaves no more values in the ring or on their way out of it.
  abbrev pub Consumes : (s : System T) → SystemInv cap s → Option (System T) → Type ℓ
  Consumes s v o =
      (r : Ring T) × (c : Consumer T) × (taken : List T) × (o
        ≡ some (system r s.producer c s.pushed taken))
      × (v' : SystemInv cap (system r s.producer c s.pushed taken)) × (r.head ≡ s.ring.head)
      × (length v'.queue + pending_pop c ≤ length v.queue + pending_pop s.consumer)

  take-Consumes :
      (r : Ring T) (p : Producer T) (pushed taken q : List T) (t h : ℕ)
      → t ≡ r.tail
      → (t == h) ≡ false
      → (v : Inv cap r p (Consumer.loaded_both t h) q) → (hist : taken ++ q ≡ pushed)
      → let s = system r p (Consumer.loaded_both t h) pushed taken in
        Consumes s
          (record { queue = q; inv = v; history = hist })
          (take_from cap s t (get_elem? r.buffer (slot_index cap t)))
  take-Consumes r p pushed taken [] t h e ne v hist =
      absurd (omega (arith, value_published ok t h v ne))
  take-Consumes r p pushed taken (x ∷ q) t h e ne v hist =
      let now = subst (λ k. Inv cap r p (Consumer.loaded_both k h) (x ∷ q)) e v in
      let (live, kept) = take-Inv ok h now (value_published ok t h v ne) in
      rw e (
        rw (live, take_from)
          (
            _,
            _,
            _,
            refl,
            record { queue = q; inv = kept; history = append_assoc taken (x ∷ []) q ∙ hist },
            refl,
            omega arith,
          ))

  retire-Goes :
      (r : Ring T) (p : Producer T) (pushed taken : List T) (t : ℕ)
      → t ≡ r.tail
      → SystemInv cap (system r p (Consumer.destroyed t) pushed taken)
      → SystemInv cap (system (record r { tail = next_size t }) p Consumer.resting pushed taken)
  retire-Goes r p pushed taken t e v = record {
    queue = v.queue;
    inv = rw e (retire-Inv ok (subst (λ k. Inv cap r p (Consumer.destroyed k) v.queue) e v.inv));
    history = v.history;
  }

  pub consume-Consumes :
      (r : Ring T) (p : Producer T) (c : Consumer T) (pushed taken : List T)
      → (v : SystemInv cap (system r p c pushed taken))
      → Consumes (system r p c pushed taken) v (consume cap (system r p c pushed taken) c)
  unfolding consume retire-Goes
  consume-Consumes r p Consumer.resting pushed taken v = (
    _,
    _,
    _,
    refl,
    record { queue = v.queue; inv = load_own_tail-Inv ok v.inv; history = v.history },
    refl,
    omega arith,
  )
  consume-Consumes r p (Consumer.loaded_tail t) pushed taken v = (
    _,
    _,
    _,
    refl,
    record { queue = v.queue; inv = load_their_head-Inv ok t v.inv; history = v.history },
    refl,
    omega arith,
  )
  consume-Consumes r p (Consumer.loaded_both t h) pushed taken v = elim (Bool-cases (t == h)) [
    | inl same ↦ rw same (
      _,
      _,
      _,
      refl,
      record { queue = v.queue; inv = find_empty-Inv ok t h v.inv; history = v.history },
      refl,
      omega arith,
    )
    | inr ne ↦
        rw ne (take-Consumes r p pushed taken v.queue t h v.inv.consumer_knows.1 ne v.inv v.history)
  ]
  consume-Consumes r p (Consumer.destroyed t) pushed taken v =
      (_, _, _, refl, retire-Goes r p pushed taken t v.inv.consumer_knows.0 v, refl, omega arith)

  -- One access keeps the invariant, whichever thread makes it.
  pub step-Goes : (s : System T) (turn : Turn T) → SystemInv cap s → Goes (step cap s turn)
  step-Goes s (producer_turn x) v = produce-Goes s.ring s.producer s.consumer s.pushed s.taken x v
  step-Goes s consumer_turn v =
      let (r, c, taken, e, v', _, _) =
        consume-Consumes s.ring s.producer s.consumer s.pushed s.taken v in
      (system r s.producer c s.pushed taken, e, v')

  pub run-Goes : (s : System T) (turns : List (Turn T)) → SystemInv cap s → Goes (run cap s turns)
  unfolding run
  run-Goes s [] v = (s, refl, v)
  run-Goes s (turn ∷ turns) v =
      let (s', e, v') = step-Goes s turn v in rw (e, run) (run-Goes s' turns v')

  at_rest :
      {r : Ring T} {q : List T} (p : Producer T) (c : Consumer T)
      → p ≡ Producer.resting
      → c ≡ Consumer.resting
      → Inv cap r p c q
      → Holds cap r q
  at_rest Producer.resting Consumer.resting e f v = v.holds
  at_rest Producer.resting (Consumer.loaded_tail t) e f v = cc
  at_rest Producer.resting (Consumer.loaded_both t h) e f v = cc
  at_rest Producer.resting (Consumer.destroyed t) e f v = cc
  at_rest (Producer.loaded_head x h) c e f v = cc
  at_rest (Producer.loaded_both x h t) c e f v = cc
  at_rest (Producer.constructed h) c e f v = cc

  abbrev pub get_or_start : Option (System T) → System T
  get_or_start none = start cap
  get_or_start (some s) = s

  -- However the accesses of one producer and one consumer interleave, no value is constructed over
  -- a live one and no slot without a value is read; and the values taken are those pushed, in order,
  -- less the at most `cap` last ones.
  pub run_threads_safe :
      (turns : List (Turn T))
      → (s : System T) × (q : List T) × (run cap (start cap) turns ≡ some s)
        × (s.taken ++ q ≡ s.pushed)
        × (length q ≤ cap)
  run_threads_safe turns =
      let (s, e, v) = run-Goes (start cap) turns (start-SystemInv cap ok) in
      (s, v.queue, e, v.history, v.inv.holds.bounded)

  -- Whenever both threads rest, after accesses in any order, the ring holds the values pushed that
  -- were not taken yet, in order.
  pub run_threads_at_rest :
      (turns : List (Turn T)) (s : System T)
      → run cap (start cap) turns ≡ some s
      → s.producer ≡ Producer.resting
      → s.consumer ≡ Consumer.resting
      → (q : List T) × Holds cap s.ring q × (s.taken ++ q ≡ s.pushed)
  run_threads_at_rest turns s e p c =
      let (s', e', v) = run-Goes (start cap) turns (start-SystemInv cap ok) in
      let same : s' ≡ s = ap (λ (o : Option (System T)). get_or_start o) (sym e' ∙ e) in
      (
        v.queue,
        subst (λ (z : System T). Holds cap z.ring v.queue) same
            (at_rest s'.producer s'.consumer (ap (λ (z : System T). z.producer) same ∙ p)
              (ap (λ (z : System T). z.consumer) same ∙ c) v.inv),
        subst (λ (z : System T). z.taken ++ v.queue ≡ z.pushed) same v.history,
      )
