-- ===== src/Persistent/Laws.antt =====
-- `try_publish` of the persistent broker: what it queues it has logged.
use aether_stream.Common.{
  ℕ, ◌+◌, ◌^◌, ◌≤◌, ◌<◌, ◌≡◌, ◌⊎◌, inl, inr, refl, sym, ap, subst, ◌∙◌, true, false, leb, List,
  some, [], ◌∷◌, ◌++◌, length, arith,
}
use aether_stream.Core.Types.{u64_mod, max_payload_size}
use aether_stream.Core.Status.{Status, status_ok, is_ok}
use aether_stream.Metrics.Counters
use aether_stream.Io.Os.{Os}
use aether_stream.Wal.Record.{Bytes}
use aether_stream.Wal.Writer
use aether_stream.Wal.Writer.{WalWriter, remaining_space, timestamp}
use aether_stream.Wal.Log.{Entry}
use aether_stream.Wal.Log.Replay.{HoldsLog}
use aether_stream.Wal.Log.Write.{IsMessage, Wrote, entry_of}
use aether_stream.Wal.Log.Append.{is_valid}
use aether_stream.Wal.Log.Outcome.{append_lem}
use aether_stream.Ring.Queue
use aether_stream.Ring.Repr.{IsCapacity, Holds}
use aether_stream.Ring.Ops.{observers_lem}
use aether_stream.Broker
use aether_stream.Broker.Laws
use aether_stream.Broker.Laws.{try_publish_refines, pop_status}
use aether_stream.Persistent.{
  PersistentBroker, TriviallyCopyable, valid, wal_message, publish_logged, try_publish, try_consume,
  consume_answer,
}

-- An open broker whose queue holds these values, and whose log has these entries.
pub record Stands {ℓ} {T : Type ℓ} (cap : ℕ) (b : PersistentBroker T) (xs : List T)
    (es : List Entry) : Type ℓ where
  pub opened : is_ok b.open_status ≡ true
  pub queue_ok : is_ok b.broker.config_status ≡ true
  pub queue : Holds cap b.broker.queue xs
  pub log : Wrote b.writer es

module _ {ℓ} {T : Type ℓ} {cap : ℕ} (c : IsCapacity cap) (t : TriviallyCopyable T) (os : Os) where
  pub wal_message-IsMessage :
      (x : T) (flags : ℕ)
      → t.size_of ≤ max_payload_size
      → flags < 2 ^ 32
      → IsMessage (wal_message cap t os x flags)
  wal_message-IsMessage x flags short fits = record {
    sized = omega (arith, t.length-object_payload x, short);
    short = omega (arith, t.length-object_payload x, short);
    flags_fit = fits;
    payload_bytes = t.object_bytes x;
  }

  module _ {b : PersistentBroker T} {xs : List T} {es : List Entry} (s : Stands cap b xs es) where
    pub valid_eq : valid cap b ≡ true
    unfolding valid
    valid_eq = rw (s.opened, is_valid s.log) refl

    pub full_eq : Broker.full cap b.broker ≡ leb cap (length xs)
    unfolding Broker.full
    full_eq = (observers_lem c s.queue).2

  -- A queue with room takes the value.
  pub queued :
      (b : PersistentBroker T) (xs : List T) (es : List Entry) (x : T)
      → Stands cap b xs es
      → leb cap (length xs) ≡ false
      → let (status, b') = Broker.try_publish cap b.broker x in
        (status ≡ status_ok)
        × Holds cap b'.queue (xs ++ x ∷ [])
        × (b'.config_status ≡ b.broker.config_status)
  unfolding Queue.push
  queued b xs es x s room =
      let (status, q, counted, config) = try_publish_refines c b.broker x s.queue_ok s.queue in
      (rw room at status, rw room at q, config)

  -- What comes of an append that answered ok, when the queue has room.
  publish_logged_ok :
      (b : PersistentBroker T) (x : T) (before : ℕ) (answer : Status) (w : WalWriter)
      (world : os.World)
      → answer ≡ status_ok
      → (Broker.try_publish cap b.broker x).0 ≡ status_ok
      → let out = publish_logged cap t os b x before (answer, w, world) in
        (out.0 ≡ status_ok)
        × (out.1.broker ≡ (Broker.try_publish cap b.broker x).1)
        × (out.1.writer ≡ w)
        × (out.1.open_status ≡ b.open_status)
  publish_logged_ok b x before answer w world logged queued =
      rw (logged, queued) (refl, refl, refl, refl)

  -- And of one that failed.
  publish_logged_failed :
      (b : PersistentBroker T) (x : T) (before : ℕ) (answer : Status) (w : WalWriter)
      (world : os.World)
      → is_ok answer ≡ false
      → publish_logged cap t os b x before (answer, w, world) ≡ (
        answer,
        record b { writer = w; counters = Counters.record_wal_failure b.counters },
        world,
      )
  publish_logged_failed b x before answer w world failed = rw failed

  -- What `try_publish` does to an open broker whose queue and log have room: the value is queued
  -- and its record is in the log; or the flush failed, and the queue is as it was.
  abbrev pub Published :
      PersistentBroker T → List T → List Entry → T → Entry → Status → PersistentBroker T → Type ℓ
  Published b xs es x e answer b' =
      ((answer ≡ status_ok) × Stands cap b' (xs ++ x ∷ []) (es ++ e ∷ []))
      ⊎ ((b.writer.flush_on_append ≡ true)
          × (is_ok answer ≡ false)
          × (b'.broker ≡ b.broker)
          × ((zeros : Bytes) × HoldsLog b'.writer.file (es ++ e ∷ []) zeros))

  -- `try_publish` of an open broker whose queue is not full and whose log has room for the value,
  -- which is no larger than a payload may be, the flags fitting 32 bits and the clock 64: it answers ok, the queue has the value at its end and the log a
  -- record with the value's bytes at its end; or the writer was to flush and that failed, and then
  -- it answers with a failure and the queue is unchanged.
  pub try_publish_room :
      (b : PersistentBroker T) (xs : List T) (es : List Entry) (x : T) (flags : ℕ)
      (world : os.World)
      → Stands cap b xs es
      → t.size_of ≤ max_payload_size
      → flags < 2 ^ 32
      → length xs < cap
      → 40 + t.size_of ≤ remaining_space b.writer
      → (timestamp os (wal_message cap t os x flags) world).0 < u64_mod
      → let m = wal_message cap t os x flags in
        let out = try_publish cap t os b x flags world in
        Published b xs es x (entry_of b.writer m (timestamp os m world).0) out.0 out.1
  unfolding try_publish
  try_publish_room b xs es x flags world s short fits room space now =
      let m = wal_message cap t os x flags in
      let e = entry_of b.writer m (timestamp os m world).0 in
      let appended = Writer.append os b.writer m world in
      let is_room : leb cap (length xs) ≡ false = ground arith in
      let (pushed, q, config) = queued b xs es x s is_room in
      let outcome =
        append_lem b.writer es m os world s.log (wal_message-IsMessage x flags short fits)
          (omega (arith, t.length-object_payload x)) now in
      rw (valid_eq s, full_eq s, is_room)
        (elim outcome [
          | inl (answer, log) ↦
              let done =
                publish_logged_ok b x b.writer.current_offset appended.0 appended.1 appended.2
                  answer pushed in
              inl (
                done.0,
                record {
                  opened = ap is_ok done.3 ∙ s.opened;
                  queue_ok =
                      ap (λ (k : Broker.Broker T). is_ok k.config_status) done.1
                      ∙ ap is_ok config
                      ∙ s.queue_ok;
                  queue =
                      subst (λ (k : Broker.Broker T). Holds cap k.queue (xs ++ x ∷ [])) (sym done.1)
                        q;
                  log = subst (λ (k : WalWriter). Wrote k (es ++ e ∷ [])) (sym done.2) log;
                },
              )
          | inr (flushes, failed, stored, _, _, _) ↦
              let done =
                publish_logged_failed b x b.writer.current_offset appended.0 appended.1 appended.2
                  failed in
              subst
                (λ (out : Status × PersistentBroker T × os.World).
                  Published b xs es x e out.0 out.1)
                (sym done) (inr (flushes, failed, refl, stored))
        ])

  -- An open broker consumes as the bounded queue pops, without undefined behaviour: the oldest value
  -- goes to `out` with the status ok, or `empty` is answered; the log is not touched.
  pub logged_consume_refines :
      (b : PersistentBroker T) (xs : List T) (es : List Entry) (out : T)
      → Stands cap b xs es
      → let (done, out', xs') = Queue.pop xs out in
        (b' : PersistentBroker T) × (try_consume cap b out ≡ some (pop_status done, out', b'))
        × Stands cap b' xs' es
  unfolding try_consume Queue.pop
  logged_consume_refines b [] es out s =
      let (k, e, q, counted, config) =
        Laws.try_consume_refines c b.broker [] out s.queue_ok s.queue in
      (
        (consume_answer cap b (pop_status false, out, k)).2,
        rw (valid_eq s, e),
        record {
          opened = s.opened;
          queue_ok = ap is_ok config ∙ s.queue_ok;
          queue = q;
          log = s.log;
        },
      )
  logged_consume_refines b (x ∷ xs) es out s =
      let (k, e, q, counted, config) =
        Laws.try_consume_refines c b.broker (x ∷ xs) out s.queue_ok s.queue in
      (
        (consume_answer cap b (pop_status true, x, k)).2,
        rw (valid_eq s, e),
        record {
          opened = s.opened;
          queue_ok = ap is_ok config ∙ s.queue_ok;
          queue = q;
          log = s.log;
        },
      )
