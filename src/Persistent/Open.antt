-- ===== src/Persistent/Open.antt =====
-- `open` of the persistent broker on each branch.
use aether_stream.Common.{ℕ, ◌≡◌, ◌⊎◌, inl, inr, refl, true, false, List, [], some, Bool-cases}
use aether_stream.Core.Status.{Status, StatusCode, status_ok, status_error, is_ok}
use aether_stream.Core.Expected.{Expected, value, error}
use aether_stream.Core.Config.{BrokerConfig, WalConfig, default_queue_config}
use aether_stream.Core.Validate.{
  validate_queue_config_for_capacity, validate_wal_config_for_payload,
  validate_queue_config_for_capacity_iff,
}
use aether_stream.Metrics.Counters
use aether_stream.Metrics.Counters.{zero_counters}
use aether_stream.Io.Os.{Os}
use aether_stream.Io.Mmap
use aether_stream.Wal.Writer
use aether_stream.Wal.Writer.{WalWriter}
use aether_stream.Wal.Log.{Entry}
use aether_stream.Wal.Log.Create.{NewFilesAreZero, EmptyLogOrError, create-EmptyLogOrError}
use aether_stream.Wal.Log.Append.{is_valid}
use aether_stream.Ring.Repr.{IsCapacity, init-Holds}
use aether_stream.Broker.{default_broker}
use aether_stream.Persistent.{
  PersistentBroker, TriviallyCopyable, make, valid, take_writer, open_broker, open_wal, try_publish,
  try_consume, flush,
}
use aether_stream.Persistent.Laws.{Stands}

abbrev pub already_open : Status
already_open = status_error StatusCode.invalid_argument "persistent broker is already open"

module _ {ℓ} {T : Type ℓ} {cap : ℕ} (c : IsCapacity cap) (t : TriviallyCopyable T) (os : Os) where
  -- An `open` of a broker that is open answers with a failure and touches neither queue, log nor
  -- world, but it shuts the broker for good: whatever is published, consumed, flushed or opened
  -- next is answered with that failure, and the queue and the log stay.
  pub reopen_lem :
      (b : PersistentBroker T) (xs : List T) (es : List Entry) (config config' : BrokerConfig)
      (x : T) (flags : ℕ) (w : os.World)
      → Stands cap b xs es
      → let (s, b', w') = open_broker cap t os b config w in
        (s ≡ already_open)
        × (b'.broker ≡ b.broker)
        × (b'.writer ≡ b.writer)
        × (w' ≡ w)
        × (valid cap b' ≡ false)
        × (try_publish cap t os b' x flags w ≡ (
          already_open,
          record b' { counters = Counters.record_publish_failed_invalid b'.counters },
          w,
        ))
        × (try_consume cap b' x
            ≡ some (
              already_open,
              x,
              record b' { counters = Counters.record_consume_failed_invalid b'.counters },
            ))
        × ((flush cap t os b' w).0 ≡ already_open)
        × (open_broker cap t os b' config' w ≡ (already_open, b', w))
  unfolding open_broker try_publish try_consume flush valid
  reopen_lem b xs es config config' x flags w s =
      let opened = is_valid s.log in
      rw opened (refl, refl, refl, refl, refl, refl, refl, refl, rw opened refl)

  -- A failure, for a reason in the configuration or from the creation of the log, which leaves the
  -- new broker shut; or an open broker with an empty queue, an empty log of the configuration and
  -- counters at zero.
  abbrev pub Opened : WalConfig → os.World → Status × PersistentBroker T × os.World → Type ℓ
  Opened config before (s, b, w) =
      ((is_ok s ≡ false)
        × (valid cap b ≡ false)
        × (b ≡ record (make cap) { open_status = s })
        × ((validate_wal_config_for_payload config t.size_of ≡ s)
            ⊎ ((Writer.create os config before).0 ≡ error s)))
      ⊎ ((s ≡ status_ok)
          × Stands cap b [] []
          × (b.counters ≡ zero_counters)
          × (b.writer.file.size ≡ config.file_size_bytes)
          × (b.writer.flush_on_append ≡ config.flush_on_commit))

  refused :
      (config : WalConfig) (s : Status) (before w : os.World)
      → is_ok s ≡ false
      → (validate_wal_config_for_payload config t.size_of ≡ s)
        ⊎ ((Writer.create os config before).0 ≡ error s)
      → Opened config before (s, record (make cap) { open_status = s }, w)
  unfolding valid
  refused config s before w bad reason = inl (bad, rw bad refl, refl, reason)

  taken :
      (config : WalConfig) (before : os.World) (writer : Expected WalWriter) (w : os.World)
      → (Writer.create os config before).0 ≡ writer
      → EmptyLogOrError config writer
      → Opened config before (take_writer cap t os (make cap) (writer, w))
  unfolding make default_broker Mmap.move_assign
  taken config before (error s) w e bad = refused config s before w bad (inr e)
  taken config before (value writer) w e (log, sized, flushes) = inr (
    refl,
    record { opened = refl; queue_ok = refl; queue = init-Holds cap c; log = log },
    refl,
    sized,
    flushes,
  )

  queue_config-ok :
      is_ok
        (validate_queue_config_for_capacity (record default_queue_config { capacity = cap }) cap)
      ≡ true
  queue_config-ok =
      (validate_queue_config_for_capacity_iff (record default_queue_config { capacity = cap })
          cap).1
        (refl, (c.exponent, c.pow))

  new-shut : Writer.valid (make {T = T} cap).writer ≡ false
  unfolding make Writer.valid Mmap.valid
  new-shut = refl

  -- `open` of a new broker, where the system makes new files of zeros: it fails, for a reason in the
  -- configuration or with the status of the creation of the log, and leaves the broker shut; or it
  -- answers ok and the broker stands open with an empty queue and an empty log.
  pub open_wal_lem :
      (config : WalConfig) (w : os.World)
      → NewFilesAreZero os
      → Opened config w (open_wal cap t os (make cap) config w)
  unfolding open_wal open_broker
  open_wal_lem config w z =
      let created = Writer.create os config w in
      let fit = validate_wal_config_for_payload config t.size_of in
      elim (Bool-cases (is_ok fit)) [
        | inr bad ↦ rw (new-shut, queue_config-ok, bad) (refused config fit w w bad (inl refl))
        | inl good ↦
            rw (new-shut, queue_config-ok, good)
              (taken config w created.0 created.1 refl (create-EmptyLogOrError os z config w))
      ]
