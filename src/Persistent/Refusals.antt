-- ===== src/Persistent/Refusals.antt =====
-- When `try_publish` of the persistent broker refuses a value, and what it leaves alone.
use aether_stream.Common.{
  ℕ, ◌+◌, ◌^◌, ◌≤◌, ◌<◌, ◌≡◌, ◌⊎◌, inl, inr, true, false, leb, List, length, arith, dec_lt,
}
use aether_stream.Core.Types.{max_payload_size}
use aether_stream.Core.Status.{StatusCode, status_error}
use aether_stream.Metrics.Counters
use aether_stream.Io.Os.{Os}
use aether_stream.Wal.Writer.{remaining_space}
use aether_stream.Wal.Log.{Entry}
use aether_stream.Wal.Log.Append.{append-out_of_space}
use aether_stream.Ring.Repr.{IsCapacity}
use aether_stream.Persistent.{PersistentBroker, TriviallyCopyable, wal_message, try_publish}
use aether_stream.Persistent.Laws.{Stands, wal_message-IsMessage, valid_eq, full_eq}

module _ {ℓ} {T : Type ℓ} {cap : ℕ} (c : IsCapacity cap) (t : TriviallyCopyable T) (os : Os) where
  -- With a full queue, `try_publish` of an open broker answers `full` and only counts that, without
  -- a look at the log.
  try_publish-full :
      (b : PersistentBroker T) (xs : List T) (es : List Entry) (x : T) (flags : ℕ)
      (world : os.World)
      → Stands cap b xs es
      → cap ≤ length xs
      → try_publish cap t os b x flags world ≡ (
        status_error StatusCode.full "broker queue is full",
        record b { counters = Counters.record_publish_failed_full b.counters },
        world,
      )
  unfolding try_publish
  try_publish-full b xs es x flags world s full =
      let is_full : leb cap (length xs) ≡ true = ground arith in
      rw (valid_eq c t os s, full_eq c t os s, is_full)

  -- With room in the queue and too little in the log, `try_publish` of an open broker answers
  -- `out_of_space`, counts a failure of the log, and leaves queue, log and world alone.
  try_publish_out_of_space :
      (b : PersistentBroker T) (xs : List T) (es : List Entry) (x : T) (flags : ℕ)
      (world : os.World)
      → Stands cap b xs es
      → t.size_of ≤ max_payload_size
      → flags < 2 ^ 32
      → length xs < cap
      → remaining_space b.writer < 40 + t.size_of
      → try_publish cap t os b x flags world ≡ (
        status_error StatusCode.out_of_space "wal file does not have enough remaining space",
        record b { counters = Counters.record_wal_failure b.counters },
        world,
      )
  unfolding try_publish
  try_publish_out_of_space b xs es x flags world s short fits room space =
      let is_room : leb cap (length xs) ≡ false = ground arith in
      let m = wal_message cap t os x flags in
      let refused =
        append-out_of_space b.writer es m s.log (wal_message-IsMessage c t os x flags short fits) os
          world (omega (arith, t.length-object_payload x)) in
      rw (valid_eq c t os s, full_eq c t os s, is_room, refused)

  -- When the queue of an open broker is full, or its log has too little room for the value,
  -- `try_publish` of a value no larger than a payload may be, with flags of 32 bits, refuses the
  -- value, with queue, log and world as they were: a full queue is answered with `full`, whatever
  -- the log has, and counted as such; else the answer is `out_of_space`, and a failure of the log
  -- is counted.
  pub try_publish_refused :
      (b : PersistentBroker T) (xs : List T) (es : List Entry) (x : T) (flags : ℕ)
      (world : os.World)
      → Stands cap b xs es
      → t.size_of ≤ max_payload_size
      → flags < 2 ^ 32
      → (cap ≤ length xs) ⊎ (remaining_space b.writer < 40 + t.size_of)
      → let out = try_publish cap t os b x flags world in
        ((cap ≤ length xs)
          × (out ≡ (
            status_error StatusCode.full "broker queue is full",
            record b { counters = Counters.record_publish_failed_full b.counters },
            world,
          )))
        ⊎ ((length xs < cap)
            × (out ≡ (
              status_error StatusCode.out_of_space "wal file does not have enough remaining space",
              record b { counters = Counters.record_wal_failure b.counters },
              world,
            )))
  try_publish_refused b xs es x flags world s short fits why = elim (dec_lt (length xs) cap) [
    | no full ↦
        let le : cap ≤ length xs = omega arith in
        inl (le, try_publish-full b xs es x flags world s le)
    | yes room ↦
        let space : remaining_space b.writer < 40 + t.size_of = elim why [
          | inl full ↦ absurd (omega arith)
          | inr space ↦ space
        ] in
        inr (room, try_publish_out_of_space b xs es x flags world s short fits room space)
  ]
