-- ===== src/Apps/Pub/Run.antt =====
-- What aether_pub writes and prints, and what aether_sub then reads.
use aether_stream.Common.{
  ℕ, zero, suc, ◌+◌, ◌*◌, ◌≤◌, ◌≡◌, ◌⊎◌, inl, inr, refl, sym, ap, subst, ◌∙◌, Bool, true, false,
  Option, none, some, List, [], length, arith, Bool-cases,
}
use aether_stream.Core.Types.{max_payload_size}
use aether_stream.Core.Status.{Status, status_ok, is_ok}
use aether_stream.Metrics.Counters.{zero_counters}
use aether_stream.Io.Os.{Os}
use aether_stream.Io.Mmap.{bytes}
use aether_stream.Wal.Record.{Bytes, WalRecordHeader}
use aether_stream.Core.Expected.{value}
use aether_stream.Wal.Reader.{reader_on}
use aether_stream.Wal.Log.Replay.{HoldsLog}
use aether_stream.Wal.Log.Create.{NewFilesAreZero}
use aether_stream.Persistent.Replay.{replay_on}
use aether_stream.Persistent.{
  PersistentBroker, TriviallyCopyable, make, open_wal, flush, flush_answer,
}
use aether_stream.Persistent.Laws.{Stands}
use aether_stream.Persistent.Open.{open_wal_lem}
use aether_stream.Persistent.Recover.{entries_of}
use aether_stream.Cli.Options.{PubOptions, SubOptions}
use aether_stream.Apps.Sub.{OrderEvent}
use aether_stream.Apps.Sub.Recovery
use aether_stream.Apps.Sub.Recovery.{
  behind_replay, visit_event, none_seen, all_replayed, replay_events, events_of, length-entries_of,
  length-events_of,
}
use aether_stream.Apps.Pub.{
  Output, failed, summary, queue_capacity, publish_loop, behind_flush, behind_loop, behind_open,
  config_of, publish_all,
}
use aether_stream.Apps.Pub.Steps.{Clock64, queue_capacity-IsCapacity, Logged, made, publish_room}
use aether_stream.Apps.Pub.Flush.{
  not_flushed, all_published, flush_lem, summary_eq, sync_true, sync_false,
}

module _ {T : Type 0} (t : TriviallyCopyable T) (event_of : OrderEvent → T) (os : Os) where
  length-made : (i n : ℕ) → length (made t os event_of i n) ≡ n
  length-made i zero = refl
  length-made i (suc n) = ap suc (length-made (i + 1) n)

  -- How the program ends when its log is written: with the report; or the flush of the log failed.
  abbrev pub Ended : PubOptions → ℕ × Output × PersistentBroker T × os.World → Type 0
  Ended o (code, out, b, w) =
      ((code ≡ 0) × (out ≡ summary (all_published t event_of os o)))
      ⊎ ((code ≡ 1)
          × (out ≡ failed not_flushed)
          × ((w' : os.World) × ((os.msync (bytes b.writer.file) w').0 ≡ false)))

  -- The program has written the records of these values, and has ended.
  abbrev pub Written :
      PubOptions → List (T × WalRecordHeader) → ℕ × Output × PersistentBroker T × os.World → Type 0
  Written o rs out =
      ((zeros : Bytes) × HoldsLog out.2.writer.file (entries_of t rs) zeros) × Ended o out

  flush_ends :
      (o : PubOptions) (b : PersistentBroker T) (xs : List T) (rs : List (T × WalRecordHeader))
      (on_commit : Bool) (w : os.World)
      → Logged t b xs rs o.wal_size_bytes on_commit
      → length xs ≡ o.messages
      → Written o rs (behind_flush t event_of os o (flush queue_capacity t os b w))
  flush_ends o b xs rs on_commit w l n =
      let synced = os.msync (bytes b.writer.file) w in
      let answer = flush_answer queue_capacity t os b in
      let log : (zeros : Bytes) × HoldsLog b.writer.file (entries_of t rs) zeros =
        (l.stands.log.zeros, l.stands.log.log) in
      let P : Status × PersistentBroker T × os.World → Type 0 =
        λ r. Written o rs (behind_flush t event_of os o r) in
      let flushed = flush_lem t event_of os b xs rs w l.stands in
      elim (Bool-cases synced.0) [
        | inl done ↦
            subst P (sym (flushed ∙ ap answer (sync_true os synced done)))
              (log, inl (refl, ap summary (summary_eq t event_of os o b xs rs on_commit l n)))
        | inr lost ↦
            subst P (sym (flushed ∙ ap answer (sync_false os synced lost)))
              (log, inr (refl, refl, (w, lost)))
      ]

  loop_ends :
      (o : PubOptions) (p : Option Status × PersistentBroker T × os.World)
      → p.0 ≡ none
      → behind_loop t event_of os o p
        ≡ behind_flush t event_of os o (flush queue_capacity t os p.1 p.2)
  loop_ends o (stop, b, w) e = ap (λ k. behind_loop t event_of os o (k, b, w)) e

  opened-Logged :
      (b : PersistentBroker T) (total : ℕ) (on_commit : Bool)
      → Stands queue_capacity b [] []
      → b.counters ≡ zero_counters
      → b.writer.file.size ≡ total
      → b.writer.flush_on_append ≡ on_commit
      → Logged t b [] [] total on_commit
  opened-Logged b total on_commit s counts sized setting =
      let none_yet : 0 * (40 + t.size_of) ≡ 0 = grind arith in
      record {
        stands = s;
        same = refl;
        counts = counts ∙ rw none_yet;
        sized = sized;
        setting = setting;
      }

  open_ends :
      (o : PubOptions) (p : Status × PersistentBroker T × os.World)
      → p.0 ≡ status_ok
      → behind_open t event_of os o p
        ≡ behind_loop t event_of os o (publish_loop t event_of os o.messages 0 p.1 p.2)
  open_ends o (s, b, w) e = rw e

  -- aether_pub with at most 65536 messages, a log with room for them, no flush on commit and a
  -- broker that opened, where new files are zeros and the clock fits 64 bits: the log holds just
  -- the messages, in order, and the program exits with 0 and the report of them all, or with 1
  -- after the flush of the whole log failed.
  pub publish_all_lem :
      (o : PubOptions) (w : os.World)
      → NewFilesAreZero os
      → Clock64 os
      → t.size_of ≤ max_payload_size
      → o.messages ≤ queue_capacity
      → o.messages * (40 + t.size_of) ≤ o.wal_size_bytes
      → o.flush_on_commit ≡ false
      → is_ok (open_wal queue_capacity t os (make queue_capacity) (config_of t event_of os o) w).0
        ≡ true
      → (rs : List (T × WalRecordHeader)) × (events_of rs ≡ made t os event_of 0 o.messages)
        × Written o rs (publish_all t event_of os o w)
  unfolding publish_all
  publish_all_lem o w z clock short few room plain ok =
      let opened =
        open_wal queue_capacity t os (make queue_capacity) (config_of t event_of os o) w in
      elim (open_wal_lem queue_capacity-IsCapacity t os (config_of t event_of os o) w z) [
        | inl (bad, _, _, _) ↦ absurd (cc (sym bad ∙ ok))
        | inr (answer, s, counts, sized, setting) ↦
            let start : 0 + o.messages ≡ o.messages = omega arith in
            let l =
              opened-Logged opened.1 o.wal_size_bytes o.flush_on_commit s counts sized setting in
            elim (publish_room t event_of os clock short o.wal_size_bytes o.flush_on_commit
              o.messages 0 opened.1 [] [] opened.2 l (omega (arith, few)) (rw start room)) [
                | inr (flushes, _) ↦ absurd (cc (sym plain ∙ flushes))
                | inl (done, (rs, l')) ↦
                    let loop = publish_loop t event_of os o.messages 0 opened.1 opened.2 in
                    (
                      rs,
                      l'.same,
                      subst (Written o rs) (sym (open_ends o opened answer ∙ loop_ends o loop done))
                          (flush_ends o loop.1 _ rs o.flush_on_commit loop.2 l'
                            (length-made 0 o.messages)),
                    )
              ]
      ]

  -- aether_pub as above, and then the replay of aether_sub on the bytes that it left: that ends,
  -- prints the first messages that its limit admits, in order, counts all and exits with 0.
  pub publish_all-replay :
      (o : PubOptions) (w w' : os.World) (o' : SubOptions)
      → NewFilesAreZero os
      → Clock64 os
      → t.size_of ≤ max_payload_size
      → o.messages ≤ queue_capacity
      → o.messages * (40 + t.size_of) ≤ o.wal_size_bytes
      → o.flush_on_commit ≡ false
      → is_ok (open_wal queue_capacity t os (make queue_capacity) (config_of t event_of os o) w).0
        ≡ true
      → let written = (publish_all t event_of os o w).2.writer.file in
        (end : os.World) × (behind_replay t os o' (
            replay_on {T = T} 65536 t os
              (visit_event o'.limit)
              none_seen
              zero_counters
              (value (reader_on written), w'))
          ≡ some (0, Recovery.summary (all_replayed o' (made t os event_of 0 o.messages)), end))
  publish_all-replay o w w' o' z clock short few room plain ok =
      let (rs, same, ((zeros, log), _)) = publish_all_lem o w z clock short few room plain ok in
      let (end, e) =
        replay_events t os o' (publish_all t event_of os o w).2.writer.file rs zeros w' log in
      (end, e ∙ ap (λ xs. some (0, Recovery.summary (all_replayed o' xs), end)) same)
