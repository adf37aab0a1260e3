-- ===== src/Apps/Pub/Steps.antt =====
-- The loop of aether_pub, round by round.
use aether_stream.Common.{
  ℕ, zero, suc, ◌+◌, ◌*◌, ◌%◌, ◌≤◌, ◌<◌, ◌≡◌, ◌⊎◌, inl, inr, refl, sym, ap, subst, ◌∙◌, Bool, true,
  false, Option, none, some, List, [], ◌∷◌, ◌++◌, append_assoc, append-nil, length, length-append,
  arith,
}
use aether_stream.Core.Types.{u64_mod, max_payload_size}
use aether_stream.Core.Status.{Status, status_ok, is_ok}
use aether_stream.Metrics.Counters
use aether_stream.Metrics.Counters.{Counters, zero_counters}
use aether_stream.Io.Os.{Os}
use aether_stream.Wal.Record.{WalRecordHeader}
use aether_stream.Wal.Writer.{timestamp, record_header, remaining_space}
use aether_stream.Wal.Log.{Entry, encode, encode_all, length-encode}
use aether_stream.Wal.Log.Append.{remaining_space_eq, inside}
use aether_stream.Ring.Repr.{IsCapacity}
use aether_stream.Persistent.{PersistentBroker, TriviallyCopyable, wal_message, try_publish}
use aether_stream.Persistent.Laws.{Stands}
use aether_stream.Persistent.Counts.{count_logged, try_publish_counts}
use aether_stream.Persistent.Recover.{entries_of}
use aether_stream.Apps.Sub.{OrderEvent}
use aether_stream.Apps.Sub.Recovery.{events_of, length-events_of}
use aether_stream.Apps.Pub.{queue_capacity, make_event, publish_loop}

-- The clock counts nanoseconds in 64 bits.
pub record Clock64 (os : Os) : Type 0 where
  pub fits : (w : os.World) → (os.steady_now w).0 < u64_mod

pub queue_capacity-IsCapacity : IsCapacity queue_capacity
queue_capacity-IsCapacity = record {
  exponent = 16;
  pow = refl;
  pos = omega arith;
  fits = omega arith;
}

-- The counters after some values whose records have so many bytes each.
abbrev pub counted : ℕ → ℕ → Counters
counted n bytes = record zero_counters {
  published = n;
  wal_records_written = n;
  wal_bytes_written = n * bytes;
}

count_one :
    (n bytes : ℕ)
    → n + 1 < u64_mod
    → n * bytes + bytes < u64_mod
    → count_logged (counted n bytes) bytes ≡ counted (n + 1) bytes
unfolding Counters.record_published Counters.record_wal_write
count_one n bytes few fits =
    let e : (n + 1) % u64_mod ≡ n + 1 = omega (arith, few) in
    let e' : (n * bytes + bytes) % u64_mod ≡ n * bytes + bytes = omega (arith, fits) in
    let e'' : n * bytes + bytes ≡ (n + 1) * bytes = grind arith in rw (e, e', e'')

module _ {T : Type 0} (t : TriviallyCopyable T) where
  abbrev record_size : ℕ
  record_size = 40 + t.size_of

  entries_of-snoc :
      (rs : List (T × WalRecordHeader)) (x : T) (h : WalRecordHeader)
      → entries_of t (rs ++ (x, h) ∷ [])
        ≡ entries_of t rs ++ record { header = h; payload = t.object_payload x } ∷ []
  entries_of-snoc [] x h = refl
  entries_of-snoc ((y, k) ∷ rs) x h =
      ap (λ (es : List Entry). record { header = k; payload = t.object_payload y } ∷ es)
        (entries_of-snoc rs x h)

  pub length-entries :
      (rs : List (T × WalRecordHeader))
      → length (encode_all (entries_of t rs)) ≡ length rs * record_size
  length-entries [] = grind arith
  length-entries ((x, h) ∷ rs) =
      let e : Entry = record { header = h; payload = t.object_payload x } in
      let product : suc (length rs) * record_size ≡ length rs * record_size + record_size =
        grind arith in
      omega (
        arith,
        product,
        length-append (encode e) (encode_all (entries_of t rs)),
        length-encode e,
        t.length-object_payload x,
        length-entries rs,
      )

events_of-snoc :
    {T : Type 0} (rs : List (T × WalRecordHeader)) (x : T) (h : WalRecordHeader)
    → events_of (rs ++ (x, h) ∷ []) ≡ events_of rs ++ x ∷ []
events_of-snoc [] x h = refl
events_of-snoc ((y, k) ∷ rs) x h = ap (λ l. y ∷ l) (events_of-snoc rs x h)

-- An open broker whose queue has just the values that its log has, which it has counted, on a file
-- of some size.
pub record Logged {T : Type 0} (t : TriviallyCopyable T) (b : PersistentBroker T) (xs : List T)
    (rs : List (T × WalRecordHeader)) (total : ℕ) (on_commit : Bool) : Type 0 where
  pub stands : Stands queue_capacity b xs (entries_of t rs)
  pub same : events_of rs ≡ xs
  pub counts : b.counters ≡ counted (length xs) (40 + t.size_of)
  pub sized : b.writer.file.size ≡ total
  pub setting : b.writer.flush_on_append ≡ on_commit

module _ {T : Type 0} (t : TriviallyCopyable T) (os : Os) where
  -- The values of the rounds from a number on.
  abbrev pub made : (OrderEvent → T) → ℕ → ℕ → List T
  made event_of i zero = []
  made event_of i (suc n) = make_event t event_of os i ∷ made event_of (i + 1) n

  -- What the loop leaves: all is published, or the writer flushes and failed to.
  abbrev pub AllLogged : ℕ → Bool → List T → Option Status × PersistentBroker T × os.World → Type 0
  AllLogged total on_commit xs (stop, b, world) =
      ((stop ≡ none) × ((rs : List (T × WalRecordHeader)) × Logged t b xs rs total on_commit))
      ⊎ ((on_commit ≡ true) × ((s : Status) × (stop ≡ some s) × (is_ok s ≡ false)))

module _ {T : Type 0} (t : TriviallyCopyable T) (event_of : OrderEvent → T) (os : Os)
    (clock : Clock64 os) (short : t.size_of ≤ max_payload_size) (total : ℕ) (on_commit : Bool) where
  -- A file with room for one value more.
  room_left :
      (b : PersistentBroker T) (xs : List T) (rs : List (T × WalRecordHeader))
      → Logged t b xs rs total on_commit
      → length xs * (40 + t.size_of) + (40 + t.size_of) ≤ total
      → (40 + t.size_of ≤ remaining_space b.writer) × (total < u64_mod)
  room_left b xs rs l room =
      let o = l.stands.log in
      let size : length (encode_all (entries_of t rs)) ≡ length xs * (40 + t.size_of) =
        length-entries t rs
        ∙ ap (λ n. n * (40 + t.size_of)) (sym (length-events_of rs) ∙ ap length l.same) in
      (
        omega (arith, remaining_space_eq o, inside o, size, l.sized, room),
        omega (arith, o.log.fits, l.sized),
      )

  -- One value more is queued, logged and counted; or the writer flushes and failed to.
  publish_one :
      (b : PersistentBroker T) (xs : List T) (rs : List (T × WalRecordHeader)) (x : T)
      (world : os.World)
      → Logged t b xs rs total on_commit
      → length xs < queue_capacity
      → length xs * (40 + t.size_of) + (40 + t.size_of) ≤ total
      → let out = try_publish queue_capacity t os b x 0 world in
        ((out.0 ≡ status_ok)
          × ((h : WalRecordHeader) × Logged t out.1
                (xs ++ x ∷ [])
                (rs ++ (x, h) ∷ [])
                total
                on_commit))
        ⊎ ((on_commit ≡ true) × (is_ok out.0 ≡ false))
  publish_one b xs rs x world l few room =
      let out = try_publish queue_capacity t os b x 0 world in
      let m = wal_message queue_capacity t os x 0 in
      let stamp = (timestamp os m world).0 in
      let h = record_header b.writer m stamp in
      let (space, small) = room_left b xs rs l room in
      let size : length (xs ++ x ∷ []) ≡ length xs + 1 = length-append xs (x ∷ []) in
      elim (try_publish_counts queue_capacity-IsCapacity t os b xs (entries_of t rs) x 0 world
        l.stands short (omega arith) few space (clock.fits world)) [
          | inr (flushes, failed) ↦ inr (sym l.setting ∙ flushes, failed)
          | inl (ok, stands, counts, sized, setting) ↦ inl (
            ok,
            (
              h,
              record {
                stands =
                    subst (λ es. Stands queue_capacity out.1 (xs ++ x ∷ []) es)
                      (sym (entries_of-snoc t rs x h)) stands;
                same = events_of-snoc rs x h ∙ ap (λ l. l ++ x ∷ []) l.same;
                counts =
                    counts
                    ∙ ap (λ k. count_logged k (40 + t.size_of)) l.counts
                    ∙ count_one (length xs) (40 + t.size_of) (omega (arith, few))
                        (omega (arith, room, small))
                    ∙ ap (λ n. counted n (40 + t.size_of)) (sym size);
                sized = sized ∙ l.sized;
                setting = setting ∙ l.setting;
              },
            ),
          )
        ]

  -- With room for all in the queue and in the file, all rounds are made.
  pub publish_room :
      (rounds i : ℕ) (b : PersistentBroker T) (xs : List T) (rs : List (T × WalRecordHeader))
      (world : os.World)
      → Logged t b xs rs total on_commit
      → length xs + rounds ≤ queue_capacity
      → (length xs + rounds) * (40 + t.size_of) ≤ total
      → AllLogged t os total on_commit
          (xs ++ made t os event_of i rounds)
          (publish_loop t event_of os rounds i b world)
  unfolding publish_loop
  publish_room zero i b xs rs world l few room = rw (append-nil xs) (inl (refl, (rs, l)))
  publish_room (suc rounds) i b xs rs world l few room =
      let x = make_event t event_of os i in
      let out = try_publish queue_capacity t os b x 0 world in
      let size : length (xs ++ x ∷ []) ≡ length xs + 1 = length-append xs (x ∷ []) in
      let rest : (length (xs ++ x ∷ []) + rounds) * (40 + t.size_of) ≤ total =
        grind (arith, size, room) in
      let one : length xs * (40 + t.size_of) + (40 + t.size_of) ≤ total = grind (arith, room) in
      elim (publish_one b xs rs x world l (omega (arith, few)) one) [
        | inr (flushes, failed) ↦ rw (failed, AllLogged) (inr (flushes, (out.0, refl, failed)))
        | inl (ok, (h, l')) ↦
            rw (ok, ← append_assoc xs (x ∷ []) (made t os event_of (i + 1) rounds))
              (publish_room rounds (i + 1) out.1 (xs ++ x ∷ []) (rs ++ (x, h) ∷ []) out.2 l'
                (omega (arith, size, few)) rest)
      ]
