-- ===== src/Persistent/Counts.antt =====
-- What a successful `try_publish` counts, and what it leaves alone.
use aether_stream.Common.{
  ℕ, ◌+◌, ◌-◌, ◌^◌, ◌≤◌, ◌<◌, ◌≡◌, ◌⊎◌, inl, inr, refl, sym, ap, subst, ◌∙◌, true, false, leb, List,
  [], ◌∷◌, ◌++◌, length, length-append, if◌then◌else◌, Bool-cases, arith,
}
use aether_stream.Core.Types.{u64_mod, max_payload_size}
use aether_stream.Core.Status.{Status, status_ok, is_ok}
use aether_stream.Metrics.Counters
use aether_stream.Metrics.Counters.{Counters}
use aether_stream.Io.Os.{Os}
use aether_stream.Wal.Writer
use aether_stream.Wal.Writer.{WalWriter, remaining_space, timestamp}
use aether_stream.Wal.Log.{Entry, encode, encode_all, encode_all-snoc, length-encode}
use aether_stream.Wal.Log.Write.{Wrote, entry_of}
use aether_stream.Wal.Log.Frame.{append-Framed}
use aether_stream.Ring.Repr.{IsCapacity}
use aether_stream.Broker
use aether_stream.Persistent.{
  PersistentBroker, TriviallyCopyable, wal_message, publish_logged, try_publish,
}
use aether_stream.Persistent.Laws.{Stands, valid_eq, full_eq, queued, try_publish_room}

-- The counters after a value whose record has so many bytes.
abbrev pub count_logged : Counters → ℕ → Counters
count_logged k bytes = Counters.record_published (Counters.record_wal_write k bytes)

module _ {ℓ} {T : Type ℓ} {cap : ℕ} (c : IsCapacity cap) (t : TriviallyCopyable T) (os : Os) where
  -- With room in the queue, `try_publish` is what it does behind the append.
  try_publish-logged :
      (b : PersistentBroker T) (xs : List T) (es : List Entry) (x : T) (flags : ℕ)
      (world : os.World)
      → Stands cap b xs es
      → length xs < cap
      → try_publish cap t os b x flags world
        ≡ publish_logged cap t os b x b.writer.current_offset
            (Writer.append os b.writer (wal_message cap t os x flags) world)
  unfolding try_publish
  try_publish-logged b xs es x flags world s room =
      let is_room : leb cap (length xs) ≡ false = ground arith in
      rw (valid_eq c t os s, full_eq c t os s, is_room)

  -- The bytes that the code counts for an append.
  abbrev counted_bytes : ℕ → ℕ → ℕ
  counted_bytes before after = if leb before after then after - before else 0

  publish_logged_counts :
      (b : PersistentBroker T) (x : T) (before : ℕ) (answer : Status) (w : WalWriter)
      (world : os.World)
      → (Broker.try_publish cap b.broker x).0 ≡ status_ok
      → let out = publish_logged cap t os b x before (answer, w, world) in
        (out.1.writer ≡ w)
        × (is_ok out.0 ≡ true
            → out.1.counters ≡ count_logged b.counters (counted_bytes before w.current_offset))
  publish_logged_counts b x before answer w world pushed = elim (Bool-cases (is_ok answer)) [
    | inl logged ↦ rw (logged, pushed) (refl, λ _. refl)
    | inr failed ↦ rw failed (refl, λ ok. absurd (cc (rw failed at ok)))
  ]

  counted_eq :
      (w : WalWriter) (before : ℕ) (es : List Entry) (e : Entry)
      → before ≡ length (encode_all es)
      → Wrote w (es ++ e ∷ [])
      → counted_bytes before w.current_offset ≡ 40 + length e.payload
  counted_eq w before es e at after =
      let more : w.current_offset ≡ before + (40 + length e.payload) = omega (
        arith,
        at,
        after.at,
        ap length (encode_all-snoc es e),
        length-append (encode_all es) (encode e),
        length-encode e,
      ) in
      ground (arith, more)

  -- `try_publish` with room in the queue and in the log, the clock fitting 64 bits: it answers ok,
  -- queues and logs the value, counts it with the bytes of its record, and keeps the size of the
  -- file and the setting; or it was to flush and answers with a failure.
  pub try_publish_counts :
      (b : PersistentBroker T) (xs : List T) (es : List Entry) (x : T) (flags : ℕ)
      (world : os.World)
      → Stands cap b xs es
      → t.size_of ≤ max_payload_size
      → flags < 2 ^ 32
      → length xs < cap
      → 40 + t.size_of ≤ remaining_space b.writer
      → (timestamp os (wal_message cap t os x flags) world).0 < u64_mod
      → let m = wal_message cap t os x flags in
        let e = entry_of b.writer m (timestamp os m world).0 in
        let out = try_publish cap t os b x flags world in
        ((out.0 ≡ status_ok)
          × Stands cap out.1 (xs ++ x ∷ []) (es ++ e ∷ [])
          × (out.1.counters ≡ count_logged b.counters (40 + t.size_of))
          × (out.1.writer.file.size ≡ b.writer.file.size)
          × (out.1.writer.flush_on_append ≡ b.writer.flush_on_append))
        ⊎ ((b.writer.flush_on_append ≡ true) × (is_ok out.0 ≡ false))
  try_publish_counts b xs es x flags world s short fits room space now =
      let m = wal_message cap t os x flags in
      let e = entry_of b.writer m (timestamp os m world).0 in
      let (answer, w, world') = Writer.append os b.writer m world in
      let before = b.writer.current_offset in
      let is_room : leb cap (length xs) ≡ false = ground arith in
      let pushed = (queued c t os b xs es x s is_room).0 in
      let eq = try_publish-logged b xs es x flags world s room in
      let Facts : Status × PersistentBroker T × os.World → Type _ = λ out.
        (out.1.writer ≡ w)
        × (is_ok out.0 ≡ true
            → out.1.counters ≡ count_logged b.counters (counted_bytes before w.current_offset)) in
      let (writer_eq, counts) =
        subst Facts (sym eq) (publish_logged_counts b x before answer w world' pushed) in
      let (size, flushes) = append-Framed os b.writer m world in
      elim (try_publish_room c t os b xs es x flags world s short fits room space now) [
        | inl (ok, stands) ↦
            let after = subst (λ (k : WalWriter). Wrote k (es ++ e ∷ [])) writer_eq stands.log in
            let bytes =
              counted_eq w before es e s.log.at after
              ∙ ap (λ n. 40 + n) (t.length-object_payload x) in
            inl (
              ok,
              stands,
              counts (ap is_ok ok) ∙ ap (count_logged b.counters) bytes,
              ap (λ (k : WalWriter). k.file.size) writer_eq ∙ size,
              ap (λ (k : WalWriter). k.flush_on_append) writer_eq ∙ flushes,
            )
        | inr (flushes, failed, _, _) ↦ inr (flushes, failed)
      ]
