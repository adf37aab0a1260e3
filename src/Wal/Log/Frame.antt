-- ===== src/Wal/Log/Frame.antt =====
-- What `append` leaves alone on every branch: the size of the file and the setting of the writer.
use aether_stream.Common.{
  ℕ, ◌+◌, ◌-◌, ◌%◌, ◌≡◌, refl, Bool, true, false, not, ltb, ◌||◌, if◌then◌else◌, length, Bool-cases,
  inl, inr,
}
use aether_stream.Core.Types.{u64_mod, max_payload_size}
use aether_stream.Core.Status.{Status, status_ok, is_ok}
use aether_stream.Io.Os.{Os}
use aether_stream.Wal.Record.{wal_record_header_size}
use aether_stream.Wal.Message.{MessageView, validate_message_view}
use aether_stream.Wal.Writer.{
  WalWriter, valid, remaining_space, fits_size_t, store_record, record_header, timestamp, flush,
  advance, finish_append, write_record, append,
}

module _ (os : Os) where
  abbrev pub Framed : WalWriter → Status × WalWriter × os.World → Type 0
  Framed w (s, w', world) = (w'.file.size ≡ w.file.size) × (w'.flush_on_append ≡ w.flush_on_append)

  if-Framed :
      (w : WalWriter) (b : Bool) (x y : Status × WalWriter × os.World)
      → Framed w x
      → Framed w y
      → Framed w (if b then x else y)
  if-Framed w true x y p q = p
  if-Framed w false x y p q = q

  finish_append-Framed :
      (w : WalWriter) (total : ℕ) (world : os.World) → Framed w (finish_append os w total world)
  finish_append-Framed w total world =
      let (flushed, world') = flush os w world in
      let done = advance w total in
      if-Framed w w.flush_on_append
        (if not (is_ok flushed) then (flushed, w, world') else (status_ok, done, world'))
        (status_ok, done, world)
        (if-Framed w (not (is_ok flushed)) (flushed, w, world') (status_ok, done, world')
          (refl, refl) (refl, refl))
        (refl, refl)

  write_record-Framed :
      (w : WalWriter) (m : MessageView) (total : ℕ) (world : os.World)
      → Framed w (write_record os w m total world)
  unfolding store_record
  write_record-Framed w m total world =
      let (stamp, world') = timestamp os m world in
      finish_append-Framed (store_record w (record_header w m stamp) m.payload) total world'

  -- `append` keeps the size of the file and the setting, whatever it answers.
  pub append-Framed :
      (w : WalWriter) (m : MessageView) (world : os.World) → Framed w (append os w m world)
  unfolding append
  append-Framed w m world =
      let total = (wal_record_header_size + length m.payload) % u64_mod in
      let size = length m.payload in
      let same : Framed w (status_ok, w, world) = (refl, refl) in
      elim (Bool-cases (valid w)) [
        | inr a ↦ rw a same
        | inl a ↦ elim (Bool-cases (is_ok (validate_message_view m))) [
          | inr b ↦ rw (a, b) same
          | inl b ↦ elim (Bool-cases (fits_size_t size)) [
            | inr c ↦ rw (a, b, c) same
            | inl c ↦ elim (Bool-cases (ltb max_payload_size size)) [
              | inl d ↦ rw (a, b, c, d) same
              | inr d ↦ elim (Bool-cases (ltb (u64_mod - 1 - wal_record_header_size) size)) [
                | inl e ↦ rw (a, b, c, d, e) same
                | inr e ↦ elim (Bool-cases (ltb (remaining_space w) total)) [
                  | inl f ↦ rw (a, b, c, d, e, f) same
                  | inr f ↦
                      let wide = not (fits_size_t w.current_offset) || not (fits_size_t total) in
                      elim (Bool-cases wide) [
                        | inl g ↦ rw (a, b, c, d, e, f, g) same
                        | inr g ↦ rw (a, b, c, d, e, f, g) (write_record-Framed w m total world)
                      ]
                ]
              ]
            ]
          ]
        ]
      ]
