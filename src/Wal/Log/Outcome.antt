-- ===== src/Wal/Log/Outcome.antt =====
-- The outcome of `append` on a log: success, or a failed flush.
use aether_stream.Common.{
  ℕ, ◌+◌, ◌<◌, ◌≡◌, refl, sym, ap, subst, ◌∙◌, Bool, true, false, not, List, [], ◌∷◌, ◌++◌, length,
  if◌then◌else◌, Bool-cases, inl, inr, ◌⊎◌,
}
use aether_stream.Core.Types.{u64_mod}
use aether_stream.Core.Status.{Status, status_ok, is_ok}
use aether_stream.Io.Os.{Os}
use aether_stream.Wal.Record.{Bytes}
use aether_stream.Wal.Message.{MessageView}
use aether_stream.Wal.Writer.{
  WalWriter, store_record, advance, append, flush, finish_append, timestamp, record_header,
}
use aether_stream.Wal.Log.{Entry}
use aether_stream.Wal.Log.Replay.{HoldsLog}
use aether_stream.Wal.Log.Write.{IsMessage, Wrote, entry_of}
use aether_stream.Wal.Log.Append.{HasRoom, append_writes, stored-HoldsLog, advance-Wrote}

-- What follows the copies, when they were made in the record `stored`.
module _ (os : Os) (stored : WalWriter) (total : ℕ) (world : os.World) where
  pub finish-plain :
      stored.flush_on_append ≡ false
      → finish_append os stored total world ≡ (status_ok, advance stored total, world)
  finish-plain plain =
      let flushed = flush os stored world in
      ap
        (λ (b : Bool).
          if b
          then (if not (is_ok flushed.0)
              then (flushed.0, stored, flushed.1)
              else (status_ok, advance stored total, flushed.1))
          else (status_ok, advance stored total, world))
        plain

  finish-flushing :
      stored.flush_on_append ≡ true
      → let flushed = flush os stored world in
        finish_append os stored total world ≡ (
          if not (is_ok flushed.0)
          then (flushed.0, stored, flushed.1)
          else (status_ok, advance stored total, flushed.1))
  finish-flushing flushes =
      let flushed = flush os stored world in
      ap
        (λ (b : Bool).
          if b
          then (if not (is_ok flushed.0)
              then (flushed.0, stored, flushed.1)
              else (status_ok, advance stored total, flushed.1))
          else (status_ok, advance stored total, world))
        flushes

  finish-answer :
      (b : Bool)
      → stored.flush_on_append ≡ true
      → is_ok (flush os stored world).0 ≡ b
      → let flushed = flush os stored world in
        finish_append os stored total world ≡ (
          if not b
          then (flushed.0, stored, flushed.1)
          else (status_ok, advance stored total, flushed.1))
  finish-answer b flushes answer =
      let flushed = flush os stored world in
      finish-flushing flushes
      ∙ ap
          (λ (b : Bool).
            if not b
            then (flushed.0, stored, flushed.1)
            else (status_ok, advance stored total, flushed.1))
          answer

-- What `append` has done to a writer behind a log: the answer is ok and the log has the entry too;
-- or the writer flushes and the flush failed, and then the file holds the entry but the writer's
-- counts are the old ones.
abbrev pub Appended : WalWriter → List Entry → Entry → Status → WalWriter → Type 0
Appended w es e answer w' =
    ((answer ≡ status_ok) × Wrote w' (es ++ e ∷ []))
    ⊎ ((w.flush_on_append ≡ true)
        × (is_ok answer ≡ false)
        × ((zeros : Bytes) × HoldsLog w'.file (es ++ e ∷ []) zeros)
        × (w'.current_offset ≡ w.current_offset)
        × (w'.next_sequence ≡ w.next_sequence)
        × (w'.records_written ≡ w.records_written))

-- `append` of a message that has room, its timestamp fitting 64 bits: it answers ok and the writer
-- stands behind the old entries and the new one; or it was to flush, the flush failed, and it
-- answers with a failure, keeps the offset and both counts, and has the new entry in its file.
pub append_lem :
    (w : WalWriter) (es : List Entry) (m : MessageView) (os : Os) (world : os.World)
    → Wrote w es
    → IsMessage m
    → HasRoom w m
    → (timestamp os m world).0 < u64_mod
    → let out = append os w m world in
      Appended w es (entry_of w m (timestamp os m world).0) out.0 out.1
unfolding store_record
append_lem w es m os world o v room fits =
    let stamp = (timestamp os m world).0 in
    let world' = (timestamp os m world).1 in
    let stored = store_record w (record_header w m stamp) m.payload in
    let total = 40 + length m.payload in
    let good = advance-Wrote w es m o v stamp room fits in
    let bad = stored-HoldsLog w es m o v stamp room fits in
    let Good =
      λ (out : Status × WalWriter × os.World). Appended w es (entry_of w m stamp) out.0 out.1 in
    let flushed = flush os stored world' in
    let written = append_writes w es m o v os world room in
    elim (Bool-cases w.flush_on_append) [
      | inr plain ↦
          subst Good (sym (written ∙ finish-plain os stored total world' plain)) (inl (refl, good))
      | inl flushes ↦
          let answer = finish-answer os stored total world' in
          elim (Bool-cases (is_ok flushed.0)) [
            | inl done ↦ subst Good (sym (written ∙ answer true flushes done)) (inl (refl, good))
            | inr failed ↦
                subst Good (sym (written ∙ answer false flushes failed))
                  (inr (flushes, failed, (_, bad), refl, refl, refl))
          ]
    ]
