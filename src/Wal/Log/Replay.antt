-- ===== src/Wal/Log/Replay.antt =====
-- Replaying a log visits its entries, in order, until the visitor refuses one.
use aether_stream.Common.{
  ℕ, zero, suc, ◌+◌, ◌-◌, ◌%◌, ◌≤◌, ◌<◌, ◌≡◌, refl, sym, ap, subst, ◌∙◌, true, not, some, List, [],
  ◌∷◌, ◌++◌, append_assoc, length, length-append, arith, if◌then◌else◌, Bool-cases, inl, inr,
}
use aether_stream.Core.Types.{u64_mod}
use aether_stream.Core.Status.{Status, StatusCode, status_ok, status_error, is_ok, code_eq}
use aether_stream.Io.Mmap
use aether_stream.Io.Mmap.{MmapFile, bytes}
use aether_stream.Wal.Record.{Bytes, WalRecordView, is_zero_filled}
use aether_stream.Wal.Reader.{WalReader, reader_on, accept, replay_round, replay_loop, replay}
use aether_stream.Wal.Log.{
  Entry, encode, encode_all, AllEntries, length-encode, view_at, views_from,
}
use aether_stream.Wal.Log.Read.{StandsAt, next_entry}
use aether_stream.Wal.Log.Damage.{Ending, next-Ending}

module _ {ℓ} {V : Type ℓ} (visitor : V → WalRecordView → Status × V) where
  -- The visitor on a list of records: it stops behind the first that it refuses.
  unfoldable pub visit_all : V → List WalRecordView → Status × V
  visit_all v [] = (status_ok, v)
  visit_all v (view ∷ views) =
      let visited = visitor v view in
      let rest = visit_all visited.1 views in if not (is_ok visited.0) then visited else rest

-- A file whose bytes are these entries and zeros behind them.
pub record HoldsLog (f : MmapFile) (es : List Entry) (zeros : Bytes) : Type 0 where
  pub is_open : Mmap.valid f ≡ true
  pub whole : length (bytes f) ≡ f.size
  pub fits : f.size < u64_mod
  pub split : bytes f ≡ encode_all es ++ zeros
  pub slack : is_zero_filled zeros ≡ true
  pub entries : AllEntries es

pub length-encode_all-ge : (es : List Entry) → length es ≤ length (encode_all es)
length-encode_all-ge [] = omega arith
length-encode_all-ge (e ∷ es) =
    omega
      (arith, length-encode e, length-append (encode e) (encode_all es), length-encode_all-ge es)

-- Behind an entry, the reader stands before the others.
pub moved_on :
    (r : WalReader) (before : Bytes) (e : Entry) (after : Bytes)
    → StandsAt r before (encode e ++ after)
    → StandsAt
        (record r {
          current_offset = (r.current_offset + (40 + length e.payload)) % u64_mod;
          records_read = (r.records_read + 1) % u64_mod;
        })
        (before ++ encode e)
        after
moved_on r before e after s = record {
  is_open = s.is_open;
  whole = s.whole;
  fits = s.fits;
  split = s.split ∙ sym (append_assoc before (encode e) after);
  at = omega (
    arith,
    s.at,
    s.whole,
    s.fits,
    ap length s.split,
    length-append before (encode e ++ after),
    length-append (encode e) after,
    length-append before (encode e),
    length-encode e,
  );
}

-- The new offset does not wrap.
pub offset_eq :
    (r : WalReader) (before : Bytes) (e : Entry) (after : Bytes)
    → StandsAt r before (encode e ++ after)
    → (r.current_offset + (40 + length e.payload)) % u64_mod ≡ r.current_offset + length (encode e)
offset_eq r before e after s = omega (
  arith,
  s.at,
  s.whole,
  s.fits,
  ap length s.split,
  length-append before (encode e ++ after),
  length-append (encode e) after,
  length-encode e,
)

-- A file whose bytes are these entries and an ending of this status behind them.
pub record EndsIn (f : MmapFile) (es : List Entry) (stop : Status) (after : Bytes) : Type 0 where
  pub is_open : Mmap.valid f ≡ true
  pub whole : length (bytes f) ≡ f.size
  pub fits : f.size < u64_mod
  pub split : bytes f ≡ encode_all es ++ after
  pub ending : Ending stop after
  pub entries : AllEntries es

-- What a replay returns: the visitor's refusal, or else the status of the ending, of which one
-- with the code `empty` is ok.
abbrev pub closing : Status → Status
closing stop = if code_eq stop.code StatusCode.empty then status_ok else stop

abbrev pub end_with {ℓ} : {V : Type ℓ} → Status → Status × V → Status × V
end_with stop done = if is_ok done.0 then (closing stop, done.1) else done

module _ {ℓ} {V : Type ℓ} (visitor : V → WalRecordView → Status × V) where
  replay_loop_lem :
      (fuel : ℕ) (es : List Entry) {stop : Status} {after : Bytes} (before : Bytes) (r : WalReader)
      (v : V)
      → StandsAt r before (encode_all es ++ after)
      → Ending stop after
      → AllEntries es
      → length es < fuel
      → let done = end_with stop (visit_all visitor v (views_from r.current_offset es)) in
        (r' : WalReader) × (replay_loop visitor fuel v r ≡ some (done.0, done.1, r'))
  unfolding replay_loop visit_all
  replay_loop_lem zero es before r v s z all few = absurd (omega arith)
  replay_loop_lem (suc fuel) [] before r v s z all few =
      (r, ap (replay_round visitor v (replay_loop visitor fuel)) (next-Ending r before z s))
  replay_loop_lem (suc fuel) (e ∷ es) {stop} {after} before r v s z all few =
      let rest = encode_all es ++ after in
      let s' =
        subst (λ (l : Bytes). StandsAt r before l) (append_assoc (encode e) (encode_all es) after)
          s in
      let read = next_entry r before e rest s' all.0 in
      let visited = visitor v (view_at r.current_offset e) in
      elim (Bool-cases (is_ok visited.0)) [
        | inl accepted ↦
            let (r', again) =
              replay_loop_lem fuel es (before ++ encode e) _ visited.1 (moved_on r before e rest s')
                z all.1 (omega arith) in
            (
              r',
              ap (replay_round visitor v (replay_loop visitor fuel)) read
                  ∙ rw (accepted, ← offset_eq r before e rest s') again,
            )
        | inr refused ↦ (
          (accept r e.header e.payload (40 + length e.payload)).1,
          ap (replay_round visitor v (replay_loop visitor fuel)) read ∙ rw (refused, refused),
        )
      ]

  -- Replaying a file of entries with an ending behind them ends, with enough fuel by its own bound,
  -- whatever the ending is: zeros, a record cut off by the end of the file, a record with a wrong
  -- checksum, or a header of another format, one with magic zero in bytes that are not all zero
  -- included. The visitor has been shown the entries in order, with their offsets, up to the first
  -- that it refused, and nothing of the ending; the status is the refusal, or else the status of the
  -- ending, which is ok for zeros and for a cut-off record.
  pub replay_stops :
      (f : MmapFile) (es : List Entry) (stop : Status) (after : Bytes) (v : V)
      → EndsIn f es stop after
      → let done = end_with stop (visit_all visitor v (views_from 0 es)) in
        (r' : WalReader) × (replay visitor v (reader_on f) ≡ some (done.0, done.1, r'))
  unfolding replay
  replay_stops f es stop after v h =
      replay_loop_lem (suc (f.size - 0)) es [] (reader_on f) v
        (record { is_open = h.is_open; whole = h.whole; fits = h.fits; split = h.split; at = refl })
        h.ending h.entries
        (omega (
          arith,
          h.whole,
          ap length h.split,
          length-append (encode_all es) after,
          length-encode_all-ge es,
        ))

  -- A visit of all records is ok only as `Status::ok()`.
  visit_all_end :
      (views : List WalRecordView) (v : V)
      → end_with (status_error StatusCode.empty "") (visit_all visitor v views)
        ≡ visit_all visitor v views
  unfolding visit_all
  visit_all_end [] v = refl
  visit_all_end (view ∷ views) v = elim (Bool-cases (is_ok (visitor v view).0)) [
    | inl accepted ↦ rw accepted (visit_all_end views (visitor v view).1)
    | inr refused ↦ rw (refused, refused)
  ]

  -- Replaying a file that holds a log ends, with enough fuel by its own bound: the visitor has been
  -- shown the entries in order, with their offsets, up to the first that it refused; the status is
  -- the refusal, or ok.
  pub replay_lem :
      (f : MmapFile) (es : List Entry) (zeros : Bytes) (v : V)
      → HoldsLog f es zeros
      → let done = visit_all visitor v (views_from 0 es) in
        (r' : WalReader) × (replay visitor v (reader_on f) ≡ some (done.0, done.1, r'))
  replay_lem f es zeros v h = rw (← visit_all_end (views_from 0 es) v) (
      replay_stops f es (status_error StatusCode.empty "") zeros v (record {
        is_open = h.is_open;
        whole = h.whole;
        fits = h.fits;
        split = h.split;
        ending = Ending.zeros zeros h.slack;
        entries = h.entries;
      }))
