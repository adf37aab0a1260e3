-- ===== src/Apps/Scan.antt =====
-- The loop over the records of a log that apps/aether_inspect_wal.cpp and apps/aether_replay.cpp
-- have in common, and what it reads of a log.
mod Limit
pub use Limit.{goes_on, within, stopped, within_eq, failure_eq, length-within-le}
use aether_stream.Common.{
  ℕ, zero, suc, ◌+◌, ◌-◌, ◌%◌, ◌<◌, ◌≤◌, ◌≡◌, refl, sym, ap, ap₂, subst, ◌∙◌, Bool, true, false,
  not, ◌==◌, ltb, ◌&&◌, ◌||◌, if◌then◌else◌, Option, none, some, List, [], ◌∷◌, ◌++◌, append_assoc,
  length, length-append, take, Bool-cases, inl, inr, arith,
}
use aether_stream.Core.Types.{u64_mod}
use aether_stream.Core.Status.{Status, StatusCode, code_eq}
use aether_stream.Core.Expected.{Expected, value, error}
use aether_stream.Io.Mmap.{MmapFile}
use aether_stream.Wal.Record.{Bytes, WalRecordView}
use aether_stream.Wal.Reader.{WalReader, next, reader_on}
use aether_stream.Wal.Log.{Entry, encode, encode_all, AllEntries, view_at, views_from}
use aether_stream.Wal.Log.Read.{StandsAt, next_entry}
use aether_stream.Wal.Log.Damage.{Ending, next-Ending}
use aether_stream.Wal.Log.Replay.{EndsIn, moved_on, offset_eq, length-encode_all-ge}

-- How the loop ends: with the failure that it prints, if any, with what it has kept, and with its
-- count and reader.
pub record ReadEnd {ℓ} (V : Type ℓ) : Type ℓ where
  pub failure : Option Status
  pub kept : V
  pub count : ℕ
  pub reader : WalReader

-- What is kept of records, which have been counted from a number on.
abbrev pub keep_all {ℓ} :
    {V : Type ℓ} → (ℕ → V → WalRecordView → V) → ℕ → V → List WalRecordView → V
keep_all keep count v [] = v
keep_all keep count v (view ∷ views) = keep_all keep (count + 1) (keep count v view) views

module _ {ℓ} {V : Type ℓ} (keep : ℕ → V → WalRecordView → V) (limit : ℕ) where
  abbrev pub read_round :
      V
      → ℕ
      → (V → ℕ → WalReader → Option (ReadEnd V))
      → Expected WalRecordView × WalReader
      → Option (ReadEnd V)
  read_round v count rest (value view, r) = rest (keep count v view) ((count + 1) % u64_mod) r
  read_round v count rest (error s, r) = some (record {
    failure = if code_eq s.code StatusCode.empty then none else some s;
    kept = v;
    count = count;
    reader = r;
  })

  -- The loop, on fuel; `none` means that it ran out.
  unfoldable pub read_loop : ℕ → V → ℕ → WalReader → Option (ReadEnd V)
  read_loop zero v count r = none
  read_loop (suc fuel) v count r =
      let round = read_round v count (read_loop fuel) (next r) in
      if goes_on limit count
      then round
      else some (record { failure = none; kept = v; count = count; reader = r })

  abbrev pub Reads : Option (ReadEnd V) → V → ℕ → ℕ → List Entry → Status → Type ℓ
  Reads out v count offset es stop =
      let seen = within limit count es in
      (r : WalReader) × (n : ℕ) × (out
        ≡ some (record {
          failure = stopped limit count es stop;
          kept = keep_all keep count v (views_from offset seen);
          count = n;
          reader = r;
        }))
      × (n ≡ count + length seen)
      × (r.current_offset ≡ offset + length (encode_all seen))

  loop_goes :
      (fuel : ℕ) (v : V) (count : ℕ) (r : WalReader)
      → goes_on limit count ≡ true
      → read_loop (suc fuel) v count r ≡ read_round v count (read_loop fuel) (next r)
  unfolding read_loop
  loop_goes fuel v count r goes = rw goes

  after_entry :
      (rest : V → ℕ → WalReader → Option (ReadEnd V)) (v : V) (count : ℕ) (r : WalReader)
      (e : Entry) (es : List Entry) (stop : Status) (r1 : WalReader)
      → goes_on limit count ≡ true
      → next r ≡ (value (view_at r.current_offset e), r1)
      → r1.current_offset ≡ r.current_offset + length (encode e)
      → (count + 1) % u64_mod ≡ count + 1
      → Reads
          (rest (keep count v (view_at r.current_offset e)) (count + 1) r1)
          (keep count v (view_at r.current_offset e))
          (count + 1)
          r1.current_offset
          es
          stop
      → Reads (read_round v count rest (next r)) v count r.current_offset (e ∷ es) stop
  after_entry rest v count r e es stop r1 goes read at next_count (r', n, again, counted, offset) =
      rw (goes, read, next_count, ← at)
        (
          r',
          n,
          again,
          omega (arith, counted),
          omega (
            arith,
            offset,
            at,
            length-append (encode e) (encode_all (within limit (count + 1) es)),
          ),
        )

  -- The loop reads the entries that its limit lets it read, and stops in front of the ending.
  pub read_loop_lem :
      (fuel : ℕ) (es : List Entry) {stop : Status} {after : Bytes} (before : Bytes) (r : WalReader)
      (v : V) (count : ℕ)
      → StandsAt r before (encode_all es ++ after)
      → Ending stop after
      → AllEntries es
      → length es < fuel
      → count + length es < u64_mod
      → Reads (read_loop fuel v count r) v count r.current_offset es stop
  unfolding read_loop
  read_loop_lem zero es before r v count s z all few fits = absurd (omega arith)
  read_loop_lem (suc fuel) [] before r v count s z all few fits =
      elim (Bool-cases (goes_on limit count)) [
        | inr stops ↦ rw stops (r, count, refl, omega arith, omega arith)
        | inl goes ↦ rw goes (
          r,
          count,
          ap (read_round v count (read_loop fuel)) (next-Ending r before z s),
          omega arith,
          omega arith,
        )
      ]
  read_loop_lem (suc fuel) (e ∷ es) {stop} {after} before r v count s z all few fits =
      elim (Bool-cases (goes_on limit count)) [
        | inr stops ↦ rw stops (r, count, refl, omega arith, omega arith)
        | inl goes ↦
            let rest = encode_all es ++ after in
            let s' =
              subst (λ (l : Bytes). StandsAt r before l)
                (append_assoc (encode e) (encode_all es) after) s in
            let read = next_entry r before e rest s' all.0 in
            let at = offset_eq r before e rest s' in
            subst (λ (out : Option (ReadEnd V)). Reads out v count r.current_offset (e ∷ es) stop)
              (sym (loop_goes fuel v count r goes))
              (after_entry (read_loop fuel) v count r e es stop _ goes read at (omega (arith, fits))
                (read_loop_lem fuel es (before ++ encode e) _
                  (keep count v (view_at r.current_offset e)) (count + 1)
                  (moved_on r before e rest s') z all.1 (omega arith) (omega (arith, fits))))
      ]

  -- On a file of entries with an ending behind them, the loop from the start.
  pub read_log :
      (f : MmapFile) (es : List Entry) (stop : Status) (after : Bytes) (v : V)
      → EndsIn f es stop after
      → Reads (read_loop (suc f.size) v 0 (reader_on f)) v 0 0 es stop
  read_log f es stop after v h =
      let size : length (encode_all es) + length after ≡ f.size =
        omega (arith, h.whole, ap length h.split, length-append (encode_all es) after) in
      read_loop_lem (suc f.size) es [] (reader_on f) v 0
        (record { is_open = h.is_open; whole = h.whole; fits = h.fits; split = h.split; at = refl })
        h.ending h.entries (omega (arith, size, length-encode_all-ge es))
        (omega (arith, size, h.fits, length-encode_all-ge es))

-- All entries of a file are fewer than its bytes, which a size counts.
pub length-within-lt :
    (limit : ℕ) (f : MmapFile) (es : List Entry) (stop : Status) (after : Bytes)
    → EndsIn f es stop after
    → length (within limit 0 es) < u64_mod
length-within-lt limit f es stop after h = omega (
  arith,
  length-within-le limit 0 es,
  length-encode_all-ge es,
  h.whole,
  h.fits,
  ap length h.split,
  length-append (encode_all es) after,
)

pub length-views_from : (es : List Entry) (offset : ℕ) → length (views_from offset es) ≡ length es
length-views_from [] offset = refl
length-views_from (e ∷ es) offset = ap suc (length-views_from es (offset + length (encode e)))

module _ {ℓ} {V : Type ℓ} (keep : ℕ → V → WalRecordView → V) (limit : ℕ) where
  -- What a file makes of the loop from the start, by what it keeps of the entries that it reads.
  pub scan_log :
      (f : MmapFile) (es : List Entry) (stop : Status) (after : Bytes) (start kept : V)
      → EndsIn f es stop after
      → keep_all keep 0 start (views_from 0 (within limit 0 es)) ≡ kept
      → let seen = within limit 0 es in
        (reader : WalReader) × (read_loop keep limit (suc f.size) start 0 (reader_on f)
          ≡ some (record {
            failure = stopped limit 0 es stop;
            kept = kept;
            count = length seen;
            reader = reader;
          }))
        × (reader.current_offset ≡ length (encode_all seen))
  scan_log f es stop after start kept h e =
      let (reader, n, out, counted, offset) = read_log keep limit f es stop after start h in
      let same : n ≡ length (within limit 0 es) = omega (arith, counted) in
      (
        reader,
        out
            ∙ ap₂
                (λ (k : V) (n : ℕ). some (record {
                  failure = stopped limit 0 es stop;
                  kept = k;
                  count = n;
                  reader = reader;
                }))
                e same,
        omega (arith, offset),
      )
