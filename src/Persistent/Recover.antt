-- ===== src/Persistent/Recover.antt =====
-- Recovery: what the persistent broker's replay makes of a log of its own values.
use aether_stream.Common.{
  ℕ, ◌+◌, ◌≡◌, refl, ap, true, false, ◌==◌, if◌then◌else◌, List, [], ◌∷◌, length, some, Bool-cases,
  inl, inr, arith,
}
use aether_stream.Core.Status.{Status, status_ok, is_ok}
use aether_stream.Core.Expected.{value}
use aether_stream.Metrics.Counters
use aether_stream.Metrics.Counters.{Counters}
use aether_stream.Io.Os.{Os}
use aether_stream.Io.Mmap
use aether_stream.Io.Mmap.{MmapFile}
use aether_stream.Wal.Record.{Bytes, WalRecordHeader}
use aether_stream.Wal.Reader.{reader_on}
use aether_stream.Wal.Log.{Entry, encode, view_at, views_from}
use aether_stream.Wal.Log.Replay.{HoldsLog, visit_all, replay_lem}
use aether_stream.Persistent.{TriviallyCopyable}
use aether_stream.Persistent.Replay.{visit_record, replay_on, replay_end, visit_value}

module _ {ℓ} {T : Type ℓ} (t : TriviallyCopyable T) where
  -- The entries that carry these values under these headers.
  abbrev pub entries_of : List (T × WalRecordHeader) → List Entry
  entries_of [] = []
  entries_of ((x, h) ∷ rs) = record { header = h; payload = t.object_payload x } ∷ entries_of rs

-- What a recovery of values is to do: hand them to the visitor in order and count each, up to the
-- first that the visitor refuses, which counts as a failure and gives the status.
abbrev pub recover {ℓ ν} :
    {T : Type ℓ} {V : Type ν}
    → (V → T → WalRecordHeader → Status × V)
    → V
    → Counters
    → List (T × WalRecordHeader)
    → Status × V × Counters
recover visitor v c [] = (status_ok, v, c)
recover visitor v c ((x, h) ∷ rs) =
    let (s, v') = visitor v x h in
    let rest = recover visitor v' (Counters.record_recovered_record c) rs in
    if is_ok s then rest else (s, v', Counters.record_recovery_failure c)

module _ {ℓ ν} {T : Type ℓ} {V : Type ν} (cap : ℕ) (t : TriviallyCopyable T) (os : Os)
    (visitor : V → T → WalRecordHeader → Status × V) where
  -- The bytes of a value are copied back into that value.
  visit_value_eq :
      (v : V) (c : Counters) (x : T) (h : WalRecordHeader) (offset : ℕ)
      → visit_record {T = T} cap t os visitor
          (v, c, false)
          (view_at offset (record { header = h; payload = t.object_payload x }))
        ≡ visit_value {T = T} cap t os visitor (v, c, false) (visitor v x h)
  unfolding visit_record
  visit_value_eq v c x h offset =
      let sized : (length (t.object_payload x) == t.size_of) ≡ true =
        ground (arith, t.length-object_payload x) in
      rw (sized, t.copy_bytes-object_payload x)

  -- The visits of the entries count and end as a recovery of the values does.
  visits :
      (rs : List (T × WalRecordHeader)) (v : V) (c : Counters) (offset : ℕ)
      → replay_end {T = T} cap t os visitor (
          visit_all
            (visit_record {T = T} cap t os visitor)
            (v, c, false)
            (views_from offset (entries_of t rs)))
        ≡ recover visitor v c rs
  unfolding visit_all
  visits [] v c offset = refl
  visits ((x, h) ∷ rs) v c offset =
      let (s, v') = visitor v x h in
      let e : Entry = record { header = h; payload = t.object_payload x } in
      let again = visits rs v' (Counters.record_recovered_record c) (offset + length (encode e)) in
      elim (Bool-cases (is_ok s)) [
        | inl accepted ↦ rw (visit_value_eq v c x h offset, accepted, accepted) again
        | inr refused ↦ rw (visit_value_eq v c x h offset, refused, refused, refused)
      ]

  -- Replaying a file whose records carry these values: it ends, and it is a recovery of the values
  -- with the headers of their records, in the order of the log.
  pub replay_on_lem :
      (f : MmapFile) (rs : List (T × WalRecordHeader)) (zeros : Bytes) (v : V) (c : Counters)
      (world : os.World)
      → HoldsLog f (entries_of t rs) zeros
      → let done = recover visitor v c rs in
        (world' : os.World) × (replay_on {T = T} cap t os visitor v c (value (reader_on f), world)
          ≡ some (done.0, done.1, done.2, world'))
  replay_on_lem f rs zeros v c world h =
      let (r, e) =
        replay_lem (visit_record {T = T} cap t os visitor) f (entries_of t rs) zeros (v, c, false)
          h in
      let world' = (Mmap.close os r.file world).2 in
      (
        world',
        rw (replay_on, e)
            (ap (λ (d : Status × V × Counters). some (d.0, d.1, d.2, world')) (visits rs v c 0)),
      )
