-- ===== src/Wal/Log/Total.antt =====
-- Replay ends on any file, whatever its bytes are.
use aether_stream.Common.{
  ℕ, zero, suc, ◌+◌, ◌-◌, ◌≤◌, ◌<◌, ◌≡◌, refl, Bool, true, false, not, ◌==◌, ltb, leb, ◌&&◌, ◌||◌,
  if◌then◌else◌, Option, some, take, drop, Bool-cases, inl, inr, arith,
}
use aether_stream.Core.Types.{u64_mod}
use aether_stream.Core.Status.{Status, is_ok}
use aether_stream.Core.Expected.{Expected, value, error}
use aether_stream.Io.Mmap.{bytes}
use aether_stream.Wal.Record.{
  Bytes, WalRecordHeader, WalRecordView, deserialize_header, validate_header_shape,
  record_total_size, is_zero_filled,
}
use aether_stream.Wal.Checksum.{validate_record_checksum}
use aether_stream.Wal.Reader.{
  WalReader, valid, next, next_record, next_header, replay_round, replay_loop, replay,
}

-- With a record, the reader has moved on by a header at least, and not behind the end of its file.
abbrev Advances : WalReader → Expected WalRecordView × WalReader → Type 0
Advances r (value view, r') =
    (r.current_offset + 40 ≤ r'.current_offset)
    × (r'.current_offset ≤ r.file.size)
    × (r'.file.size ≡ r.file.size)
Advances r (error s, r') = Unit {0}

if-Advances :
    (r : WalReader) (b : Bool) (x y : Expected WalRecordView × WalReader)
    → (b ≡ true → Advances r x)
    → (b ≡ false → Advances r y)
    → Advances r (if b then x else y)
if-Advances r true x y p q = p refl
if-Advances r false x y p q = q refl

shape_size : (h : WalRecordHeader) → is_ok (validate_header_shape h) ≡ true → h.header_size ≡ 40
unfolding validate_header_shape
shape_size h ok = ground arith

next_record-Advances :
    (r : WalReader) (tail : Bytes) (remaining : ℕ) (h : WalRecordHeader)
    → r.current_offset + remaining ≤ r.file.size
    → r.file.size < u64_mod
    → Advances r (next_record r tail remaining h)
unfolding next_record
next_record-Advances r tail remaining h inside fits =
    let total = record_total_size h in
    elim (Bool-cases (h.magic == 0 && is_zero_filled tail)) [
      | inl a ↦ rw a tt
      | inr a ↦ elim (Bool-cases (is_ok (validate_header_shape h))) [
        | inr b ↦ rw (a, b) tt
        | inl b ↦ elim (Bool-cases (ltb total h.header_size || ltb remaining total)) [
          | inl c ↦ rw (a, b, c) tt
          | inr c ↦ elim (Bool-cases (leb total (u64_mod - 1))) [
            | inr d ↦ rw (a, b, c, d) tt
            | inl d ↦
                let payload = take h.payload_size (drop 40 tail) in
                elim (Bool-cases (validate_record_checksum h payload)) [
                  | inr e ↦ rw (a, b, c, d, e) tt
                  | inl e ↦
                      let size = shape_size h b in
                      let small : total ≤ remaining = ground arith in
                      let large : 40 ≤ total = ground (arith, size) in
                      rw (a, b, c, d, e) (omega arith, omega arith, refl)
                ]
          ]
        ]
      ]
    ]

next_header-Advances :
    (r : WalReader) (tail : Bytes) (remaining : ℕ) (h : Expected WalRecordHeader)
    → r.current_offset + remaining ≤ r.file.size
    → r.file.size < u64_mod
    → Advances r (next_header r tail remaining h)
next_header-Advances r tail remaining (error s) inside fits = tt
next_header-Advances r tail remaining (value h) inside fits =
    next_record-Advances r tail remaining h inside fits

next-Advances : (r : WalReader) → r.file.size < u64_mod → Advances r (next r)
unfolding next
next-Advances r fits =
    let remaining = r.file.size - r.current_offset in
    let tail = take remaining (drop r.current_offset (bytes r.file)) in
    let whole = deserialize_header (take 40 tail) in
    elim (Bool-cases (valid r)) [
      | inr a ↦ rw a tt
      | inl a ↦ elim (Bool-cases (leb r.file.size r.current_offset)) [
        | inl b ↦ rw (a, b) tt
        | inr b ↦
            elim (Bool-cases
              (not (leb r.current_offset (u64_mod - 1)) || not (leb remaining (u64_mod - 1)))) [
                | inl c ↦ rw (a, b, c) tt
                | inr c ↦ elim (Bool-cases (ltb remaining 40)) [
                  | inl d ↦ elim (Bool-cases (is_zero_filled tail)) [
                    | inl e ↦ rw (a, b, c, d, e) tt
                    | inr e ↦ rw (a, b, c, d, e) tt
                  ]
                  | inr d ↦
                      rw (a, b, c, d)
                        (next_header-Advances r tail remaining whole (ground arith) fits)
                ]
              ]
      ]
    ]

module _ {ℓ} {V : Type ℓ} (visitor : V → WalRecordView → Status × V) where
  -- Behind a round, the rest of the loop ends when it ends from each reader that has moved on.
  round_ends :
      (rest : V → WalReader → Option (Status × V × WalReader)) (v : V) (r : WalReader)
      (read : Expected WalRecordView × WalReader)
      → Advances r read
      → ((v' : V) (r' : WalReader)
          → r.current_offset + 40 ≤ r'.current_offset
          → r'.current_offset ≤ r.file.size
          → r'.file.size ≡ r.file.size
          → (out : Status × V × WalReader) × (rest v' r' ≡ some out))
      → (out : Status × V × WalReader) × (replay_round visitor v rest read ≡ some out)
  round_ends rest v r (error s, r') moved again = (_, refl)
  round_ends rest v r (value view, r') moved again =
      let visited = visitor v view in
      elim (Bool-cases (is_ok visited.0)) [
        | inl accepted ↦
            let (out, e) = again visited.1 r' moved.0 moved.1 moved.2 in (out, rw accepted e)
        | inr refused ↦ ((visited.0, visited.1, r'), rw refused)
      ]

  replay_loop_ends :
      (fuel : ℕ) (v : V) (r : WalReader)
      → r.file.size < u64_mod
      → r.file.size - r.current_offset < fuel
      → (out : Status × V × WalReader) × (replay_loop visitor fuel v r ≡ some out)
  unfolding replay_loop
  replay_loop_ends zero v r fits few = absurd (omega arith)
  replay_loop_ends (suc fuel) v r fits few =
      round_ends (replay_loop visitor fuel) v r (next r) (next-Advances r fits)
        (λ v' r' far inside same. replay_loop_ends fuel v' r' (omega arith) (omega arith))

  -- Whatever bytes a file below `2 ^ 64` has, and wherever the reader stands, `replay` ends: the
  -- fuel that its loop is given is enough.
  pub replay_ends :
      (v : V) (r : WalReader)
      → r.file.size < u64_mod
      → (out : Status × V × WalReader) × (replay visitor v r ≡ some out)
  unfolding replay
  replay_ends v r fits =
      replay_loop_ends (suc (r.file.size - r.current_offset)) v r fits (omega arith)
