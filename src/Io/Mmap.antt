-- ===== src/Io/Mmap.antt =====
-- src/io/mmap_file.cpp: `MmapFile` and its operations. An operation that calls the system takes
-- the world and returns it beside its result; one that changes the object returns that too.
pub mod Ledger
pub mod Life
use aether_stream.Common.{
  ℕ, Bool, true, false, not, ◌==◌, ◌&&◌, if◌then◌else◌, Option, none, some, List, [], is_empty,
}
use aether_stream.Core.Status.{Status, StatusCode, status_error, status_ok, is_ok}
use aether_stream.Core.Expected.{Expected, value, of_status}
use aether_stream.Core.Config.{FilePath}
use aether_stream.Io.Os.{Os}

-- `fd_` is `none` for -1, and `data_` is `none` for a null pointer; otherwise it is the memory
-- that it points to.
pub record MmapFile : Type 0 where
  pub fd : Option ℕ
  pub bytes_at : Option (List ℕ)
  pub size : ℕ
  pub path : FilePath
  pub flush_on_destroy : Bool

-- `MmapFile file{}`.
abbrev pub no_file : MmapFile
no_file = record { fd = none; bytes_at = none; size = 0; path = []; flush_on_destroy = true }

abbrev pub invalid_path_status : Status
invalid_path_status = status_error StatusCode.invalid_argument "mmap file path must not be empty"

abbrev pub invalid_size_status : Status
invalid_size_status =
    status_error StatusCode.invalid_argument "mmap file size must be greater than zero"

abbrev pub invalid_file_status : Status
invalid_file_status = status_error StatusCode.invalid_argument "mmap file is not open"

abbrev pub is_present {ℓ} : {A : Type ℓ} → Option A → Bool
is_present none = false
is_present (some a) = true

unfoldable pub valid : MmapFile → Bool
valid f = is_present f.fd && is_present f.bytes_at && not (f.size == 0)

-- `bytes()`: the span of the mapping.
unfoldable pub bytes : MmapFile → List ℕ
unfolding valid
bytes f = if not (valid f) then [] else elim f.bytes_at [ none ↦ [] | some mapped ↦ mapped ]

-- What stores through the pointer `data()` leave in the mapping.
abbrev pub with_bytes : MmapFile → List ℕ → MmapFile
with_bytes f mapped = record f { bytes_at = some mapped }

-- `reset`, which is private.
unfoldable pub reset : MmapFile → MmapFile
reset f = no_file

-- The move constructor: the new object and what is left of the other.
unfoldable pub move_from : MmapFile → MmapFile × MmapFile
move_from other = (other, record other { fd = none; bytes_at = none; size = 0; path = [] })

module _ (os : Os) where
  open os use {World, open_truncated, open_present, fstat_size, ftruncate, msync, munmap, close_fd}

  -- A failure after the descriptor was opened closes it again.
  abbrev pub fail_closing : ℕ → Status → World → Expected MmapFile × World
  fail_closing fd s w = (of_status s, (close_fd fd w).1)

  abbrev pub map_new : ℕ → ℕ → FilePath → Bool → World → Expected MmapFile × World
  map_new fd size path flush w =
      let (mapping, w') = os.mmap fd size w in
      elim mapping [
        | none ↦ fail_closing fd (status_error StatusCode.io_error "failed to map mmap file") w'
        | some mapped ↦ (
          value (record {
            fd = some fd;
            bytes_at = some mapped;
            size = size;
            path = path;
            flush_on_destroy = flush;
          }),
          w',
        )
      ]

  -- `MmapFile::create(path, size, options)`.
  unfoldable pub create : FilePath → ℕ → Bool → World → Expected MmapFile × World
  create path size flush w =
      if is_empty path
      then (of_status invalid_path_status, w)
      else if size == 0
      then (of_status invalid_size_status, w)
      else let (opened, w1) = open_truncated path w in
        elim opened [
          | none ↦ (of_status (status_error StatusCode.io_error "failed to open mmap file"), w1)
          | some fd ↦
              let (resized, w2) = ftruncate fd size w1 in
              elim resized [
                | false ↦
                    fail_closing fd (status_error StatusCode.io_error "failed to resize mmap file")
                      w2
                | true ↦ map_new fd size path flush w2
              ]
        ]

  -- `MmapFile::open_existing(path, options)`.
  unfoldable pub open_existing : FilePath → Bool → World → Expected MmapFile × World
  open_existing path flush w =
      if is_empty path
      then (of_status invalid_path_status, w)
      else let (opened, w1) = open_present path w in
        elim opened [
          | none ↦ (of_status (status_error StatusCode.io_error "failed to open mmap file"), w1)
          | some fd ↦
              let (found, w2) = fstat_size fd w1 in
              elim found [
                | none ↦
                    fail_closing fd (status_error StatusCode.io_error "failed to stat mmap file") w2
                | some size ↦
                    if size == 0
                    then fail_closing fd invalid_size_status w2
                    else map_new fd size path flush w2
              ]
        ]

  abbrev pub sync_answer : Bool × World → Status × World
  sync_answer (true, w) = (status_ok, w)
  sync_answer (false, w) = (status_error StatusCode.io_error "failed to flush mmap file", w)

  unfoldable pub flush : MmapFile → World → Status × World
  unfolding valid bytes
  flush f w = if not (valid f) then (invalid_file_status, w) else sync_answer (msync (bytes f) w)

  abbrev pub remap : MmapFile → ℕ → ℕ → World → Status × MmapFile × World
  remap f fd new_size w =
      let (mapping, w') = os.mmap fd new_size w in
      elim mapping [
        | none ↦ (status_error StatusCode.io_error "failed to map mmap file", f, w')
        | some mapped ↦ (status_ok, record f { bytes_at = some mapped; size = new_size }, w')
      ]

  -- The part of `resize` behind the flush, with the mapping forgotten.
  abbrev pub resize_flushed : MmapFile → List ℕ → ℕ → ℕ → World → Status × MmapFile × World
  resize_flushed f mapped fd new_size w =
      let f' = record f { bytes_at = none; size = 0 } in
      let (unmapped, w1) = munmap mapped w in
      elim unmapped [
        | false ↦ (status_error StatusCode.io_error "failed to unmap mmap file", f', w1)
        | true ↦
            let (resized, w2) = ftruncate fd new_size w1 in
            elim resized [
              | false ↦ (status_error StatusCode.io_error "failed to resize mmap file", f', w2)
              | true ↦ remap f' fd new_size w2
            ]
      ]

  -- The descriptor of a valid file is not -1.
  abbrev pub descriptor : Option ℕ → ℕ
  descriptor none = 0
  descriptor (some fd) = fd

  abbrev pub resize_after : MmapFile → ℕ → Status × World → Status × MmapFile × World
  resize_after f new_size (flushed, w) =
      if not (is_ok flushed)
      then (flushed, f, w)
      else resize_flushed f (bytes f) (descriptor f.fd) new_size w

  unfoldable pub resize : MmapFile → ℕ → World → Status × MmapFile × World
  unfolding flush
  resize f new_size w =
      if new_size == 0
      then (invalid_size_status, f, w)
      else if not (valid f)
      then (invalid_file_status, f, w)
      else resize_after f new_size (flush f w)

  -- A later failure does not hide an earlier one.
  abbrev pub first_error : Status → Bool → Status → Status
  first_error first done failed = if not done && is_ok first then failed else first

  abbrev pub flush_on_close : MmapFile → World → Status × World
  flush_on_close f w =
      if valid f && f.flush_on_destroy
      then (let (flushed, w') = flush f w in
          (if not (is_ok flushed) then flushed else status_ok, w'))
      else (status_ok, w)

  abbrev pub unmap_on_close : MmapFile → Status → World → Status × World
  unmap_on_close f first w = elim f.bytes_at [
    | none ↦ (first, w)
    | some mapped ↦
        if f.size == 0
        then (first, w)
        else let (done, w') = munmap mapped w in
          (
            first_error first done (status_error StatusCode.io_error "failed to unmap mmap file"),
            w',
          )
  ]

  abbrev pub close_on_close : MmapFile → Status → World → Status × World
  close_on_close f first w = elim f.fd [
    | none ↦ (first, w)
    | some fd ↦
        let (done, w') = close_fd fd w in
        (first_error first done (status_error StatusCode.io_error "failed to close mmap file"), w')
  ]

  -- `close`, which the destructor calls.
  unfoldable pub close : MmapFile → World → Status × MmapFile × World
  unfolding flush reset
  close f w =
      let (s1, w1) = flush_on_close f w in
      let (s2, w2) = unmap_on_close f s1 w1 in
      let (s3, w3) = close_on_close f s2 w2 in (s3, reset f, w3)

  -- The move assignment from another object: what was mapped before is closed.
  unfoldable pub move_assign : MmapFile → MmapFile → World → MmapFile × World
  unfolding close move_from
  move_assign f other w = let (s, f', w') = close f w in ((move_from other).0, w')
