-- ===== src/Wal/Log/Create.antt =====
-- `WalWriter::create` gives a writer on an empty log.
use aether_stream.Common.{
  ℕ, ◌≡◌, refl, sym, ◌∙◌, Bool, true, false, ◌==◌, ltb, is_empty, some, List, [], length,
  Bool-cases, Option-cases, inl, inr, arith,
}
use aether_stream.Core.Status.{is_ok}
use aether_stream.Core.Expected.{Expected, value, error, of_status, of_status_lem}
use aether_stream.Core.Config.{FilePath, WalConfig, validate_wal}
use aether_stream.Io.Os.{Os}
use aether_stream.Io.Mmap
use aether_stream.Io.Mmap.{MmapFile, bytes, map_new}
use aether_stream.Wal.Record.{is_zero_filled, wal_record_header_size}
use aether_stream.Wal.Writer.{WalWriter, create, fits_size_t, writer_on}
use aether_stream.Wal.Log.Write.{Wrote}

-- What POSIX says of a file that `open` has truncated and `ftruncate` has extended: it has that
-- many bytes, and they are zero, so that a mapping shows these.
pub record NewFilesAreZero (os : Os) : Type 0 where
  pub shown :
      (path : FilePath) (size fd : ℕ) (w : os.World) (l : List ℕ)
      → (os.open_truncated path w).0 ≡ some fd
      → let w1 = (os.open_truncated path w).1 in
        (os.ftruncate fd size w1).0 ≡ true
        → (os.mmap fd size (os.ftruncate fd size w1).1).0 ≡ some l
        → (length l ≡ size) × (is_zero_filled l ≡ true)

-- A new file of some size, and a result that is an error or has one.
pub record IsNew (size : ℕ) (f : MmapFile) : Type 0 where
  pub is_open : Mmap.valid f ≡ true
  pub sized : f.size ≡ size
  pub whole : length (bytes f) ≡ size
  pub zero : is_zero_filled (bytes f) ≡ true

abbrev NewIfAny : ℕ → Expected MmapFile → Type 0
NewIfAny size (error s) = Unit {0}
NewIfAny size (value f) = IsNew size f

-- A failure, or a writer on an empty log of this configuration.
abbrev pub EmptyLogOrError : WalConfig → Expected WalWriter → Type 0
EmptyLogOrError config (error s) = is_ok s ≡ false
EmptyLogOrError config (value w) =
    Wrote w []
    × (w.file.size ≡ config.file_size_bytes)
    × (w.flush_on_append ≡ config.flush_on_commit)

module _ (os : Os) (z : NewFilesAreZero os) where
  map_new-NewIfAny :
      (path : FilePath) (size fd : ℕ) (flush : Bool) (w : os.World)
      → size == 0 ≡ false
      → ((l : List ℕ)
          → (os.mmap fd size w).0 ≡ some l
          → (length l ≡ size) × (is_zero_filled l ≡ true))
      → NewIfAny size (map_new os fd size path flush w).0
  unfolding bytes Mmap.valid
  map_new-NewIfAny path size fd flush w positive shown = elim (Option-cases (os.mmap fd size w).0) [
    | inl failed ↦ rw (failed, map_new) tt
    | inr (l, mapped) ↦
        let (sized, zero) = shown l mapped in
        rw (mapped, map_new)
          (record {
            is_open = rw positive refl;
            sized = refl;
            whole = rw positive sized;
            zero = rw positive zero;
          })
  ]

  create-NewIfAny :
      (path : FilePath) (size : ℕ) (flush : Bool) (w : os.World)
      → NewIfAny size (Mmap.create os path size flush w).0
  unfolding Mmap.create
  create-NewIfAny path size flush w = elim (Bool-cases (is_empty path)) [
    | inl p ↦ rw p tt
    | inr p ↦ elim (Bool-cases (size == 0)) [
      | inl n ↦ rw (p, n) tt
      | inr n ↦ elim (Option-cases (os.open_truncated path w).0) [
        | inl e ↦ rw (p, n, e) tt
        | inr (fd, e) ↦ elim (Bool-cases (os.ftruncate fd size (os.open_truncated path w).1).0) [
          | inr t ↦ rw (p, n, e, t) tt
          | inl t ↦
              rw (p, n, e, t)
                (map_new-NewIfAny path size fd flush _ n (λ l. z.shown path size fd w l e t))
        ]
      ]
    ]
  ]

  writer_on_new :
      (config : WalConfig) (file : Expected MmapFile) (w : os.World)
      → fits_size_t config.file_size_bytes ≡ true
      → NewIfAny config.file_size_bytes file
      → let out : Expected WalWriter × os.World = elim file [
        | error s ↦ (of_status s, w)
        | value f ↦ (value (writer_on f config.flush_on_commit), w)
      ] in
        EmptyLogOrError config out.0
  writer_on_new config (error s) w fits n = (of_status_lem WalWriter s).1
  writer_on_new config (value f) w fits n = (
    record {
      zeros = bytes f;
      log = record {
        is_open = n.is_open;
        whole = n.whole ∙ sym n.sized;
        fits = ground (arith, n.sized, fits);
        split = refl;
        slack = n.zero;
        entries = tt;
      };
      at = refl;
      next = refl;
      count = refl;
    },
    n.sized,
    refl,
  )

  pub create-EmptyLogOrError :
      (config : WalConfig) (w : os.World) → EmptyLogOrError config (create os config w).0
  unfolding create
  create-EmptyLogOrError config w =
      let path = config.path in
      let size = config.file_size_bytes in
      let made = Mmap.create os path size true w in
      let P : Expected WalWriter × os.World → Type 0 = λ r. EmptyLogOrError config r.0 in
      elim (Bool-cases (is_ok (validate_wal config))) [
        | inr bad ↦ rw bad bad
        | inl good ↦ elim (Bool-cases (is_empty path)) [
          | inl p ↦ rw (good, p) refl
          | inr p ↦ elim (Bool-cases (ltb size wal_record_header_size)) [
            | inl b ↦ rw (good, p, b) refl
            | inr b ↦ elim (Bool-cases (fits_size_t size)) [
              | inr c ↦ rw (good, p, b, c) refl
              | inl c ↦
                  rw (good, p, b, c)
                    (writer_on_new config made.0 made.1 c (create-NewIfAny path size true w))
            ]
          ]
        ]
      ]
