-- ===== src/Tests/Io.antt =====
-- The life of a file under an operating system that keeps a ledger.
use aether_stream.Common.{ℕ, refl, List, [], ◌∷◌, codes, true}
use aether_stream.Io.Mmap.{create, open_existing}
use aether_stream.Io.Mmap.Ledger.{Ledger, traced, FileCall, flushes, resizes, closes, life_of}
use aether_stream.Io.Mmap.Life.{Even, file_lives-Even}
use aether_stream.Tests.Data.{test_os}

abbrev empty_ledger : Ledger
empty_ledger = record {
  opened = 0;
  closed = 0;
  not_closed = 0;
  mapped = 0;
  unmapped = 0;
  not_unmapped = 0;
}

abbrev start_world : ℕ × Ledger
start_world = (5, empty_ledger)

abbrev test_calls : List FileCall
test_calls = flushes ∷ resizes 64 ∷ closes ∷ resizes 32 ∷ []

file_lives-Even_example :
    Even
      (life_of
        (traced test_os)
        (create (traced test_os) (codes "test.wal") 128 true start_world)
        test_calls).1
    × Even
        (life_of
          (traced test_os)
          (open_existing (traced test_os) (codes "test.wal") true start_world)
          test_calls).1
file_lives-Even_example =
    file_lives-Even test_os (codes "test.wal") 128 true test_calls start_world (refl, refl)
