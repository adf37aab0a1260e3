-- ===== src/Io/Os.antt =====
-- What the code asks of the operating system and the C++ library: the POSIX calls of
-- src/io/mmap_file.cpp and the steady clock of include/aether/utils/clock.hpp. They act on a
-- world of which the model knows nothing.
use aether_stream.Common.{ℕ, Bool, Option, List}
use aether_stream.Core.Config.{FilePath}

pub record Os : Type 1 where
  pub World : Type 0
  -- `open` with `O_RDWR | O_CREAT | O_TRUNC`, and with `O_RDWR`: a descriptor, or -1.
  pub open_truncated : FilePath → World → Option ℕ × World
  pub open_present : FilePath → World → Option ℕ × World
  -- `st_size` of `fstat`, which is not negative for a file; `none` is a failure.
  pub fstat_size : ℕ → World → Option ℕ × World
  -- These answer `true` for success.
  pub ftruncate : ℕ → ℕ → World → Bool × World
  pub msync : List ℕ → World → Bool × World
  pub munmap : List ℕ → World → Bool × World
  pub close_fd : ℕ → World → Bool × World
  -- The bytes of a new shared mapping of a descriptor, or `MAP_FAILED`.
  pub mmap : ℕ → ℕ → World → Option (List ℕ) × World
  -- `steady_clock::now()` in nanoseconds.
  pub steady_now : World → ℕ × World
