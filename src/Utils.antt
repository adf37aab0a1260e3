-- ===== src/Utils.antt =====
-- include/aether/utils/spin_wait.hpp and thread_utils.hpp: the two backoff helpers, which are both
-- called `SpinWait`, and the names of threads. What a hint does to the processor or the scheduler is
-- left out.
pub mod Backoff
use aether_stream.Common.{
  ℕ, zero, suc, ◌+◌, ◌-◌, ◌%◌, Bool, true, false, not, ◌||◌, ltb, if◌then◌else◌, List, [], ◌∷◌,
  length, set, replicate, get_or,
}
use aether_stream.Core.Types.{u32_mod}

pub data Hint : Type 0 where
  relaxes yields : Hint

-- The members of both classes: `count_` or `counter_`, `pause_iterations_` and
-- `yield_after_spin_`.
pub record SpinWait : Type 0 where
  pub count : ℕ
  pub pause_iterations : ℕ
  pub yield_after_spin : Bool

-- `SpinWait(pause_iterations, yield_after_spin)`.
abbrev pub make : ℕ → Bool → SpinWait
make pause_iterations yield_after_spin = record {
  count = 0;
  pause_iterations = pause_iterations;
  yield_after_spin = yield_after_spin;
}

-- `pause` of spin_wait.hpp.
unfoldable pub pause : SpinWait → Hint × SpinWait
pause s = (
  if ltb s.count s.pause_iterations || not s.yield_after_spin then relaxes else yields,
  record s { count = (s.count + 1) % u32_mod },
)

-- `wait` of thread_utils.hpp.
unfoldable pub wait : SpinWait → Hint × SpinWait
wait s =
    if ltb s.count s.pause_iterations
    then (relaxes, record s { count = (s.count + 1) % u32_mod })
    else (if s.yield_after_spin then yields else relaxes, s)

-- `reset` of both.
unfoldable pub reset : SpinWait → SpinWait
reset s = record s { count = 0 }

-- The loop of `set_current_thread_name` over `name[i]`, on the rounds left.
unfoldable pub copy_name : ℕ → ℕ → List ℕ → List ℕ → List ℕ
copy_name zero i name buffer = buffer
copy_name (suc rounds) i name buffer =
    copy_name rounds (i + 1) name (set buffer i (get_or name i 0))

-- What `set_current_thread_name` passes on: a buffer of 16 characters on Linux, of 64 on macOS.
unfoldable pub thread_name : ℕ → List ℕ → List ℕ
unfolding copy_name
thread_name size name =
    let count = if ltb (length name) (size - 1) then length name else size - 1 in
    copy_name count 0 name (replicate size 0)
