-- ===== src/Io/Mmap/Ledger.antt =====
-- Descriptors and mappings through the life of an `MmapFile`: an operating system that keeps a
-- ledger of what it hands out and takes back, and what the operations do to the ledger.
use aether_stream.Common.{
  ℕ, ◌+◌, ◌≡◌, refl, Bool, true, false, not, ◌==◌, ◌&&◌, if◌then◌else◌, Option, none, some, List,
  [], ◌∷◌, is_empty, Bool-cases, Option-cases, inl, inr, arith,
}
use aether_stream.Core.Expected.{Expected, value, error}
use aether_stream.Core.Config.{FilePath}
use aether_stream.Io.Os.{Os}
use aether_stream.Io.Mmap.{
  MmapFile, no_file, is_present, map_new, create, open_existing, flush, resize, close,
}

-- The calls that handed out a descriptor or a mapping, those that gave one back, and those that
-- failed to.
pub record Ledger : Type 0 where
  pub opened : ℕ
  pub closed : ℕ
  pub not_closed : ℕ
  pub mapped : ℕ
  pub unmapped : ℕ
  pub not_unmapped : ℕ

abbrev pub count_open : Option ℕ → Ledger → Ledger
count_open none l = l
count_open (some fd) l = record l { opened = l.opened + 1 }

abbrev pub count_map : Option (List ℕ) → Ledger → Ledger
count_map none l = l
count_map (some mapped) l = record l { mapped = l.mapped + 1 }

abbrev pub one_if : Bool → ℕ
one_if b = if b then 1 else 0

pub one_of : (b : Bool) → one_if b + one_if (not b) ≡ 1
one_of true = refl
one_of false = refl

abbrev pub count_close : Bool → Ledger → Ledger
count_close done l = record l {
  closed = l.closed + one_if done;
  not_closed = l.not_closed + one_if (not done);
}

abbrev pub count_unmap : Bool → Ledger → Ledger
count_unmap done l = record l {
  unmapped = l.unmapped + one_if done;
  not_unmapped = l.not_unmapped + one_if (not done);
}

-- The same operating system with a ledger.
abbrev pub traced : Os → Os
traced os = record {
  World = os.World × Ledger;
  open_truncated =
      λ path w. let (fd, w') = os.open_truncated path w.0 in (fd, (w', count_open fd w.1));
  open_present = λ path w. let (fd, w') = os.open_present path w.0 in (fd, (w', count_open fd w.1));
  fstat_size = λ fd w. let (size, w') = os.fstat_size fd w.0 in (size, (w', w.1));
  ftruncate = λ fd size w. let (done, w') = os.ftruncate fd size w.0 in (done, (w', w.1));
  msync = λ mapped w. let (done, w') = os.msync mapped w.0 in (done, (w', w.1));
  munmap = λ mapped w. let (done, w') = os.munmap mapped w.0 in (done, (w', count_unmap done w.1));
  close_fd = λ fd w. let (done, w') = os.close_fd fd w.0 in (done, (w', count_close done w.1));
  mmap = λ fd size w.
      let (mapping, w') = os.mmap fd size w.0 in (mapping, (w', count_map mapping w.1));
  steady_now = λ w. let (now, w') = os.steady_now w.0 in (now, (w', w.1));
}

-- What was handed out, and was neither given back nor lost by a call that failed to, is what the
-- object holds; an object with a mapping has a size.
pub record Balanced (f : MmapFile) (l : Ledger) : Type 0 where
  pub descriptors : l.opened ≡ l.closed + l.not_closed + one_if (is_present f.fd)
  pub mappings : l.mapped ≡ l.unmapped + l.not_unmapped + one_if (is_present f.bytes_at)
  pub sized : (is_present f.bytes_at && f.size == 0) ≡ false

abbrev pub BalancedResult : Expected MmapFile → Ledger → Type 0
BalancedResult (error s) l = Balanced no_file l
BalancedResult (value f) l = Balanced f l

module _ (os : Os) where
  -- With one descriptor in hand.
  record Opened (l : Ledger) : Type 0 where
    descriptors : l.opened ≡ l.closed + l.not_closed + 1
    mappings : l.mapped ≡ l.unmapped + l.not_unmapped

  map_new-Balanced :
      (fd size : ℕ) (path : FilePath) (b : Bool) (w : os.World × Ledger)
      → Opened w.1
      → (size == 0) ≡ false
      → let (r, w') = map_new (traced os) fd size path b w in BalancedResult r w'.1
  map_new-Balanced fd size path b w o sized = elim (Option-cases (os.mmap fd size w.0).0) [
    | inl e ↦
        rw (e, map_new, e, BalancedResult)
          (record {
            descriptors =
                omega (arith, o.descriptors, one_of (os.close_fd fd (os.mmap fd size w.0).1).0);
            mappings = omega (arith, o.mappings);
            sized = refl;
          })
    | inr (mapped, e) ↦
        rw (e, map_new, e, BalancedResult)
          (record {
            descriptors = o.descriptors;
            mappings = omega (arith, o.mappings);
            sized = sized;
          })
  ]

  opened_one : {l : Ledger} → Balanced no_file l → Opened (record l { opened = l.opened + 1 })
  opened_one h = record {
    descriptors = omega (arith, h.descriptors);
    mappings = omega (arith, h.mappings);
  }

  -- A descriptor that was opened and then was to be closed again.
  fail_closing-Balanced :
      {l : Ledger} (done : Bool)
      → Balanced no_file l
      → Balanced no_file (count_close done (record l { opened = l.opened + 1 }))
  fail_closing-Balanced done h = record {
    descriptors = omega (arith, h.descriptors, one_of done);
    mappings = h.mappings;
    sized = refl;
  }

  pub create-Balanced :
      (path : FilePath) (size : ℕ) (b : Bool) (w : os.World × Ledger)
      → Balanced no_file w.1
      → let (r, w') = create (traced os) path size b w in BalancedResult r w'.1
  unfolding create
  create-Balanced path size b w h = elim (Bool-cases (is_empty path)) [
    | inl p ↦ rw p h
    | inr p ↦ elim (Bool-cases (size == 0)) [
      | inl z ↦ rw (p, z) h
      | inr z ↦ elim (Option-cases (os.open_truncated path w.0).0) [
        | inl e ↦ rw (p, z, e, e) h
        | inr (fd, e) ↦ elim (Bool-cases (os.ftruncate fd size (os.open_truncated path w.0).1).0) [
          | inl t ↦ rw (p, z, e, t, e) (map_new-Balanced fd size path b _ (opened_one h) z)
          | inr t ↦ rw (p, z, e, t, e) (fail_closing-Balanced _ h)
        ]
      ]
    ]
  ]

  pub open_existing-Balanced :
      (path : FilePath) (b : Bool) (w : os.World × Ledger)
      → Balanced no_file w.1
      → let (r, w') = open_existing (traced os) path b w in BalancedResult r w'.1
  unfolding open_existing
  open_existing-Balanced path b w h = elim (Bool-cases (is_empty path)) [
    | inl p ↦ rw p h
    | inr p ↦ elim (Option-cases (os.open_present path w.0).0) [
      | inl e ↦ rw (p, e, e) h
      | inr (fd, e) ↦ elim (Option-cases (os.fstat_size fd (os.open_present path w.0).1).0) [
        | inl t ↦ rw (p, e, t, e) (fail_closing-Balanced _ h)
        | inr (size, t) ↦ elim (Bool-cases (size == 0)) [
          | inl z ↦ rw (p, e, t, z, e) (fail_closing-Balanced _ h)
          | inr z ↦ rw (p, e, t, z, e) (map_new-Balanced fd size path b _ (opened_one h) z)
        ]
      ]
    ]
  ]

-- The calls of a file's owner, in order, and its destructor behind them.
pub data FileCall : Type 0 where
  flushes : FileCall
  resizes : ℕ → FileCall
  closes : FileCall

module _ (os : Os) where
  abbrev pub file_call : MmapFile → FileCall → os.World → MmapFile × os.World
  file_call f flushes w = let (s, w') = flush os f w in (f, w')
  file_call f (resizes n) w = let (s, f', w') = resize os f n w in (f', w')
  file_call f closes w = let (s, f', w') = close os f w in (f', w')

  unfoldable pub file_life : MmapFile → List FileCall → os.World → os.World
  file_life f [] w = (close os f w).2
  file_life f (call ∷ calls) w = let (f', w') = file_call f call w in file_life f' calls w'

  abbrev pub life_of : Expected MmapFile × os.World → List FileCall → os.World
  life_of (error s, w) calls = w
  life_of (value f, w) calls = file_life f calls w
