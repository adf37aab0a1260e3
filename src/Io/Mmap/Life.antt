-- ===== src/Io/Mmap/Life.antt =====
-- The ledger through the whole life of an `MmapFile`: nothing leaks but by a call of `munmap` or
-- `close` that failed, and nothing is given back twice.
use aether_stream.Common.{
  ap, ◌∙◌, ℕ, ◌+◌, ◌≡◌, refl, Bool, true, false, ◌==◌, ◌&&◌, Option, none, some, List, [], ◌∷◌,
  Bool-cases, Option-cases, inl, inr, arith,
}
use aether_stream.Core.Status.{Status, is_ok}
use aether_stream.Core.Expected.{Expected, value, error}
use aether_stream.Core.Config.{FilePath}
use aether_stream.Io.Os.{Os}
use aether_stream.Io.Mmap
use aether_stream.Io.Mmap.{
  MmapFile, no_file, is_present, valid, reset, fail_closing, map_new, create, open_existing, flush,
  resize, resize_flushed, remap, close,
}
use aether_stream.Io.Mmap.Ledger.{
  Ledger, traced, one_if, one_of, count_unmap, Balanced, BalancedResult, create-Balanced,
  open_existing-Balanced, FileCall, flushes, resizes, closes, file_call, file_life, life_of,
}

module _ (os : Os) where
  -- `flush` gives nothing back and takes nothing.
  sync_ledger : (a : Bool × (os.World × Ledger)) → (Mmap.sync_answer (traced os) a).1 ≡ a.1
  sync_ledger (true, w) = refl
  sync_ledger (false, w) = refl

  flush_ledger : (f : MmapFile) (w : os.World × Ledger) → (flush (traced os) f w).1.1 ≡ w.1
  unfolding flush
  flush_ledger f w = elim (Bool-cases (valid f)) [
    | inr v ↦ rw v
    | inl v ↦ rw v (ap (λ (z : os.World × Ledger). z.1) (sync_ledger _))
  ]

  -- Behind `munmap`, even one that failed, the object has no mapping.
  released :
      {l : Ledger} (f : MmapFile) (done : Bool)
      → Balanced f l
      → valid f ≡ true
      → Balanced (record f { bytes_at = none; size = 0 }) (count_unmap done l)
  unfolding valid
  released f done h v =
      let held : is_present f.bytes_at ≡ true = ground (arith, v) in
      record {
        descriptors = h.descriptors;
        mappings = (rw held at h.mappings) ∙ omega (arith, one_of done);
        sized = refl;
      }

  remap-Balanced :
      (f : MmapFile) (fd n : ℕ) (w : os.World × Ledger)
      → Balanced (record f { bytes_at = none; size = 0 }) w.1
      → (n == 0) ≡ false
      → let (s, f', w') = remap (traced os) (record f { bytes_at = none; size = 0 }) fd n w in
        Balanced f' w'.1
  remap-Balanced f fd n w h some_size = elim (Option-cases (os.mmap fd n w.0).0) [
    | inl e ↦ rw (remap, e, e) h
    | inr (mapped, e) ↦
        rw (remap, e, e)
          (record {
            descriptors = h.descriptors;
            mappings = omega (arith, h.mappings);
            sized = some_size;
          })
  ]

  resize_flushed-Balanced :
      (f : MmapFile) (mapped : List ℕ) (fd n : ℕ) (w : os.World × Ledger)
      → Balanced f w.1
      → valid f ≡ true
      → (n == 0) ≡ false
      → let (s, f', w') = resize_flushed (traced os) f mapped fd n w in Balanced f' w'.1
  resize_flushed-Balanced f mapped fd n w h v some_size =
      elim (Bool-cases (os.munmap mapped w.0).0) [
        | inr e ↦ rw (resize_flushed, e) (released f _ h v)
        | inl e ↦ elim (Bool-cases (os.ftruncate fd n (os.munmap mapped w.0).1).0) [
          | inr t ↦ rw (resize_flushed, e, t) (released f _ h v)
          | inl t ↦ rw (resize_flushed, e, t) (remap-Balanced f fd n _ (released f _ h v) some_size)
        ]
      ]

  resize_eq :
      (f : MmapFile) (n : ℕ) (w : os.World × Ledger)
      → (n == 0) ≡ false
      → valid f ≡ true
      → resize (traced os) f n w ≡ Mmap.resize_after (traced os) f n (flush (traced os) f w)
  unfolding resize
  resize_eq f n w z v = rw (z, v)

  resize_after-Balanced :
      (f : MmapFile) (n : ℕ) (flushed : Status × (os.World × Ledger))
      → Balanced f flushed.1.1
      → valid f ≡ true
      → (n == 0) ≡ false
      → let (s, f', w') = Mmap.resize_after (traced os) f n flushed in Balanced f' w'.1
  resize_after-Balanced f n (s, w) h v z = elim (Bool-cases (is_ok s)) [
    | inr failed ↦ rw failed h
    | inl ok ↦ rw ok (resize_flushed-Balanced f _ _ n w h v z)
  ]

  resize-Balanced :
      (f : MmapFile) (n : ℕ) (w : os.World × Ledger)
      → Balanced f w.1
      → let (s, f', w') = resize (traced os) f n w in Balanced f' w'.1
  resize-Balanced f n w h = elim (Bool-cases (n == 0)) [
    | inl z ↦ unfold resize in rw z h
    | inr z ↦ elim (Bool-cases (valid f)) [
      | inr v ↦ unfold resize in rw (z, v) h
      | inl v ↦
          rw (resize_eq f n w z v)
            (resize_after-Balanced f n (flush (traced os) f w) (rw (flush_ledger f w) h) v z)
    ]
  ]

  flush_on_close_ledger :
      (f : MmapFile) (w : os.World × Ledger) → (Mmap.flush_on_close (traced os) f w).1.1 ≡ w.1
  flush_on_close_ledger f w = elim (Bool-cases (valid f && f.flush_on_destroy)) [
    | inl v ↦ rw v (flush_ledger f w)
    | inr v ↦ rw v
  ]

  abbrev file_of : Option ℕ → Option (List ℕ) → ℕ → FilePath → Bool → MmapFile
  file_of fd bytes_at size path b = record {
    fd = fd;
    bytes_at = bytes_at;
    size = size;
    path = path;
    flush_on_destroy = b;
  }

  -- The mapping goes back, and then the descriptor.
  unmap_ledger :
      (fd : Option ℕ) (bytes_at : Option (List ℕ)) (size : ℕ) (path : FilePath) (b : Bool)
      (first : Status) (w : os.World × Ledger)
      → Balanced (file_of fd bytes_at size path b) w.1
      → let l = (Mmap.unmap_on_close (traced os) (file_of fd bytes_at size path b) first w).1.1 in
        (l.opened ≡ l.closed + l.not_closed + one_if (is_present fd))
        × (l.mapped ≡ l.unmapped + l.not_unmapped)
  unmap_ledger fd none size path b first w h = (h.descriptors, omega (arith, h.mappings))
  unmap_ledger fd (some mapped) size path b first w h =
      let z : (size == 0) ≡ false = h.sized in
      rw z (h.descriptors, omega (arith, h.mappings, one_of (os.munmap mapped w.0).0))

  close_ledger :
      (fd : Option ℕ) (bytes_at : Option (List ℕ)) (size : ℕ) (path : FilePath) (b : Bool)
      (first : Status) (w : os.World × Ledger)
      → w.1.opened ≡ w.1.closed + w.1.not_closed + one_if (is_present fd)
      → w.1.mapped ≡ w.1.unmapped + w.1.not_unmapped
      → let l = (Mmap.close_on_close (traced os) (file_of fd bytes_at size path b) first w).1.1 in
        Balanced no_file l
  close_ledger none bytes_at size path b first w d m = record {
    descriptors = d;
    mappings = omega (arith, m);
    sized = refl;
  }
  close_ledger (some fd) bytes_at size path b first w d m = record {
    descriptors = omega (arith, d, one_of (os.close_fd fd w.0).0);
    mappings = omega (arith, m);
    sized = refl;
  }

  close-Balanced :
      (f : MmapFile) (w : os.World × Ledger)
      → Balanced f w.1
      → Balanced no_file (close (traced os) f w).2.1
  unfolding close
  close-Balanced f w h =
      let flushed = Mmap.flush_on_close (traced os) f w in
      let h1 : Balanced f flushed.1.1 = rw (flush_on_close_ledger f w) h in
      let (d, m) =
        unmap_ledger f.fd f.bytes_at f.size f.path f.flush_on_destroy flushed.0 flushed.1 h1 in
      close_ledger f.fd f.bytes_at f.size f.path f.flush_on_destroy _ _ d m

-- Nothing is held: what was handed out was given back, but where the call that was to do so failed.
abbrev pub Even : Ledger → Type 0
Even l = (l.opened ≡ l.closed + l.not_closed) × (l.mapped ≡ l.unmapped + l.not_unmapped)

module _ (os : Os) where
  call-Balanced :
      (f : MmapFile) (call : FileCall) (w : os.World × Ledger)
      → Balanced f w.1
      → let (f', w') = file_call (traced os) f call w in Balanced f' w'.1
  unfolding close reset
  call-Balanced f flushes w h = rw (flush_ledger os f w) h
  call-Balanced f (resizes n) w h = resize-Balanced os f n w h
  call-Balanced f closes w h = close-Balanced os f w h

  life-Even :
      (f : MmapFile) (calls : List FileCall) (w : os.World × Ledger)
      → Balanced f w.1
      → Even (file_life (traced os) f calls w).1
  unfolding file_life
  life-Even f [] w h =
      let b = close-Balanced os f w h in (omega (arith, b.descriptors), omega (arith, b.mappings))
  life-Even f (call ∷ calls) w h =
      let (f', w') = file_call (traced os) f call w in
      life-Even f' calls w' (call-Balanced f call w h)

  life_of-Even :
      (r : Expected MmapFile × (os.World × Ledger)) (calls : List FileCall)
      → BalancedResult r.0 r.1.1
      → Even (life_of (traced os) r calls).1
  life_of-Even (error s, w) calls h = (omega (arith, h.descriptors), omega (arith, h.mappings))
  life_of-Even (value f, w) calls h = life-Even f calls w h

  -- Whatever the operating system answers, which call fails included, and whatever the owner of a
  -- file calls in between: from `create` or `open_existing` to the destructor, if the ledger was
  -- even before, as many calls of `close` are made as descriptors were opened, and as many of
  -- `munmap` as mappings were made. So as many are not given back as such calls failed.
  pub file_lives-Even :
      (path : FilePath) (size : ℕ) (b : Bool) (calls : List FileCall) (w : os.World × Ledger)
      → Even w.1
      → Even (life_of (traced os) (create (traced os) path size b w) calls).1
        × Even (life_of (traced os) (open_existing (traced os) path b w) calls).1
  file_lives-Even path size b calls w even =
      let h : Balanced no_file w.1 = record {
        descriptors = omega (arith, even.0);
        mappings = omega (arith, even.1);
        sized = refl;
      } in
      (
        life_of-Even (create (traced os) path size b w) calls (create-Balanced os path size b w h),
        life_of-Even (open_existing (traced os) path b w) calls
            (open_existing-Balanced os path b w h),
      )
