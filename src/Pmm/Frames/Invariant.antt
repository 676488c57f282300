-- ===== src/Pmm/Frames/Invariant.antt =====
-- `pmm_alloc` and `pmm_free` keep the allocator at work, and freeing what was allocated restores it.
use orchestr_os.Base.{ℕ, ◌+◌, ◌*◌, ◌^◌, ◌≤◌, ◌<◌, ◌≡◌, ◌≢◌, arith}
use orchestr_os.Base.Word.{page_size}
use orchestr_os.Base.Run.{Returns, Returns-bind, Returns-mono, followed_by}
use orchestr_os.BootProto.{Limine}
use orchestr_os.Pmm.State.{Pmm, is_used}
use orchestr_os.Pmm.Find.FirstFit.{AllFree}
use orchestr_os.Pmm.Frames.{alloc, free}
use orchestr_os.Pmm.Frames.Laws.{
  IsPmm, Allocated, Freed, ApartFromBitmap, alloc-Allocated, free-Freed, free-ApartFromBitmap,
}

module _ (l : Limine) (s : Pmm) (n : ℕ) (inv : IsPmm l s) (pos : 0 < n) where
  pub Allocated-IsPmm : {a : ℕ} {s' : Pmm} → Allocated s n a s' → IsPmm l s'
  Allocated-IsPmm got = record {
    bytes = got.marked.bytes;
    mapped = rw got.marked.bitmap_size inv.mapped;
    page_zero = ground (arith, got.marked.used 0, inv.page_zero);
    reserved = λ k b lt h m.
        ground
          (arith, got.marked.used k, inv.reserved k b, got.marked.bitmap, got.marked.bitmap_size);
  }

  -- Page 0 is used, so the first free run lies above it.
  pub Allocated-ne-null : {a : ℕ} {s' : Pmm} → Allocated s n a s' → a ≢ 0
  Allocated-ne-null got e =
      let at_zero : got.page ≡ 0 = let e' = got.address in omega arith in
      ground (arith, inv.page_zero, got.fit.free 0 (omega arith) (omega arith))

  -- `pmm_alloc` keeps the allocator at work, and what it returns is not `NULL`.
  pub alloc-IsPmm :
      (q : ℕ)
      → q + n ≤ s.bitmap_size * 8
      → AllFree s q n
      → Returns (λ a s'. IsPmm l s' × (a ≢ 0)) (alloc n s)
  alloc-IsPmm q fits all =
      Returns-mono (alloc-Allocated l s n q inv pos fits all)
        λ a s' got. (Allocated-IsPmm got, Allocated-ne-null got)

  Freed-IsPmm :
      {page : ℕ} {s' : Pmm}
      → 0 < page
      → page + n ≤ s.bitmap_size * 8
      → ApartFromBitmap l s page n
      → Freed l s page n s'
      → IsPmm l s'
  Freed-IsPmm {page} above fits apart freed = record {
    bytes = freed.bytes;
    mapped = rw freed.bitmap_size inv.mapped;
    page_zero = ground (arith, freed.used 0, inv.page_zero);
    reserved = λ k b lt h m.
        ground (arith, freed.used k, inv.reserved k b, apart b, freed.bitmap, freed.bitmap_size);
  }

  -- `pmm_free` of fewer than 2^19 pages above page 0, in which the bitmap does not lie, keeps the allocator at work.
  pub free-IsPmm :
      (page : ℕ)
      → n < 2 ^ 19
      → 0 < page
      → page + n ≤ s.bitmap_size * 8
      → ApartFromBitmap l s page n
      → Returns (λ r s'. (r ≡ 0) × IsPmm l s') (free l (page * page_size) n s)
  free-IsPmm page few above fits apart =
      Returns-mono (free-Freed l s page n inv pos few fits apart)
        λ r s' (zero, freed). (zero, Freed-IsPmm above fits apart freed)

-- Allocating `n` pages, fewer than 2^19, and freeing them at the address that came back leaves the allocator at work,
-- with the same pages used as before.
pub free-alloc :
    (l : Limine) (s : Pmm) (n q : ℕ)
    → IsPmm l s
    → 0 < n
    → n < 2 ^ 19
    → q + n ≤ s.bitmap_size * 8
    → AllFree s q n
    → Returns
        (λ r s'. IsPmm l s' × ((k : ℕ) → k < s.bitmap_size * 8 → is_used s' k ≡ is_used s k))
        (followed_by (alloc n s) λ a. free l a n)
free-alloc l s n q inv pos few fits all =
    Returns-bind (alloc-Allocated l s n q inv pos fits all) λ a t got.
      let apart : ApartFromBitmap l t got.page n = λ b.
        rw (got.marked.bitmap, got.marked.bitmap_size)
          (free-ApartFromBitmap l s got.page n inv got.fit.fits got.fit.free b) in
      let fits' : got.page + n ≤ t.bitmap_size * 8 = rw got.marked.bitmap_size got.fit.fits in
      let t_inv = Allocated-IsPmm l s n inv pos got in
      let above = Allocated-ne-null l s n inv pos got in
      let e = got.address in
      rw e (
        Returns-mono (free-Freed l t got.page n t_inv pos few fits' apart) λ r s' (zero, freed). (
          Freed-IsPmm l t n t_inv pos (ground arith) fits' apart freed,
          λ k h. ground (
            arith,
            freed.used k (rw got.marked.bitmap_size h),
            got.marked.used k,
            got.fit.free k,
          ),
        ))
