-- ===== src/KHeap/Init.antt =====
-- `kheap_init` of symphony/mm/kheap.c: a heap at work with one free block.
use orchestr_os.Base.{
  ℕ, ◌+◌, ◌-◌, ◌*◌, ◌≤◌, ◌<◌, ◌^◌, ◌≡◌, ◌≢◌, refl, ◌∙◌, true, false, [], ◌∷◌, Bool, arith,
}
use orchestr_os.Base.Run.{Returns, returns, Returns-bind}
use orchestr_os.Base.Word.{u64, page_size}
use orchestr_os.Memory.{Mem, within, memset}
use orchestr_os.BootProto.{Limine}
use orchestr_os.Pmm.State.{Pmm}
use orchestr_os.Pmm.Find.FirstFit.{AllFree}
use orchestr_os.Pmm.Frames.Laws.{IsPmm, Allocated, alloc-Allocated}
use orchestr_os.Pmm.Frames.Invariant.{Allocated-IsPmm, Allocated-ne-null}
use orchestr_os.KHeap.{KHeap, alloc_pages, first_memory, first_block, kheap_init, kheap_init_pages}
use orchestr_os.KHeap.Header.{
  header, memset-Touched, set_size-Touched, set_free-Touched, set_next-Touched, set_prev-Touched,
  header-set_size, header-set_free, header-set_next, header-set_prev,
}
use orchestr_os.KHeap.Blocks.{if_one, cover}
use orchestr_os.KHeap.Append.{new_block}
use orchestr_os.KHeap.Extend.{with_pages-Returns}
use orchestr_os.KHeap.Fresh.{cover-new_block}
use orchestr_os.KHeap.Invariant.{IsKHeap}
use orchestr_os.Pmm.Pages.{Owned, IsPmm-write, Owned-write, no_wrap, outside_of, fresh-Owned}

abbrev pub size : ℕ
size = kheap_init_pages * page_size

if_one_some : (b : Bool) → 1 ≤ if_one b → b ≡ true
if_one_some true h = refl
if_one_some false h = absurd (omega (arith, h))

some_tracked : (page size size' : ℕ) → page + 16 ≤ size * 8 → size' ≡ size → 0 < size'
some_tracked page size size' h e = omega arith

not_null : (base hhdm : ℕ) → base ≢ 0 → 0 < base + hhdm
not_null base hhdm h = omega (arith, h)

header_fits : (at : ℕ) → at + size < 2 ^ 64 → at + 32 + (size - 32) < 2 ^ 64
header_fits at h = omega (arith, h)

module _ (m : Mem) (start : ℕ) where
  header_first :
      header (first_memory start size m) start
      ≡ record { size = size - 32; free = true; next = 0; prev = 0 }
  unfolding first_memory
  header_first =
      header-set_free _ start _
        (header-set_next _ start _
          (header-set_prev _ start _
            (header-set_size (memset start 0 32 m) start _ refl (size - 32) (omega arith)) 0
            (omega arith))
          0 (omega arith))
        true

  pub first_memory-outside : (a : ℕ) → within start 32 a ≡ false → first_memory start size m a ≡ m a
  unfolding first_memory
  first_memory-outside a h =
      (set_free-Touched _ start true).outside a h
      ∙ (set_next-Touched _ start 0).outside a h
      ∙ (set_prev-Touched _ start 0).outside a h
      ∙ (set_size-Touched _ start (size - 32)).outside a h
      ∙ (memset-Touched m start).outside a h

  first_memory-bytes : ((a : ℕ) → m a < 256) → (a : ℕ) → first_memory start size m a < 256
  unfolding first_memory
  first_memory-bytes h = (set_free-Touched _ start true).bytes (
      (set_next-Touched _ start 0).bytes (
        (set_prev-Touched _ start 0).bytes
          ((set_size-Touched _ start (size - 32)).bytes ((memset-Touched m start).bytes h))))

module _ (l : Limine) (s : KHeap) (base : ℕ) (p : Pmm) (inv : IsPmm l s.pmm)
    (below : s.pmm.bitmap_size * 8 * page_size + l.hhdm_offset < 2 ^ 64)
    (got : Allocated s.pmm kheap_init_pages base p) where
  abbrev at : ℕ
  at = base + l.hhdm_offset

  pub fits : at + size < 2 ^ 64
  fits = no_wrap base got.page l.hhdm_offset kheap_init_pages _ got.address got.fit.fits below

  pub fresh : (a : ℕ) → within at size a ≡ true → Owned l p a
  fresh = fresh-Owned l s.pmm kheap_init_pages base p inv got

  pub same :
      (a : ℕ)
      → within p.bitmap p.bitmap_size a ≡ true
      → first_memory at size p.memory a ≡ p.memory a
  same a h = first_memory-outside p.memory at a (
      outside_of at 32 a (within p.bitmap p.bitmap_size) (λ e. (fresh a (header_in at a e)).apart)
        h)
    where
      header_in : (at a : ℕ) → within at 32 a ≡ true → within at size a ≡ true
      header_in at a e = ground (arith, e)

  once : (a : ℕ) → cover a (new_block at size ∷ []) ≤ 1
  once a = rw (cover-new_block at size a (omega arith)) (if_one_le (within at size a))
    where
      if_one_le : (b : Bool) → if_one b ≤ 1
      if_one_le true = omega arith
      if_one_le false = omega arith

  covered : (a : ℕ) → 1 ≤ cover a (new_block at size ∷ []) → within at size a ≡ true
  covered a h = if_one_some _ (rw (← cover-new_block at size a (omega arith)) h)

  pub first_block-IsKHeap :
      IsKHeap l (first_block at size (record s { pmm = p })) (new_block at size ∷ [])
  unfolding first_block
  first_block-IsKHeap = record {
    pmm =
        IsPmm-write l p (first_memory at size p.memory)
          (Allocated-IsPmm l s.pmm kheap_init_pages inv (omega arith) got)
          (some_tracked got.page s.pmm.bitmap_size _ got.fit.fits got.marked.bitmap_size)
          (first_memory-bytes p.memory at got.marked.bytes) same;
    below = rw (got.marked.bitmap_size) below;
    seg = (
      header_first p.memory at,
      not_null base l.hhdm_offset
          (Allocated-ne-null l s.pmm kheap_init_pages inv (omega arith) got),
      header_fits at fits,
      tt,
    );
    start = refl;
    end = refl;
    nonempty = λ e. cc e;
    once = once;
    owned = λ a h. Owned-write l p _ a (fresh a (covered a h)) same;
  }

-- `kheap_init`, where the frame allocator has 16 free pages in a row, returns 0 with a heap of one
-- free block over 16 fresh pages.
pub kheap_init-IsKHeap :
    (l : Limine) (s : KHeap) (q : ℕ)
    → IsPmm l s.pmm
    → s.pmm.bitmap_size * 8 * page_size + l.hhdm_offset < 2 ^ 64
    → q + kheap_init_pages ≤ s.pmm.bitmap_size * 8
    → AllFree s.pmm q kheap_init_pages
    → Returns (λ r s'. (r ≡ 0) × (a : ℕ) × IsKHeap l s' (new_block a size ∷ [])) (kheap_init l s)
unfolding kheap_init alloc_pages
kheap_init-IsKHeap l s q inv below room free =
    Returns-bind
      (with_pages-Returns l s _
        (alloc-Allocated l s.pmm kheap_init_pages q inv (omega arith) room free))
      λ a t (base, p, got, ea, et). returns (
        refl,
        base + l.hhdm_offset,
        rw (ea, et, word_below (fits l s base p inv below got))
            (first_block-IsKHeap l s base p inv below got),
      )
  where
    word_below : {a : ℕ} → a + size < 2 ^ 64 → u64 a ≡ a
    word_below {a} h = omega (arith, h)
