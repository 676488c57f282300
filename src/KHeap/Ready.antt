-- ===== src/KHeap/Ready.antt =====
-- `kheap_init` of symphony/mm/kheap.c leaves the pages that are in use.
use orchestr_os.Base.{
  ℕ, ◌+◌, ◌*◌, ◌<◌, ◌^◌, ◌≡◌, refl, sym, ◌∙◌, Bool-cases, inl, inr, false, [], ◌∷◌, arith,
}
use orchestr_os.Base.Run.{Run}
use orchestr_os.Base.Word.{u64, page_size}
use orchestr_os.Memory.{Mem, within}
use orchestr_os.BootProto.{Limine}
use orchestr_os.Pmm.State.{Pmm}
use orchestr_os.Pmm.Frames.Laws.{IsPmm, Allocated}
use orchestr_os.Pmm.Pages.{Owned, KeepsPages, true_ne_false, is_used-write, stays_used, page_of}
use orchestr_os.Pmm.Room.{Ends, done, exhausted, Ends-bind, NoRun, alloc_run-Ends}
use orchestr_os.KHeap.{
  KHeap, with_pages, alloc_pages, first_memory, first_block, kheap_init, kheap_init_pages,
}
use orchestr_os.KHeap.Append.{new_block}
use orchestr_os.KHeap.Init.{size, first_memory-outside, first_block-IsKHeap, fits, same}
use orchestr_os.KHeap.Invariant.{IsKHeap}

with_pages-Ends :
    {Few : Type 0} {P : ℕ → Pmm → Type 0} (l : Limine) (s : KHeap) {r : Run Pmm ℕ}
    → Ends Few P r
    → Ends Few
        (λ a t.
          (base : ℕ) × (p : Pmm) × P base p
          × (a ≡ u64 (base + l.hhdm_offset))
          × (t ≡ record s { pmm = p }))
        (with_pages l s r)
unfolding with_pages
with_pages-Ends l s (done p) = done (_, _, p, refl, refl)
with_pages-Ends l s (exhausted few) = exhausted few

header_in : (at a : ℕ) → within at size a ≡ false → within at 32 a ≡ false
header_in at a h = ground (arith, h)

module _ (l : Limine) (s : Pmm) (n base : ℕ) (p : Pmm) (got : Allocated s n base p) where
  -- A byte of a page in use is in no fresh page.
  pub not_fresh : (a : ℕ) → Owned l s a → within (base + l.hhdm_offset) (n * page_size) a ≡ false
  not_fresh a owned = elim (Bool-cases (within (base + l.hhdm_offset) (n * page_size) a)) [
    | inr out ↦ out
    | inl inside ↦
        let (mapped, lo, hi) = page_of base got.page l.hhdm_offset n a got.address inside in
        absurd (true_ne_false (sym owned.used ∙ got.fit.free _ lo hi))
  ]

module _ (l : Limine) (s : KHeap) (base : ℕ) (p : Pmm) (inv : IsPmm l s.pmm)
    (below : s.pmm.bitmap_size * 8 * page_size + l.hhdm_offset < 2 ^ 64)
    (got : Allocated s.pmm kheap_init_pages base p) where
  abbrev at : ℕ
  at = base + l.hhdm_offset

  abbrev m' : Mem
  m' = first_memory at size p.memory

  kept : KeepsPages l s.pmm (record p { memory = m' })
  kept = record {
    bitmap = got.marked.bitmap;
    bitmap_size = got.marked.bitmap_size;
    used = λ k lt h.
        is_used-write p m' (same l s base p inv below got) k (rw (got.marked.bitmap_size) lt)
        ∙ stays_used got.page kheap_init_pages k s.pmm p (got.marked.used k) h;
    bytes = λ a owned.
        first_memory-outside p.memory at a
          (header_in at a (not_fresh l s.pmm kheap_init_pages base p got a owned))
        ∙ got.marked.outside a owned.apart;
  }

word_below : {a : ℕ} → a + size < 2 ^ 64 → u64 a ≡ a
word_below {a} h = omega (arith, h)

-- `kheap_init` returns 0 with a heap of one free block over 16 fresh pages, and leaves the pages in
-- use as they are, or panics for want of memory, and then no 16 pages in a row were free.
pub kheap_init-Ends :
    (l : Limine) (s : KHeap)
    → IsPmm l s.pmm
    → s.pmm.bitmap_size * 8 * page_size + l.hhdm_offset < 2 ^ 64
    → Ends
        (NoRun s.pmm kheap_init_pages)
        (λ r s'.
          (r ≡ 0) × ((a : ℕ) × IsKHeap l s' (new_block a size ∷ [])) × KeepsPages l s.pmm s'.pmm)
        (kheap_init l s)
unfolding kheap_init alloc_pages first_block
kheap_init-Ends l s inv below =
    Ends-bind (with_pages-Ends l s (alloc_run-Ends l s.pmm kheap_init_pages inv (omega arith)))
      (λ few. few)
      λ a t (base, p, got, ea, et).
        rw (ea, et, word_below (fits l s base p inv below got))
          (done (
            refl,
            (base + l.hhdm_offset, first_block-IsKHeap l s base p inv below got),
            kept l s base p inv below got,
          ))
