-- ===== src/KHeap/Fresh.antt =====
-- Pages fresh from the frame allocator, as bytes of the heap of symphony/mm/kheap.c.
use orchestr_os.Base.{
  ℕ, ◌+◌, ◌-◌, ◌*◌, ◌/◌, ◌≤◌, ◌<◌, ◌^◌, ◌≡◌, Bool-cases, inl, inr, sym, ◌∙◌, true, ◌==◌, List, [],
  ◌∷◌, arith,
}
use orchestr_os.Base.Word.{u64, page_size}
use orchestr_os.Memory.{within}
use orchestr_os.BootProto.{Limine}
use orchestr_os.Pmm.State.{Pmm}
use orchestr_os.Pmm.Frames.Laws.{Allocated}
use orchestr_os.KHeap.{KHeap, memory_of}
use orchestr_os.KHeap.Blocks.{Block, if_one, cover, headers_used_le, Seg, Seg-frame}
use orchestr_os.KHeap.Append.{new_block}
use orchestr_os.KHeap.Invariant.{IsKHeap}
use orchestr_os.Pmm.Pages.{true_ne_false, Owned, stays_used, page_of, no_wrap, fresh-Owned}

pub cover-new_block :
    (newbh size a : ℕ)
    → 32 ≤ size
    → cover a (new_block newbh size ∷ []) ≡ if_one (within newbh size a)
cover-new_block newbh size a h = ground arith

pub covered_by_block : (a : ℕ) (w : Block) → within w.addr 32 a ≡ true → 1 ≤ cover a (w ∷ [])
covered_by_block a w h = ground (arith, h)

-- The pages that were free have none of the heap's bytes, and belong to the heap after they were given
-- out.
module _ (l : Limine) (s : KHeap) (bs : List Block) (n base : ℕ) (p : Pmm) (inv : IsKHeap l s bs)
    (some_pages : 0 < n) (got : Allocated s.pmm n base p) where
  abbrev newbh : ℕ
  newbh = base + l.hhdm_offset

  abbrev size : ℕ
  size = n * page_size

  pub not_owned : (a : ℕ) → within newbh size a ≡ true → cover a bs ≡ 0
  not_owned a h = elim (Bool-cases (cover a bs == 0)) [
    | inl e ↦ ground (arith, e)
    | inr e ↦
        let (mapped, lo, hi) = page_of base got.page l.hhdm_offset n a got.address h in
        let o = inv.owned a (ground (arith, e)) in
        let f = got.fit.free ((a - l.hhdm_offset) / page_size) lo hi in
        absurd (true_ne_false (sym o.used ∙ f))
  ]

  pub once_new : (a : ℕ) → cover a bs + cover a (new_block newbh size ∷ []) ≤ 1
  once_new a = elim (Bool-cases (within newbh size a)) [
    | inl new ↦ rw (cover-new_block newbh size a (omega arith), new, not_owned a new) (omega arith)
    | inr old ↦
        let e = inv.once a in
        rw (cover-new_block newbh size a (omega arith), old) (omega (arith, e))
  ]

  pub old-Owned : (a : ℕ) → 1 ≤ cover a bs → Owned l p a
  old-Owned a h =
      let o = inv.owned a h in
      record {
        mapped = o.mapped;
        tracked = rw (got.marked.bitmap_size) o.tracked;
        used = stays_used got.page n _ s.pmm p (got.marked.used _) o.used;
        apart = rw (got.marked.bitmap, got.marked.bitmap_size) o.apart;
      }

  pub new-Owned : (a : ℕ) → within newbh size a ≡ true → Owned l p a
  new-Owned = fresh-Owned l s.pmm n base p inv.pmm got

  pub in_space : u64 newbh ≡ newbh
  in_space = small (no_wrap base got.page l.hhdm_offset n _ got.address got.fit.fits inv.below)
    where
      small : newbh + n * page_size < 2 ^ 64 → u64 newbh ≡ newbh
      small h = omega (arith, h)

  -- The list in the memory that the allocator leaves.
  pub old-seg : Seg p.memory 0 0 bs
  old-seg =
      Seg-frame (memory_of s) p.memory 0 0 bs
        (λ a h. got.marked.outside a (inv.owned a (omega (arith, h, headers_used_le a bs))).apart)
        inv.seg
