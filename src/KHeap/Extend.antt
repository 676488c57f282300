-- ===== src/KHeap/Extend.antt =====
-- `kheap_extend` of symphony/mm/kheap.c on a heap at work.
use orchestr_os.Base.{
  ℕ, ◌+◌, ◌*◌, ◌/◌, ◌%◌, ◌≤◌, ◌<◌, ◌^◌, ◌≡◌, ◌≢◌, Bool-cases, inl, inr, refl, sym, ap, ◌∙◌, true,
  false, List, [], ◌∷◌, ◌++◌, arith,
}
use orchestr_os.Base.Run.{Run, ok, Returns, returns, Returns-bind, followed_by}
use orchestr_os.Base.Word.{u64, page_size, align_up_page}
use orchestr_os.Memory.{Mem, within}
use orchestr_os.BootProto.{Limine}
use orchestr_os.Pmm.State.{Pmm}
use orchestr_os.Pmm.Find.FirstFit.{AllFree}
use orchestr_os.Pmm.Frames.Laws.{Allocated, alloc-Allocated}
use orchestr_os.Pmm.Frames.Invariant.{Allocated-IsPmm, Allocated-ne-null}
use orchestr_os.KHeap.{
  KHeap, memory_of, with_pages, alloc_pages, append_memory, append_block, extension, kheap_extend,
}
use orchestr_os.KHeap.Blocks.{
  Block, if_one, cover, cover-append, used_at, headers_used_le, last_or-append, first_or, Seg,
}
use orchestr_os.KHeap.Append.{new_block, append_memory-lem}
use orchestr_os.KHeap.Steps.{append_ne_nil}
use orchestr_os.KHeap.Coalesce.{last-cases}
use orchestr_os.KHeap.Invariant.{IsKHeap, tracks_some}
use orchestr_os.KHeap.Fresh.{
  covered_by_block, cover-new_block, once_new, old-Owned, new-Owned, in_space, old-seg,
}
use orchestr_os.Pmm.Pages.{Owned, IsPmm-write, Owned-write, no_wrap, outside_of}

-- The pages cover what was asked for and the header.
pub extension_lem :
    (size : ℕ)
    → size + 32 + page_size ≤ 2 ^ 64
    → (extension size % page_size ≡ 0)
      × (size + 32 ≤ extension size)
      × (extension size < size + 32 + page_size)
unfolding extension
extension_lem size h =
    let word : u64 (size + 32) ≡ size + 32 = omega arith in
    rw (word) (ground (arith, align_up_page (size + 32) h))

pub with_pages-Returns :
    {P : ℕ → Pmm → Type 0} (l : Limine) (s : KHeap) (r : Run Pmm ℕ)
    → Returns P r
    → Returns
        (λ a t.
          (base : ℕ) × (p : Pmm) × P base p
          × (a ≡ u64 (base + l.hhdm_offset))
          × (t ≡ record s { pmm = p }))
        (with_pages l s r)
unfolding with_pages
with_pages-Returns l s r (returns h) = returns (_, _, h, refl, refl)

first_or-snoc :
    (ws : List Block) (w z : Block)
    → first_or 0 (ws ++ (w ∷ [])) ≡ first_or 0 ((ws ++ (w ∷ [])) ++ (z ∷ []))
first_or-snoc [] w z = refl
first_or-snoc (x ∷ ws) w z = refl

-- The heap after `kheap_extend`: one more block, at the end of the list, over the pages that were asked
-- for; the bytes in use are as before.
pub record Extended (l : Limine) (s : KHeap) (bs : List Block) (size : ℕ) (s' : KHeap)
    : Type 0 where
  pub newbh : ℕ
  pub heap : IsKHeap l s' (bs ++ (new_block newbh size ∷ []))
  pub kept : (a : ℕ) → 1 ≤ used_at a bs → memory_of s' a ≡ memory_of s a

module _ (l : Limine) (s : KHeap) (ws : List Block) (w : Block) (n base : ℕ) (p : Pmm)
    (inv : IsKHeap l s (ws ++ (w ∷ []))) (some_pages : 0 < n) (got : Allocated s.pmm n base p) where
  abbrev bs : List Block
  bs = ws ++ (w ∷ [])

  abbrev at : ℕ
  at = base + l.hhdm_offset

  abbrev bytes : ℕ
  bytes = n * page_size

  fits : at + bytes < 2 ^ 64
  fits = no_wrap base got.page l.hhdm_offset n _ got.address got.fit.fits inv.below

  abbrev m' : Mem
  m' = append_memory at bytes w.addr p.memory

  writes :
      Seg m' 0 0 (bs ++ (new_block at bytes ∷ []))
      × ((a : ℕ) → within at bytes a ≡ false → within w.addr 32 a ≡ false → m' a ≡ p.memory a)
      × ((a : ℕ) → 1 ≤ used_at a bs → m' a ≡ p.memory a)
      × (((a : ℕ) → p.memory a < 256) → (a : ℕ) → m' a < 256)
  writes =
      append_memory-lem p.memory ws w at bytes (once_new l s bs n base p inv some_pages got)
        (enough some_pages) (not_null (Allocated-ne-null l s.pmm n inv.pmm some_pages got)) fits
        (old-seg l s bs n base p inv some_pages got)
    where
      enough : 0 < n → 32 ≤ bytes
      enough h = omega (arith, h)

      not_null : base ≢ 0 → 0 < at
      not_null h = omega (arith, h)

  same : (a : ℕ) → within p.bitmap p.bitmap_size a ≡ true → m' a ≡ p.memory a
  same a h =
      writes.1 a
        (outside_of at bytes a (within p.bitmap p.bitmap_size)
          (λ e. (new-Owned l s bs n base p inv some_pages got a e).apart) h)
        (outside_of w.addr 32 a (within p.bitmap p.bitmap_size)
          (λ e.
            (old-Owned l s bs n base p inv some_pages got a
              (in_list a (covered_by_block a w e))).apart)
          h)
    where
      in_list : (a : ℕ) → 1 ≤ cover a (w ∷ []) → 1 ≤ cover a bs
      in_list a h = omega (arith, h, cover-append a ws (w ∷ []))

  owned :
      (a : ℕ) → 1 ≤ cover a (bs ++ (new_block at bytes ∷ [])) → Owned l (record p { memory = m' }) a
  owned a h = elim (Bool-cases (within at bytes a)) [
    | inl e ↦ Owned-write l p m' a (new-Owned l s bs n base p inv some_pages got a e) same
    | inr e ↦ Owned-write l p m' a (old-Owned l s bs n base p inv some_pages got a (in_old e)) same
  ]
    where
      in_old : within at bytes a ≡ false → 1 ≤ cover a bs
      in_old e =
          let large : 32 ≤ bytes = omega (arith, some_pages) in
          let none_new : cover a (new_block at bytes ∷ []) ≡ 0 =
            cover-new_block at bytes a large ∙ ap if_one e in
          omega (arith, h, cover-append a bs (new_block at bytes ∷ []), none_new)

  block_list_end : s.block_list_end ≡ w.addr
  block_list_end = inv.end ∙ last_or-append 0 ws (w ∷ [])

  appended :
      IsKHeap l (append_block at bytes (record s { pmm = p })) (bs ++ (new_block at bytes ∷ []))
  unfolding append_block
  appended = rw (block_list_end) (record {
    pmm =
        IsPmm-write l p m' (Allocated-IsPmm l s.pmm n inv.pmm some_pages got)
          (tracks_some l p bs inv.nonempty (old-Owned l s bs n base p inv some_pages got))
          (writes.3 got.marked.bytes) same;
    below = rw (got.marked.bitmap_size) inv.below;
    seg = writes.0;
    start = inv.start ∙ first_or-snoc ws w (new_block at bytes);
    end = sym (last_or-append 0 bs (new_block at bytes ∷ []));
    nonempty = append_ne_nil bs (new_block at bytes) [];
    once = λ a.
        rw (cover-append a bs (new_block at bytes ∷ []))
          (once_new l s bs n base p inv some_pages got a);
    owned = owned;
  })

  appended-Extended : Extended l s bs bytes (append_block at bytes (record s { pmm = p }))
  unfolding append_block
  appended-Extended = record {
    newbh = at;
    heap = appended;
    kept = λ a h. rw (block_list_end) (
        writes.2 a h
        ∙ got.marked.outside a (inv.owned a (omega (arith, h, headers_used_le a bs))).apart);
  }

extend-snoc :
    (l : Limine) (s : KHeap) (ws : List Block) (w : Block) (size q : ℕ)
    → IsKHeap l s (ws ++ (w ∷ []))
    → size ≡ size / page_size * page_size
    → 0 < size / page_size
    → q + size / page_size ≤ s.pmm.bitmap_size * 8
    → AllFree s.pmm q (size / page_size)
    → Returns
        (λ _ s'. Extended l s (ws ++ (w ∷ [])) size s')
        (followed_by
          (alloc_pages l (size / page_size) s)
          λ newbh t. ok tt (append_block newbh size t))
unfolding alloc_pages
extend-snoc l s ws w size q inv whole some_pages room free =
    Returns-bind
      (with_pages-Returns l s _
        (alloc-Allocated l s.pmm (size / page_size) q inv.pmm some_pages room free))
      λ a t (base, p, got, ea, et). returns (
        rw
          (
            ea,
            et,
            in_space l s (ws ++ (w ∷ [])) (size / page_size) base p inv some_pages got,
            whole,
          )
          (appended-Extended l s ws w (size / page_size) base p inv some_pages got))

-- `kheap_extend`, where the frame allocator has a run of as many free pages as it asks for, returns
-- with one more free block at the end of the list, over fresh pages, that is large enough.
pub kheap_extend-Extended :
    (l : Limine) (s : KHeap) (bs : List Block) (size q : ℕ)
    → IsKHeap l s bs
    → size + 32 + page_size ≤ 2 ^ 64
    → q + extension size / page_size ≤ s.pmm.bitmap_size * 8
    → AllFree s.pmm q (extension size / page_size)
    → Returns (λ _ s'. Extended l s bs (extension size) s') (kheap_extend l size s)
unfolding kheap_extend alloc_pages
kheap_extend-Extended l s bs size q inv small room free =
    let (whole, above, _) = extension_lem size small in
    elim (last-cases bs) [
      | inl none ↦ absurd (inv.nonempty none)
      | inr (ws, w, e) ↦ rw (e) (
          extend-snoc l s ws w (extension size) q (rw (← e) inv) (omega (arith, whole))
            (omega arith) room free)
    ]
