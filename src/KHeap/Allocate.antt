-- ===== src/KHeap/Allocate.antt =====
-- `kmalloc` of symphony/mm/kheap.c on a heap at work: it ends, and gives out a block.
use orchestr_os.Base.{
  ℕ, zero, suc, ◌+◌, ◌*◌, ◌/◌, ◌≤◌, ◌<◌, ◌^◌, ◌≡◌, ◌≢◌, inl, inr, refl, sym, ap, ◌∙◌, false, none,
  List, [], ◌∷◌, ◌++◌, arith,
}
use mathlib.Core.Path.{subst}
use orchestr_os.Base.Lists.{length, length-append}
use orchestr_os.Base.Run.{ok, Returns, returns, Returns-bind, Returns-mono, followed_by}
use orchestr_os.Base.Word.{page_size, align_up}
use orchestr_os.BootProto.{Limine}
use orchestr_os.Pmm.Find.FirstFit.{AllFree}
use orchestr_os.KHeap.{KHeap, extension, kheap_extend, request, find_block, kmalloc}
use orchestr_os.KHeap.Blocks.{Block, uses, uses-append, uses-free, holds, first_or}
use orchestr_os.KHeap.Append.{new_block}
use orchestr_os.KHeap.Extend.{Extended, kheap_extend-Extended, extension_lem}
use orchestr_os.KHeap.Find.{fits, NoneFits, taken, Found, find_block-Found}
use orchestr_os.KHeap.Invariant.{IsKHeap}
use orchestr_os.KHeap.Malloc.{Kmalloced, taken-Kmalloced}

-- The frame allocator has a run of free pages for an extension by a block of `size` bytes.
abbrev pub Room : KHeap → (size : ℕ) → Type 0
Room s size =
    (q : ℕ) × (q + extension size / page_size ≤ s.pmm.bitmap_size * 8)
    × AllFree s.pmm q (extension size / page_size)

-- The size that is looked for is not below the one asked for, and is its own.
pub request_lem :
    (size : ℕ)
    → size + 16 ≤ 2 ^ 64
    → (size ≤ request size) × (request size < size + 16) × (request (request size) ≡ request size)
unfolding request align_up
request_lem size h = ground arith

too_small : (newbh bytes size : ℕ) → size + 32 ≤ bytes → fits size (new_block newbh bytes) ≢ false
too_small newbh bytes size h e = ground (arith, h, e)

NoneFits-last :
    (size : ℕ) (xs : List Block) (b : Block) → NoneFits size (xs ++ (b ∷ [])) → fits size b ≡ false
NoneFits-last size [] b (h, _) = h
NoneFits-last size (x ∷ xs) b (_, h) = NoneFits-last size xs b h

Found-Kmalloced :
    {l : Limine} {s : KHeap} {bs : List Block} {fuel size : ℕ}
    → IsKHeap l s bs
    → (found : Found fuel size s bs)
    → Kmalloced l s bs size (found.block.addr + 32) (taken size found.block s)
Found-Kmalloced {l} {s} {bs} {fuel} {size} inv found = rw (found.split) (
    taken-Kmalloced l s found.before found.block found.behind size (rw (← found.split) inv)
      found.fit)

-- What was given out of an extended heap was given out of the heap before.
Extended-Kmalloced :
    {l : Limine} {s t u : KHeap} {bs : List Block} {bytes size ptr : ℕ}
    → (more : Extended l s bs bytes t)
    → Kmalloced l t (bs ++ (new_block more.newbh bytes ∷ [])) size ptr u
    → Kmalloced l s bs size ptr u
unfolding holds
Extended-Kmalloced {bs = bs} {bytes = bytes} more got = record {
  blocks = got.blocks;
  addr = got.addr;
  got = got.got;
  heap = got.heap;
  pointer = got.pointer;
  large = got.large;
  tight = got.tight;
  measure = λ f. omega (arith, got.measure f, same f);
  fresh = λ a h. sym (same (holds a)) ∙ got.fresh a h;
  kept = λ a h. got.kept a (rw (same (holds a)) h) ∙ more.kept a h;
}
  where
    same : (f : ℕ → ℕ → ℕ) → uses f (bs ++ (new_block more.newbh bytes ∷ [])) ≡ uses f bs
    same f = omega (
      arith,
      uses-append f bs (new_block more.newbh bytes ∷ []),
      uses-free f (new_block more.newbh bytes) [] refl,
    )

-- A call of `kmalloc` whose loop finds a block.
kmalloc-Found :
    (fuel : ℕ) (l : Limine) (s : KHeap) (bs : List Block) (size : ℕ)
    → IsKHeap l s bs
    → Found fuel (request size) s bs
    → Returns (λ ptr s'. Kmalloced l s bs (request size) ptr s') (kmalloc (suc fuel) l size s)
unfolding kmalloc
kmalloc-Found fuel l s bs size inv found =
    let e = ap (λ p. find_block fuel (request size) p s) inv.start ∙ found.result in
    rw (e) (returns (Found-Kmalloced inv found))

-- A call of `kmalloc` whose loop finds none: it extends the heap and calls itself.
kmalloc-extends :
    (fuel : ℕ) (l : Limine) (s : KHeap) (bs : List Block) (size : ℕ)
    → IsKHeap l s bs
    → find_block fuel (request size) (first_or 0 bs) s ≡ ok none s
    → kmalloc (suc fuel) l size s
      ≡ followed_by (kheap_extend l (request size) s) λ _ u. kmalloc fuel l (request size) u
unfolding kmalloc
kmalloc-extends fuel l s bs size inv ends =
    let e = ap (λ p. find_block fuel (request size) p s) inv.start ∙ ends in rw (e) refl

-- The new block is found, if no other.
Extended-Found :
    (fuel : ℕ) (l : Limine) (s t : KHeap) (bs : List Block) (size : ℕ)
    → size + 32 + page_size ≤ 2 ^ 64
    → length bs + 1 < fuel
    → (more : Extended l s bs (extension size) t)
    → Found fuel size t (bs ++ (new_block more.newbh (extension size) ∷ []))
Extended-Found fuel l s t bs size small enough more =
    let new = new_block more.newbh (extension size) in
    let (_, above, _) = extension_lem size small in
    let enough' : length (bs ++ (new ∷ [])) < fuel =
      omega (arith, enough, length-append bs (new ∷ [])) in
    elim (find_block-Found fuel size 0 t (bs ++ (new ∷ [])) (omega (arith, small)) more.heap.seg
      enough') [
        | inr found ↦ found
        | inl (none_fits, _) ↦
            absurd (
              too_small more.newbh (extension size) size above
                (NoneFits-last size bs new none_fits))
      ]

again-Kmalloced :
    (fuel : ℕ) (l : Limine) (s t : KHeap) (bs : List Block) (size : ℕ)
    → request (request size) ≡ request size
    → request size + 32 + page_size ≤ 2 ^ 64
    → length bs + 1 < fuel
    → Extended l s bs (extension (request size)) t
    → Returns
        (λ ptr s'. Kmalloced l s bs (request size) ptr s')
        (kmalloc (suc fuel) l (request size) t)
again-Kmalloced fuel l s t bs size again small enough more =
    let n = request size in
    let found = Extended-Found fuel l s t bs n small enough more in
    let new = new_block more.newbh (extension n) in
    Returns-mono
      (kmalloc-Found fuel l t (bs ++ (new ∷ [])) n more.heap
        (subst (λ k. Found fuel k t (bs ++ (new ∷ []))) (sym again) found))
      λ ptr s' got.
        Extended-Kmalloced more (subst (λ k. Kmalloced l t (bs ++ (new ∷ [])) k ptr s') again got)

-- `kmalloc` on a heap at work, with fuel for four rounds more than the list has blocks, where a block
-- fits or else the frame allocator has room for an extension, ends without a panic and gives out a
-- block: one more is in use, large enough and at most a header larger, over bytes that none had; the
-- bytes in use are as before, and the heap is at work.
pub kmalloc-Kmalloced :
    (fuel : ℕ) (l : Limine) (s : KHeap) (bs : List Block) (size : ℕ)
    → IsKHeap l s bs
    → size + 48 + page_size ≤ 2 ^ 64
    → length bs + 4 ≤ fuel
    → (NoneFits (request size) bs → Room s (request size))
    → Returns (λ ptr s'. Kmalloced l s bs (request size) ptr s') (kmalloc fuel l size s)
kmalloc-Kmalloced zero l s bs size inv small enough room = absurd (omega arith)
kmalloc-Kmalloced (suc zero) l s bs size inv small enough room = absurd (omega arith)
kmalloc-Kmalloced (suc (suc fuel)) l s bs size inv small enough room =
    let (_, below, again) = request_lem size (omega arith) in
    let n = request size in
    elim (find_block-Found (suc fuel) n 0 s bs (omega (arith, below)) inv.seg (omega arith)) [
      | inr found ↦ kmalloc-Found (suc fuel) l s bs size inv found
      | inl (none_fits, ends) ↦
          let (q, fits_in, free) = room none_fits in
          let small' : n + 32 + page_size ≤ 2 ^ 64 = omega (arith, below, small) in
          rw (kmalloc-extends (suc fuel) l s bs size inv ends) (
            Returns-bind (kheap_extend-Extended l s bs n q inv small' fits_in free)
              λ _ t more. again-Kmalloced fuel l s t bs size again small' (omega arith) more)
    ]
