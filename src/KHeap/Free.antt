-- ===== src/KHeap/Free.antt =====
-- `kfree` of symphony/mm/kheap.c on a heap at work.
use orchestr_os.Base.{
  ℕ, ◌+◌, ◌≤◌, ◌<◌, ◌^◌, ◌≡◌, refl, sym, ap, ◌∙◌, true, false, List, ◌∷◌, ◌++◌, arith, ◌==◌,
}
use orchestr_os.Base.Word.{sub64}
use orchestr_os.BootProto.{Limine}
use orchestr_os.KHeap.{KHeap, memory_of, poison, merge_next, merge_prev, kfree}
use orchestr_os.KHeap.Header.{Header, header}
use orchestr_os.KHeap.Blocks.{Block, cover, used_at, uses, uses-append, uses-free, uses-used, holds}
use orchestr_os.KHeap.Mark.{marked}
use orchestr_os.KHeap.Invariant.{IsKHeap}
use orchestr_os.KHeap.Steps.{Step, Step-trans, seg_from, poison-Step}
use orchestr_os.KHeap.Coalesce.{Merges, merge_next-Merges, merge_prev-Merges}

-- What `kfree` leaves of a block `b` in use: a heap at work over the same bytes, in which exactly this
-- block is in use no more, and the bytes of the others are untouched.
pub record Kfreed (l : Limine) (s : KHeap) (bs : List Block) (b : Block) (s' : KHeap) : Type 0 where
  pub blocks : List Block
  pub heap : IsKHeap l s' blocks
  pub covers : (a : ℕ) → cover a blocks ≡ cover a bs
  pub measure : (f : ℕ → ℕ → ℕ) → uses f blocks + f b.addr b.size ≡ uses f bs
  pub kept : (a : ℕ) → 1 ≤ used_at a blocks → memory_of s' a ≡ memory_of s a

uses-freed :
    (f : ℕ → ℕ → ℕ) (xs : List Block) (b : Block) (ys : List Block)
    → b.free ≡ false
    → uses f (xs ++ (marked b true ∷ ys)) + f b.addr b.size ≡ uses f (xs ++ (b ∷ ys))
uses-freed f xs b ys h = omega (
  arith,
  uses-append f xs (marked b true ∷ ys),
  uses-append f xs (b ∷ ys),
  uses-free f (marked b true) ys refl,
  uses-used f b ys h,
)

Merges-trans :
    {l : Limine} {s t u : KHeap} {bs0 bs1 bs2 : List Block}
    → Merges l s bs0 t bs1
    → Merges l t bs1 u bs2
    → Merges l s bs0 u bs2
unfolding holds
Merges-trans first second = record {
  step = Step-trans first.step second.step (λ a h h'. rw (← second.measure (holds a)) h');
  measure = λ f. second.measure f ∙ first.measure f;
}

Merges-Kfreed :
    {l : Limine} {s t u : KHeap} {bs' : List Block} (xs : List Block) (b : Block) (ys : List Block)
    → b.free ≡ false
    → Step l s (xs ++ (b ∷ ys)) t (xs ++ (marked b true ∷ ys))
    → Merges l t (xs ++ (marked b true ∷ ys)) u bs'
    → Kfreed l s (xs ++ (b ∷ ys)) b u
unfolding holds
Merges-Kfreed {bs' = bs'} xs b ys in_use one m = record {
  blocks = bs';
  heap = m.step.heap;
  covers = λ a. m.step.covers a ∙ one.covers a;
  measure = λ f. omega (arith, m.measure f, uses-freed f xs b ys in_use);
  kept = λ a h.
      let still : 1 ≤ used_at a (xs ++ (marked b true ∷ ys)) = rw (← m.measure (holds a)) h in
      let before : 1 ≤ used_at a (xs ++ (b ∷ ys)) =
        omega (arith, still, uses-freed (holds a) xs b ys in_use) in
      m.step.kept a still h ∙ one.kept a before still;
}

kfree-steps :
    (s : KHeap) (addr : ℕ)
    → addr + 32 < 2 ^ 64
    → (header (memory_of s) addr).free ≡ false
    → kfree (addr + 32) s ≡ merge_prev addr (merge_next addr (poison addr s))
unfolding kfree
kfree-steps s addr fits in_use =
    let at : sub64 (addr + 32) 32 ≡ addr = omega arith in
    let not_null : (addr + 32 == 0) ≡ false = ground arith in rw (at, not_null, in_use) refl

-- `kfree` of the pointer that belongs to a block in use leaves a heap at work, over the same bytes,
-- that has the same blocks in use but for this one, with the bytes of those as they were: whatever is
-- added up over the blocks in use falls by the block's share.
pub kfree-Kfreed :
    (l : Limine) (s : KHeap) (xs : List Block) (b : Block) (ys : List Block)
    → IsKHeap l s (xs ++ (b ∷ ys))
    → b.free ≡ false
    → Kfreed l s (xs ++ (b ∷ ys)) b (kfree (b.addr + 32) s)
kfree-Kfreed l s xs b ys inv in_use =
    let seg = seg_from l s xs (b ∷ ys) inv in
    let free = ap (λ (h : Header). h.free) seg.0 ∙ in_use in
    let one = poison-Step l s xs b ys inv in
    let t = poison b.addr s in
    let (x, zs, two, at, hx) = merge_next-Merges l t xs (marked b true) ys one.heap refl in
    let (bs', three) = merge_prev-Merges l (merge_next b.addr t) xs x zs two.step.heap hx in
    let u = merge_next b.addr t in
    let at' : kfree (b.addr + 32) s ≡ merge_prev x.addr u =
      kfree-steps s b.addr (omega (arith, seg.2)) free ∙ ap (λ p. merge_prev p u) (sym at) in
    rw (at') (Merges-Kfreed xs b ys in_use one (Merges-trans two three))
