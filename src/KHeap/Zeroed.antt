-- ===== src/KHeap/Zeroed.antt =====
-- `kzalloc` of symphony/mm/kheap.c on a heap at work.
use orchestr_os.Base.{ℕ, ◌+◌, ◌≤◌, ◌^◌, ◌≡◌, refl, ◌∙◌, true, false, List, arith}
use orchestr_os.Base.Lists.{length}
use orchestr_os.Base.Run.{Returns, returns, Returns-bind}
use orchestr_os.Base.Word.{page_size}
use orchestr_os.Memory.{within, memset}
use orchestr_os.Memory.Block.{memset_lem}
use orchestr_os.BootProto.{Limine}
use orchestr_os.KHeap.{KHeap, memory_of, with_memory, request, kzalloc}
use orchestr_os.KHeap.Blocks.{Block, if_one, used_at, holds}
use orchestr_os.KHeap.Find.{NoneFits}
use orchestr_os.KHeap.Invariant.{IsKHeap, client_write-IsKHeap}
use orchestr_os.KHeap.Malloc.{Kmalloced}
use orchestr_os.KHeap.Allocate.{Room, request_lem, kmalloc-Kmalloced}

range_unused :
    (addr got ptr size a used before : ℕ)
    → ptr ≡ addr + 32
    → size ≤ got
    → used ≡ before + if_one (within (addr + 32) got a)
    → used ≡ 0
    → within ptr size a ≡ false
range_unused addr got ptr size a used before p l e z = ground arith

range_fresh :
    (got ptr size a used : ℕ)
    → size ≤ got
    → (within ptr got a ≡ true → used ≡ 0)
    → 1 ≤ used
    → within ptr size a ≡ false
range_fresh got ptr size a used l fresh u = ground arith

-- A pointer to bytes that are all zero.
zeroed :
    {l : Limine} {s t : KHeap} {bs : List Block} {n ptr : ℕ} (size : ℕ)
    → size ≤ n
    → Kmalloced l s bs n ptr t
    → Kmalloced l s bs n ptr (with_memory t (memset ptr 0 size (memory_of t)))
      × ((a : ℕ)
          → within ptr size a ≡ true
          → memory_of (with_memory t (memset ptr 0 size (memory_of t))) a ≡ 0)
unfolding holds
zeroed {l} {s} {t} {bs} {n} {ptr} size below got = (
  record {
    blocks = got.blocks;
    addr = got.addr;
    got = got.got;
    heap =
        client_write-IsKHeap got.heap
          (λ h a. ground (arith, memset_lem ptr 0 size (memory_of t) a, h a))
          (λ a h. memset_lem ptr 0 size (memory_of t) a ∙ rw (unused a h) refl);
    pointer = got.pointer;
    large = got.large;
    tight = got.tight;
    measure = got.measure;
    fresh = got.fresh;
    kept = λ a h. memset_lem ptr 0 size (memory_of t) a ∙ rw (apart a h) (got.kept a h);
  },
  λ a h. memset_lem ptr 0 size (memory_of t) a ∙ rw (h) refl,
)
  where
    enough : size ≤ got.got
    enough = within_bound below got.large
      where
        within_bound : size ≤ n → n ≤ got.got → size ≤ got.got
        within_bound h h' = omega (arith, h, h')

    unused : (a : ℕ) → used_at a got.blocks ≡ 0 → within ptr size a ≡ false
    unused a h =
        range_unused got.addr got.got ptr size a _ (used_at a bs) got.pointer enough
          (got.measure (holds a)) h

    apart : (a : ℕ) → 1 ≤ used_at a bs → within ptr size a ≡ false
    apart a h = range_fresh got.got ptr size a _ enough (got.fresh a) h

-- `kzalloc`, where `kmalloc` gives out a block, gives out such a block with all the bytes asked for
-- set to 0.
pub kzalloc-Kmalloced :
    (fuel : ℕ) (l : Limine) (s : KHeap) (bs : List Block) (size : ℕ)
    → IsKHeap l s bs
    → size + 48 + page_size ≤ 2 ^ 64
    → length bs + 4 ≤ fuel
    → (NoneFits (request size) bs → Room s (request size))
    → Returns
        (λ ptr s'.
          Kmalloced l s bs (request size) ptr s'
          × ((a : ℕ) → within ptr size a ≡ true → memory_of s' a ≡ 0))
        (kzalloc fuel l size s)
unfolding kzalloc
kzalloc-Kmalloced fuel l s bs size inv small enough room =
    Returns-bind (kmalloc-Kmalloced fuel l s bs size inv small enough room) λ ptr t got.
      let (below, _, _) = request_lem size (omega (arith, small)) in returns (zeroed size below got)
