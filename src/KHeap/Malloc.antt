-- ===== src/KHeap/Malloc.antt =====
-- What `kmalloc` of symphony/mm/kheap.c gives out, where a block of the heap fits.
use orchestr_os.Base.{
  ℕ, ◌+◌, ◌≤◌, ◌<◌, ◌≡◌, refl, Bool-cases, inl, inr, true, false, leb, List, ◌∷◌, ◌++◌, arith,
}
use orchestr_os.Memory.{within}
use orchestr_os.BootProto.{Limine}
use orchestr_os.KHeap.{KHeap, memory_of, kheap_create_block}
use orchestr_os.KHeap.Blocks.{
  Block, used_at, uses, uses-append, uses-free, uses-used, headers_used_le, holds,
}
use orchestr_os.KHeap.Split.{front, back}
use orchestr_os.KHeap.Mark.{marked}
use orchestr_os.KHeap.Invariant.{IsKHeap}
use orchestr_os.KHeap.Steps.{Step, Step-trans, take-Step, create_block-Step}
use orchestr_os.KHeap.Find.{fits, taken}

-- The heap behind a pointer that was given out for `size` bytes: one more block is in use, of at least
-- that size and at most a header larger, none of its bytes were in use, and the bytes that were in use
-- are as before.
pub record Kmalloced (l : Limine) (s : KHeap) (bs : List Block) (size ptr : ℕ) (s' : KHeap)
    : Type 0 where
  pub blocks : List Block
  pub addr : ℕ
  pub got : ℕ
  pub heap : IsKHeap l s' blocks
  pub pointer : ptr ≡ addr + 32
  pub large : size ≤ got
  pub tight : got ≤ size + 32
  pub measure : (f : ℕ → ℕ → ℕ) → uses f blocks ≡ uses f bs + f addr got
  pub fresh : (a : ℕ) → within ptr got a ≡ true → used_at a bs ≡ 0
  pub kept : (a : ℕ) → 1 ≤ used_at a bs → memory_of s' a ≡ memory_of s a

uses-taken :
    (f : ℕ → ℕ → ℕ) (xs : List Block) (b : Block) (ys : List Block)
    → b.free ≡ true
    → uses f (xs ++ (marked b false ∷ ys)) ≡ uses f (xs ++ (b ∷ ys)) + f b.addr b.size
uses-taken f xs b ys h = omega (
  arith,
  uses-append f xs (marked b false ∷ ys),
  uses-append f xs (b ∷ ys),
  uses-used f (marked b false) ys refl,
  uses-free f b ys h,
)

uses-split :
    (f : ℕ → ℕ → ℕ) (xs : List Block) (b : Block) (ys : List Block) (size : ℕ)
    → b.free ≡ true
    → uses f (xs ++ (front b size ∷ back b size ∷ ys)) ≡ uses f (xs ++ (b ∷ ys))
uses-split f xs b ys size h = omega (
  arith,
  uses-append f xs (front b size ∷ back b size ∷ ys),
  uses-append f xs (b ∷ ys),
  uses-free f (front b size) (back b size ∷ ys) h,
  uses-free f (back b size) ys refl,
  uses-free f b ys h,
)

-- A step after which one more block is in use, within the size asked for.
Step-Kmalloced :
    {l : Limine} {s s' : KHeap} {bs bs' : List Block} (size addr got : ℕ)
    → Step l s bs s' bs'
    → ((f : ℕ → ℕ → ℕ) → uses f bs' ≡ uses f bs + f addr got)
    → size ≤ got
    → got ≤ size + 32
    → Kmalloced l s bs size (addr + 32) s'
unfolding holds
Step-Kmalloced {bs = bs} {bs' = bs'} size addr got step measure large tight = record {
  blocks = bs';
  addr = addr;
  got = got;
  heap = step.heap;
  pointer = refl;
  large = large;
  tight = tight;
  measure = measure;
  fresh = λ a h.
      let one : holds a addr got ≡ 1 = rw h refl in
      omega (arith, one, measure (holds a), step.heap.once a, headers_used_le a bs');
  kept = λ a h. step.kept a h (omega (arith, h, measure (holds a)));
}

-- The loop's work on a block that fits.
pub taken-Kmalloced :
    (l : Limine) (s : KHeap) (xs : List Block) (b : Block) (ys : List Block) (size : ℕ)
    → IsKHeap l s (xs ++ (b ∷ ys))
    → fits size b ≡ true
    → Kmalloced l s (xs ++ (b ∷ ys)) size (b.addr + 32) (taken size b s)
unfolding holds
taken-Kmalloced l s xs b ys size inv fit =
    let is_free : b.free ≡ true = ground (arith, fit) in
    let enough : size ≤ b.size = ground (arith, fit) in
    elim (Bool-cases (leb b.size (size + 32))) [
      | inl exact ↦ rw (exact) (
          Step-Kmalloced size b.addr b.size (take-Step l s xs b ys inv)
            (λ f. uses-taken f xs b ys is_free) enough (ground (arith, exact)))
      | inr large ↦
          let t = kheap_create_block b.addr size s in
          let bigger : size + 32 < b.size = ground (arith, large) in
          let one = create_block-Step l s xs b ys size inv is_free bigger in
          let two = take-Step l t xs (front b size) (back b size ∷ ys) one.heap in
          rw (large) (
            Step-Kmalloced size b.addr size
              (Step-trans one two (λ a h h'. rw (uses-split (holds a) xs b ys size is_free) h))
              (λ f. omega (
                arith,
                uses-taken f xs (front b size) (back b size ∷ ys) is_free,
                uses-split f xs b ys size is_free,
              ))
              (omega arith) (omega arith))
    ]
