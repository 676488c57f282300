-- ===== src/KHeap.antt =====
-- The kernel heap, symphony/mm/kheap.c, over the frame allocator's state, whose memory holds the
-- block headers. Page counts, `int` in the source, are below 2^31.
pub mod Header
pub mod Blocks
pub mod Replaces
pub mod Split
pub mod Merge
pub mod Mark
pub mod Invariant
pub mod Steps
pub mod Coalesce
pub mod Free
pub mod Find
pub mod Malloc
pub mod Append
pub mod Fresh
pub mod Extend
pub mod Allocate
pub mod Zeroed
pub mod Init
pub mod Ready
mod Tests
use orchestr_os.Base.{
  ℕ, zero, suc, ◌+◌, ◌-◌, ◌*◌, ◌/◌, ◌%◌, Bool, true, false, not, ◌&&◌, ◌||◌, Option, none, some,
  ltb, leb, ◌==◌, if◌then◌else◌,
}
use orchestr_os.Base.Word.{u64, sub64, page_size, align_up}
use orchestr_os.Base.Run.{Run, ok, halt, Cmd, pure, followed_by, out_of_fuel}
use orchestr_os.Memory.{Mem, memset}
use orchestr_os.BootProto.{Limine}
use orchestr_os.Pmm.State.{Pmm}
use orchestr_os.Pmm.Frames.{alloc}
use orchestr_os.KHeap.Header.{header, header_size, set_size, set_free, set_next, set_prev, relink}

-- The statics of the file, and the allocator below.
pub record KHeap : Type 0 where
  pub pmm : Pmm
  pub block_list_start : ℕ
  pub block_list_end : ℕ
  pub kheap_size : ℕ
  pub kheap_size_usable : ℕ

abbrev pub memory_of : KHeap → Mem
memory_of s = s.pmm.memory

abbrev pub with_memory : KHeap → Mem → KHeap
with_memory s m = record s { pmm = record s.pmm { memory = m } }

-- `pmm_alloc(pages) + boot_proto_hhdm_offset()`
unfoldable pub with_pages : Limine → KHeap → Run Pmm ℕ → Run KHeap ℕ
with_pages l s (ok base p) = ok (u64 (base + l.hhdm_offset)) (record s { pmm = p })
with_pages l s (halt e) = halt e

unfoldable pub alloc_pages : Limine → (pages : ℕ) → Cmd KHeap ℕ
alloc_pages l pages s = with_pages l s (alloc pages s.pmm)

-- What `kheap_extend` writes to the new pages, `size` bytes from `newbh` on, and to the last block.
unfoldable pub append_memory : (newbh size end : ℕ) → Mem → Mem
append_memory newbh size end m =
    let m1 = memset newbh 0 size m in
    let m2 = set_size newbh (sub64 size header_size) m1 in
    let m3 = set_free newbh true m2 in
    let m4 = set_prev newbh end m3 in let m5 = set_next end newbh m4 in set_next newbh 0 m5

unfoldable pub append_block : (newbh size : ℕ) → KHeap → KHeap
append_block newbh size s =
    let m = append_memory newbh size s.block_list_end (memory_of s) in
    record (with_memory s m) {
      block_list_end = newbh;
      kheap_size = u64 (s.kheap_size + size);
      kheap_size_usable = u64 (s.kheap_size_usable + (header m newbh).size);
    }

-- The bytes that `kheap_extend` asks for.
unfoldable pub extension : (size : ℕ) → ℕ
extension size =
    let size1 = u64 (size + header_size) in
    if not (size1 % page_size == 0) then align_up size1 page_size else size1

unfoldable pub kheap_extend : Limine → (size : ℕ) → Cmd KHeap (Unit {0})
kheap_extend l size s =
    followed_by (alloc_pages l (extension size / page_size) s)
      λ newbh t. ok tt (append_block newbh (extension size) t)

-- What `kheap_create_block` writes.
unfoldable pub split_memory : (bh size : ℕ) → Mem → Mem
split_memory bh size m =
    let newbh = u64 (bh + header_size + size) in
    let m1 = memset newbh 0 header_size m in
    let m2 = set_size newbh (sub64 (header m1 bh).size (u64 (size + header_size))) m1 in
    let m3 = set_size bh size m2 in
    let m4 = set_next newbh (header m3 bh).next m3 in
    let m5 = set_next bh newbh m4 in
    let m6 = set_prev newbh bh m5 in
    let m7 = relink (header m6 newbh).next newbh m6 in set_free newbh true m7

unfoldable pub kheap_create_block : (bh size : ℕ) → KHeap → KHeap
kheap_create_block bh size s =
    let newbh = u64 (bh + header_size + size) in
    record (with_memory s (split_memory bh size (memory_of s))) {
      block_list_end = if bh == s.block_list_end then newbh else s.block_list_end;
    }

-- KHEAP_INIT_PAGES
abbrev pub kheap_init_pages : ℕ
kheap_init_pages = 16

-- What `kheap_init` writes: the header of one free block, `size` bytes with it.
unfoldable pub first_memory : (start size : ℕ) → Mem → Mem
first_memory start size m =
    let m1 = memset start 0 header_size m in
    let m2 = set_size start (size - header_size) m1 in
    let m3 = set_prev start 0 m2 in let m4 = set_next start 0 m3 in set_free start true m4

unfoldable pub first_block : (start size : ℕ) → KHeap → KHeap
first_block start size s =
    let m = first_memory start size (memory_of s) in
    record (with_memory s m) {
      block_list_start = start;
      block_list_end = start;
      kheap_size = size;
      kheap_size_usable = (header m start).size;
    }

unfoldable pub kheap_init : Limine → Cmd KHeap ℕ
kheap_init l s =
    followed_by (alloc_pages l kheap_init_pages s)
      λ start t. ok 0 (first_block start (kheap_init_pages * page_size) t)

-- `bh->free = false`
unfoldable pub take : (bh : ℕ) → KHeap → KHeap
take bh s = with_memory s (set_free bh false (memory_of s))

-- The loop of `kmalloc`: the address that it returns, or `none` at the end of the list.
unfoldable pub find_block : (fuel size bh : ℕ) → Cmd KHeap (Option ℕ)
find_block zero size bh s = halt out_of_fuel
find_block (suc fuel) size bh s =
    let b = header (memory_of s) bh in
    let rest = find_block fuel size b.next s in
    let result = some (u64 (bh + header_size)) in
    if bh == 0
    then ok none s
    else if not b.free || ltb b.size size
    then rest
    else if b.size == size || (ltb size b.size && leb b.size (u64 (size + header_size)))
    then ok result (take bh s)
    else if ltb (u64 (size + header_size)) b.size
    then ok result (take bh (kheap_create_block bh size s))
    else rest

-- The size that `kmalloc` looks for. The test is on a remainder by ten.
unfoldable pub request : (size : ℕ) → ℕ
request size = if not (size % 10 == 0) then align_up size 0x10 else size

-- `fuel` bounds the rounds of the loop and the calls of `kmalloc` by itself.
unfoldable pub kmalloc : (fuel : ℕ) → Limine → (size : ℕ) → Cmd KHeap ℕ
kmalloc zero l size s = halt out_of_fuel
kmalloc (suc fuel) l size s =
    followed_by (find_block fuel (request size) s.block_list_start s) λ found t. elim found [
      | some ptr ↦ ok ptr t
      | none ↦ followed_by (kheap_extend l (request size) t) λ _ u. kmalloc fuel l (request size) u
    ]

unfoldable pub kzalloc : (fuel : ℕ) → Limine → (size : ℕ) → Cmd KHeap ℕ
kzalloc fuel l size s =
    followed_by (kmalloc fuel l size s)
      λ ptr t. ok ptr (with_memory t (memset ptr 0 size (memory_of t)))

-- The block `bh` takes in the block `next` behind it: the writes of a merge of `kfree`.
unfoldable pub merge_memory : (bh next : ℕ) → Mem → Mem
merge_memory bh next m =
    let m1 = set_size bh (u64 ((header m bh).size + ((header m next).size + header_size))) m in
    let m2 = relink (header m1 next).next bh m1 in set_next bh (header m2 next).next m2

unfoldable pub merge : (bh next : ℕ) → KHeap → KHeap
merge bh next s = record (with_memory s (merge_memory bh next (memory_of s))) {
  block_list_end = if next == s.block_list_end then bh else s.block_list_end;
}

-- The block `bh` ends where `next` begins.
unfoldable pub ends_at : Mem → (bh next : ℕ) → Bool
ends_at m bh next = u64 (u64 (bh + (header m bh).size) + header_size) == next

-- "Try to merge with the next/previous block."
unfoldable pub merge_next : (bh : ℕ) → KHeap → KHeap
merge_next bh s =
    let m = memory_of s in
    let next = (header m bh).next in
    if not (next == 0) && ((header m next).free && ends_at m bh next) then merge bh next s else s

unfoldable pub merge_prev : (bh : ℕ) → KHeap → KHeap
merge_prev bh s =
    let m = memory_of s in
    let prev = (header m bh).prev in
    if not (prev == 0) && ((header m prev).free && ends_at m prev bh) then merge prev bh s else s

-- The block is marked as free and filled with 0xff.
unfoldable pub poison : (bh : ℕ) → KHeap → KHeap
poison bh s =
    let m = set_free bh true (memory_of s) in
    with_memory s (memset (u64 (bh + header_size)) 0xff (header m bh).size m)

-- A block that is free already is left with a warning.
unfoldable pub kfree : (ptr : ℕ) → KHeap → KHeap
kfree ptr s =
    let bh = sub64 ptr header_size in
    if ptr == 0
    then s
    else if (header (memory_of s) bh).free
    then s
    else merge_prev bh (merge_next bh (poison bh s))
