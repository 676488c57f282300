-- ===== src/KHeap/Steps.antt =====
-- The steps of kmalloc and kfree of symphony/mm/kheap.c on a heap at work: taking, splitting, freeing
-- and merging.
use orchestr_os.Base.{
  ℕ, ◌+◌, ◌≤◌, ◌<◌, ◌≡◌, ◌≢◌, refl, sym, ◌∙◌, true, false, List, [], ◌∷◌, ◌++◌, arith, ◌==◌,
  if◌then◌else◌,
}
use orchestr_os.Base.Word.{u64}
use orchestr_os.Memory.{Mem}
use orchestr_os.BootProto.{Limine}
use orchestr_os.KHeap.{
  KHeap, memory_of, with_memory, take, poison, merge, kheap_create_block, merge_memory,
  split_memory,
}
use orchestr_os.KHeap.Header.{set_free, header-set_free}
use orchestr_os.KHeap.Blocks.{
  Block, cover, cover-append, used_at, last_or, last_or-append, Seg, Seg-split,
}
use orchestr_os.KHeap.Replaces.{Replaces, Replaces-append}
use orchestr_os.KHeap.Split.{front, back, split_memory-Replaces}
use orchestr_os.KHeap.Merge.{joined, merge_memory-Replaces}
use orchestr_os.KHeap.Mark.{marked, set_free-Replaces, poison-Replaces}
use orchestr_os.KHeap.Invariant.{IsKHeap, Replaces-IsKHeap}

last_or-covered : (z : Block) (zs : List Block) → 1 ≤ cover (last_or z.addr zs) (z ∷ zs)
last_or-covered z [] = ground arith
last_or-covered z (y ∷ zs) = omega (arith, last_or-covered y zs)

-- A block's address is the last one exactly if no block stands behind it: so the end of the list moves
-- with the last block only.
end_moves :
    (b : Block) (ys : List Block) (new : ℕ)
    → ((a : ℕ) → cover a (b ∷ ys) ≤ 1)
    → (if b.addr == last_or b.addr ys then new else last_or b.addr ys) ≡ last_or new ys
end_moves b [] new once = ground arith
end_moves b (z ∷ zs) new once = ground (arith, last_or-covered z zs, once (last_or z.addr zs))

pub append_ne_nil : (xs : List Block) (z : Block) (zs : List Block) → xs ++ (z ∷ zs) ≢ []
append_ne_nil [] z zs e = cc e
append_ne_nil (x ∷ xs) z zs e = cc e

-- One step from a list of blocks to another over the same bytes.
pub record Step (l : Limine) (s : KHeap) (bs : List Block) (s' : KHeap) (bs' : List Block)
    : Type 0 where
  pub heap : IsKHeap l s' bs'
  pub covers : (a : ℕ) → cover a bs' ≡ cover a bs
  pub kept : (a : ℕ) → 1 ≤ used_at a bs → 1 ≤ used_at a bs' → memory_of s' a ≡ memory_of s a

module _ (l : Limine) (s : KHeap) (xs : List Block) where
  once_from : (zs : List Block) → IsKHeap l s (xs ++ zs) → (a : ℕ) → cover a zs ≤ 1
  once_from zs inv a = omega (arith, inv.once a, cover-append a xs zs)

  pub seg_from : (zs : List Block) → IsKHeap l s (xs ++ zs) → Seg (memory_of s) (last_or 0 xs) 0 zs
  seg_from zs inv = (Seg-split (memory_of s) 0 0 xs zs inv.seg).1

  Replaces-Step :
      (zs : List Block) (z' : Block) (zs' : List Block) (m : Mem) (end : ℕ)
      → IsKHeap l s (xs ++ zs)
      → Replaces (memory_of s) m (last_or 0 xs) zs (z' ∷ zs')
      → end ≡ last_or z'.addr zs'
      → Step l s (xs ++ zs) (record (with_memory s m) { block_list_end = end }) (xs ++ (z' ∷ zs'))
  Replaces-Step zs z' zs' m end inv r at_end =
      let whole = Replaces-append xs inv.once inv.seg r in
      record {
        heap =
            Replaces-IsKHeap inv whole (append_ne_nil xs z' zs')
              (at_end ∙ sym (last_or-append 0 xs (z' ∷ zs')));
        covers = whole.covers;
        kept = whole.kept;
      }

  end_from :
      (b : Block) (ys : List Block)
      → IsKHeap l s (xs ++ (b ∷ ys))
      → s.block_list_end ≡ last_or b.addr ys
  end_from b ys inv = inv.end ∙ last_or-append 0 xs (b ∷ ys)

  pub take-Step :
      (b : Block) (ys : List Block)
      → IsKHeap l s (xs ++ (b ∷ ys))
      → Step l s (xs ++ (b ∷ ys)) (take b.addr s) (xs ++ (marked b false ∷ ys))
  unfolding take
  take-Step b ys inv =
      Replaces-Step (b ∷ ys) (marked b false) ys (set_free b.addr false (memory_of s))
        s.block_list_end inv
        (set_free-Replaces (memory_of s) (last_or 0 xs) b ys (once_from (b ∷ ys) inv)
          (seg_from (b ∷ ys) inv) false)
        (end_from b ys inv)

  pub merge-Step :
      (x y : Block) (ys : List Block)
      → IsKHeap l s (xs ++ (x ∷ y ∷ ys))
      → x.addr + 32 + x.size ≡ y.addr
      → x.free ≡ true
      → y.free ≡ true
      → Step l s (xs ++ (x ∷ y ∷ ys)) (merge x.addr y.addr s) (xs ++ (joined x y ∷ ys))
  unfolding merge
  merge-Step x y ys inv meet x_free y_free =
      let once = once_from (x ∷ y ∷ ys) inv in
      Replaces-Step (x ∷ y ∷ ys) (joined x y) ys (merge_memory x.addr y.addr (memory_of s)) _ inv
        (merge_memory-Replaces (memory_of s) (last_or 0 xs) x y ys once meet x_free y_free
          (seg_from (x ∷ y ∷ ys) inv))
        (rw (end_from x (y ∷ ys) inv) (end_moves y ys x.addr (λ a. omega (arith, once a))))

  pub create_block-Step :
      (b : Block) (ys : List Block) (size : ℕ)
      → IsKHeap l s (xs ++ (b ∷ ys))
      → b.free ≡ true
      → size + 32 < b.size
      → Step l s
          (xs ++ (b ∷ ys))
          (kheap_create_block b.addr size s)
          (xs ++ (front b size ∷ back b size ∷ ys))
  unfolding kheap_create_block
  create_block-Step b ys size inv is_free larger =
      let once = once_from (b ∷ ys) inv in
      let seg = seg_from (b ∷ ys) inv in
      let at : u64 (b.addr + 32 + size) ≡ b.addr + 32 + size = omega (arith, seg.2) in
      Replaces-Step (b ∷ ys) (front b size) (back b size ∷ ys)
        (split_memory b.addr size (memory_of s)) _ inv
        (split_memory-Replaces (memory_of s) (last_or 0 xs) size b ys once larger is_free seg)
        (rw (at, end_from b ys inv) (end_moves b ys (b.addr + 32 + size) once))

  pub poison-Step :
      (b : Block) (ys : List Block)
      → IsKHeap l s (xs ++ (b ∷ ys))
      → Step l s (xs ++ (b ∷ ys)) (poison b.addr s) (xs ++ (marked b true ∷ ys))
  unfolding poison
  poison-Step b ys inv =
      let seg = seg_from (b ∷ ys) inv in
      let at : u64 (b.addr + 32) ≡ b.addr + 32 = omega (arith, seg.2) in
      rw (at, header-set_free (memory_of s) b.addr _ seg.0 true)
        (Replaces-Step (b ∷ ys) (marked b true) ys _ s.block_list_end inv
          (poison-Replaces (memory_of s) (last_or 0 xs) b ys (once_from (b ∷ ys) inv) seg)
          (end_from b ys inv))

pub Step-refl : (l : Limine) (s : KHeap) (bs : List Block) → IsKHeap l s bs → Step l s bs s bs
Step-refl l s bs inv = record { heap = inv; covers = λ a. refl; kept = λ a h h'. refl }

-- Of two steps, where what is in use before and after is in use between them.
pub Step-trans :
    {l : Limine} {s t u : KHeap} {bs0 bs1 bs2 : List Block}
    → Step l s bs0 t bs1
    → Step l t bs1 u bs2
    → ((a : ℕ) → 1 ≤ used_at a bs0 → 1 ≤ used_at a bs2 → 1 ≤ used_at a bs1)
    → Step l s bs0 u bs2
Step-trans first second between = record {
  heap = second.heap;
  covers = λ a. second.covers a ∙ first.covers a;
  kept = λ a h h'. let h'' = between a h h' in second.kept a h'' h' ∙ first.kept a h h'';
}
