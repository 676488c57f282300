-- ===== src/KHeap/Invariant.antt =====
-- The kernel heap of symphony/mm/kheap.c at work.
use orchestr_os.Base.{
  ℕ, ◌+◌, ◌*◌, ◌≤◌, ◌<◌, ◌^◌, ◌≡◌, ◌≢◌, refl, sym, ◌∙◌, true, List, [], ◌∷◌, arith,
}
use orchestr_os.Base.Word.{page_size}
use orchestr_os.Memory.{Mem, within}
use orchestr_os.BootProto.{Limine}
use orchestr_os.Pmm.State.{Pmm}
use orchestr_os.Pmm.Frames.Laws.{IsPmm}
use orchestr_os.KHeap.{KHeap, memory_of, with_memory}
use orchestr_os.KHeap.Blocks.{
  Block, cover, headers_at, headers_used_le, Seg-frame, used_at, first_or, last_or, Seg,
}
use orchestr_os.KHeap.Replaces.{Replaces}
use orchestr_os.Pmm.Pages.{Owned, IsPmm-write, Owned-write}

-- The block list is `bs`: its headers stand in memory, linked both ways between the two statics, no
-- address is in two blocks, and all of them lie in memory that the frame allocator has given out; the
-- direct map ends before the address space does.
pub record IsKHeap (l : Limine) (s : KHeap) (bs : List Block) : Type 0 where
  pub pmm : IsPmm l s.pmm
  pub below : s.pmm.bitmap_size * 8 * page_size + l.hhdm_offset < 2 ^ 64
  pub seg : Seg (memory_of s) 0 0 bs
  pub start : s.block_list_start ≡ first_or 0 bs
  pub end : s.block_list_end ≡ last_or 0 bs
  pub nonempty : bs ≢ []
  pub once : (a : ℕ) → cover a bs ≤ 1
  pub owned : (a : ℕ) → 1 ≤ cover a bs → Owned l s.pmm a

pub tracks_some :
    (l : Limine) (s : Pmm) (bs : List Block)
    → bs ≢ []
    → ((a : ℕ) → 1 ≤ cover a bs → Owned l s a)
    → 0 < s.bitmap_size
tracks_some l s [] ne owned = absurd (ne refl)
tracks_some l s (b ∷ bs) ne owned = let o = owned b.addr (ground arith) in omega (arith, o.tracked)

-- The block list was rewritten as `bs'`, and the static for its end with it.
pub Replaces-IsKHeap :
    {l : Limine} {s : KHeap} {bs bs' : List Block} {m : Mem} {end : ℕ}
    → IsKHeap l s bs
    → Replaces (memory_of s) m 0 bs bs'
    → bs' ≢ []
    → end ≡ last_or 0 bs'
    → IsKHeap l (record (with_memory s m) { block_list_end = end }) bs'
Replaces-IsKHeap {l} {s} {bs} {bs'} {m} inv r some_block at_end =
    let same : (a : ℕ) → within s.pmm.bitmap s.pmm.bitmap_size a ≡ true → m a ≡ memory_of s a =
      λ a h. r.outside a (ground (arith, h, λ (c : 1 ≤ cover a bs). (inv.owned a c).apart)) in
    record {
      pmm =
          IsPmm-write l s.pmm m inv.pmm (tracks_some l s.pmm bs inv.nonempty inv.owned)
            (r.bytes inv.pmm.bytes) same;
      below = inv.below;
      seg = r.seg;
      start = inv.start ∙ sym r.first;
      end = at_end;
      nonempty = some_block;
      once = λ a. rw (r.covers a) (inv.once a);
      owned = λ a h. Owned-write l s.pmm m a (inv.owned a (rw (← r.covers a) h)) same;
    }

-- What a client writes to the bytes of blocks in use leaves the heap at work.
pub client_write-IsKHeap :
    {l : Limine} {s : KHeap} {bs : List Block} {m : Mem}
    → IsKHeap l s bs
    → (((a : ℕ) → memory_of s a < 256) → (a : ℕ) → m a < 256)
    → ((a : ℕ) → used_at a bs ≡ 0 → m a ≡ memory_of s a)
    → IsKHeap l (with_memory s m) bs
client_write-IsKHeap {l} {s} {bs} {m} inv bytes same = record {
  pmm =
      IsPmm-write l s.pmm m inv.pmm (tracks_some l s.pmm bs inv.nonempty inv.owned)
        (bytes inv.pmm.bytes) spared;
  below = inv.below;
  seg =
      Seg-frame (memory_of s) m 0 0 bs
        (λ a h. same a (unused_header a (inv.once a) h (headers_used_le a bs))) inv.seg;
  start = inv.start;
  end = inv.end;
  nonempty = inv.nonempty;
  once = inv.once;
  owned = λ a h. Owned-write l s.pmm m a (inv.owned a h) spared;
}
  where
    unused_header :
        (a : ℕ)
        → cover a bs ≤ 1
        → 1 ≤ headers_at a bs
        → headers_at a bs + used_at a bs ≤ cover a bs
        → used_at a bs ≡ 0
    unused_header a h h' h'' = omega (arith, h, h', h'')

    spared : (a : ℕ) → within s.pmm.bitmap s.pmm.bitmap_size a ≡ true → m a ≡ memory_of s a
    spared a h =
        let none : cover a bs ≡ 0 =
          ground (arith, h, λ (c : 1 ≤ cover a bs). (inv.owned a c).apart) in
        same a (omega (arith, none, headers_used_le a bs))
