-- ===== src/Pmm/Frames.antt =====
-- `pmm_alloc` and `pmm_free` of symphony/mm/pmm.c.
pub mod Laws
pub mod Invariant
use orchestr_os.Base.{ℕ, ◌+◌, ◌-◌, ◌*◌, ◌/◌, ◌%◌, ◌^◌, ltb, if◌then◌else◌}
use orchestr_os.Base.Word.{u64, page_size}
use orchestr_os.Base.Run.{Cmd, pure, ok, ◌>>=◌, ◌>>◌}
use orchestr_os.Memory.{memset}
use orchestr_os.BootProto.{Limine}
use orchestr_os.Pmm.State.{Pmm, bitmap_set_range, bitmap_clear_range}
use orchestr_os.Pmm.Find.{find_free_pages}

unfoldable pub alloc : (pages : ℕ) → Cmd Pmm ℕ
alloc pages = do
  base ← find_free_pages pages
  bitmap_set_range pages base
  pure (u64 (base * 2 ^ 12))

-- `memset` on the memory that the pages lie in.
unfoldable pub fill : (start c n : ℕ) → Cmd Pmm (Unit {0})
fill start c n s = ok tt (record s { memory = memset start c n s.memory })

-- `PAGE_SIZE*pages`, in `int`, as the `size_t` of `memset`: it wraps at 2^32, and from 2^31 on the sign
-- is extended.
unfoldable pub poison_size : (pages : ℕ) → ℕ
poison_size pages =
    let product = page_size * pages % 2 ^ 32 in
    if ltb product (2 ^ 31) then product else product + (2 ^ 64 - 2 ^ 32)

unfoldable pub free : Limine → (base pages : ℕ) → Cmd Pmm ℕ
unfolding fill
free l base pages = do
  bitmap_clear_range pages (base / 2 ^ 12)
  fill (u64 (base + l.hhdm_offset)) 0xff (poison_size pages)
  pure 0
