-- ===== src/Pmm/Init.antt =====
-- `pmm_init` of symphony/mm/pmm.c. The loops over the memory map run over the list of its entries;
-- the loop that goes backwards calls `boot_proto_memmap_entry_get` as the source does.
pub mod LastPage
pub mod Place
pub mod Usable
pub mod Ready
pub mod FirstOnly
use orchestr_os.Base.{
  ℕ, zero, suc, ◌+◌, ◌-◌, ◌/◌, ◌^◌, Bool, not, ◌&&◌, ◌||◌, false, List, [], ◌∷◌, leb, ◌==◌,
  if◌then◌else◌,
}
use orchestr_os.Base.Word.{u64, sub64, page_size, align_up}
use orchestr_os.Base.Run.{
  ok, Cmd, pure, panic, ◌>>=◌, ◌>>◌, wrong_bitmap_size, bitmap_not_allocated,
}
use orchestr_os.Memory.{within, memset}
use orchestr_os.BootProto.{
  Limine, LimineMemmapEntry, MemmapEntry, memmap_entry, memmap_entry_get, memmap_entry_count,
}
use orchestr_os.BootProto.MemmapType
use orchestr_os.Pmm.State.{Pmm, bitmap_set, bitmap_clear_range}
use orchestr_os.Pmm.Frames.{fill}

-- `for (i = boot_proto_memmap_entry_count() - 1; i > 0; i--)`
unfoldable pub last_tracked_from : {S : Type 0} → Limine → (i : ℕ) → Cmd S ℕ
last_tracked_from l zero = pure 0
last_tracked_from l (suc i) = do
  entry ← memmap_entry_get l (suc i)
  if entry.type == MemmapType.usable
      then pure (u64 (entry.base + entry.length) / page_size)
      else last_tracked_from l i

-- With no entry the index starts at 2^64 - 1.
unfoldable pub last_tracked_page : {S : Type 0} → Limine → Cmd S ℕ
unfolding last_tracked_from
last_tracked_page l = last_tracked_from l (sub64 (memmap_entry_count l) 1)

-- Page 0 is never used: an entry that begins with it is shortened.
unfoldable pub skip_page_zero : MemmapEntry → MemmapEntry
skip_page_zero e =
    if e.base == 0
    then record e {
      base = e.base + page_size;
      length = if leb page_size e.length then e.length - page_size else 0;
    }
    else e

abbrev pub is_usable : Limine → LimineMemmapEntry → Bool
is_usable l e = (memmap_entry l e).type == MemmapType.usable

-- The loop that looks for a place for the bitmap, with the value of `bitmap` before it.
unfoldable pub find_place : Limine → (size : ℕ) → List LimineMemmapEntry → (bitmap : ℕ) → ℕ
unfolding skip_page_zero
find_place l size [] bitmap = bitmap
find_place l size (e ∷ es) bitmap =
    let rest = find_place l size es bitmap in
    let entry = skip_page_zero (memmap_entry l e) in
    if not (is_usable l e)
    then rest
    else if leb size entry.length
    then u64 (entry.base + l.hhdm_offset)
    else rest

-- The loop that marks the usable entries as free.
unfoldable pub clear_usable : Limine → List LimineMemmapEntry → Cmd Pmm (Unit {0})
clear_usable l [] = pure tt
clear_usable l (e ∷ es) =
    let rest = clear_usable l es in
    let entry = memmap_entry l e in
    let first = entry.base / 2 ^ 12 in
    let end = u64 (entry.base + entry.length) / 2 ^ 12 in
    if not (is_usable l e) then rest else bitmap_clear_range (end - first) first >> rest

-- `for (i = bitmapPhysAddr; i < …; i += PAGE_SIZE) pmm_bitmap_set(i / PAGE_SIZE)`
unfoldable pub set_bitmap_pages : (left i : ℕ) → Cmd Pmm (Unit {0})
set_bitmap_pages zero i = pure tt
set_bitmap_pages (suc left) i = bitmap_set (i / page_size) >> set_bitmap_pages left (i + page_size)

-- `assert(cond, message)`
abbrev assert : {S : Type 0} → Bool → Cmd S (Unit {0}) → Cmd S (Unit {0})
assert cond otherwise = if cond then pure tt else otherwise

-- The part of `pmm_init` before the bitmap is written.
unfoldable pub place_bitmap : Limine → Cmd Pmm (Unit {0})
unfolding last_tracked_page find_place
place_bitmap l = do
  last ← last_tracked_page l
  let size = align_up last 8 / 8
  assert (not (size == 0)) (panic wrong_bitmap_size)
  λ s. ok tt (record s { bitmap_size = size; bitmap = find_place l size l.entries s.bitmap })

unfoldable pub fill_bitmap : Limine → Cmd Pmm (Unit {0})
unfolding clear_usable set_bitmap_pages
fill_bitmap l = do
  λ s. fill s.bitmap 0xff s.bitmap_size s
  clear_usable l l.entries
  λ s.
      set_bitmap_pages (align_up s.bitmap_size page_size / page_size) (sub64 s.bitmap l.hhdm_offset)
        s
  bitmap_set 0

-- What it logs at its end stands in the boot sequence.
unfoldable pub init : Limine → Cmd Pmm ℕ
unfolding place_bitmap fill_bitmap
init l = do
  place_bitmap l
  λ s. assert (not (s.bitmap == 0)) (panic bitmap_not_allocated) s
  fill_bitmap l
  pure 0
