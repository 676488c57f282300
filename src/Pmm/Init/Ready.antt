-- ===== src/Pmm/Init/Ready.antt =====
-- After `pmm_init` the free pages are the usable ones, less page 0 and the pages of the bitmap.
use orchestr_os.Base.{
  ℕ, ◌+◌, ◌*◌, ◌/◌, ◌%◌, ◌≤◌, ◌<◌, ◌≡◌, refl, ap, ◌∙◌, true, false, not, ◌||◌, List, [], ◌∷◌, arith,
  ◌==◌, ◌^◌,
}
use orchestr_os.Base.Bits.{bit_is_set-full}
use orchestr_os.Base.Lists.{length}
use orchestr_os.Base.Word.{u64, sub64, page_size, align_up, align_up_page, align_up_eight}
use orchestr_os.Base.Run.{Returns, returns, Returns-bind, Returns-mono}
use orchestr_os.Memory.{within, memset}
use orchestr_os.Memory.Block.{memset_lem}
use orchestr_os.BootProto.{Limine, MemmapEntry, LimineMemmapEntry, memmap_entry}
use orchestr_os.Pmm.State.{Pmm, is_used}
use orchestr_os.Pmm.Marks.{bitmap_set-Marked, bitmap_set_range-Marked}
use orchestr_os.Pmm.Frames.{fill}
use orchestr_os.Pmm.Frames.Laws.{IsPmm}
use orchestr_os.Pmm.Init.{is_usable, skip_page_zero, find_place, place_bitmap, fill_bitmap, init}
use orchestr_os.Pmm.Init.LastPage.{LastUsable, end_page, last_tracked_page-end}
use orchestr_os.Pmm.Init.Usable.{
  usable_page, UsableBelow, clear_usable-Cleared, set_bitmap_pages-eq-range,
}
use orchestr_os.Pmm.Init.Place.{All, Any, HasRoom, find_place-HasRoom}

-- A usable entry consists of whole pages and ends at or below page `limit`.
abbrev pub WholePages : Limine → (limit : ℕ) → LimineMemmapEntry → Type 0
WholePages l limit e =
    is_usable l e ≡ true
    → (e.base % page_size ≡ 0)
      × (e.length % page_size ≡ 0)
      × (e.base + e.length ≤ limit * page_size)

-- The bytes of the bitmap.
abbrev pub bitmap_bytes : LimineMemmapEntry → ℕ
bitmap_bytes e = align_up (end_page e) 8 / 8

-- A memory map that `pmm_init` can work with: usable entries are whole pages, end at or below the last
-- usable one, and do not wrap; the last usable one, `e`, is not the first entry, which is more than the
-- boot protocol promises; some usable entry has room for the bitmap.
pub record IsMemmap (l : Limine) (i : ℕ) (e : LimineMemmapEntry) : Type 0 where
  pub few : length l.entries < 2 ^ 64
  pub at_index : i < length l.entries
  pub last : LastUsable l i e
  pub tracked : 0 < end_page e
  pub mapped : (end_page e + 8) * page_size + l.hhdm_offset ≤ 2 ^ 64
  pub whole : All (WholePages l (end_page e)) l.entries
  pub room : Any (HasRoom l (bitmap_bytes e)) l.entries

-- Where the bitmap lies: `count` whole pages from `page` on.
record Placed (l : Limine) (limit size : ℕ) (bitmap : ℕ) : Type 0 where
  page : ℕ
  above : 0 < page
  address : bitmap ≡ page * page_size + l.hhdm_offset
  fits : page + align_up size page_size / page_size ≤ limit

-- An entry of whole pages that keeps room without page 0 keeps its end and whole pages.
skip_page_zero-whole :
    (m : MemmapEntry)
    → m.base % page_size ≡ 0
    → m.length % page_size ≡ 0
    → 0 < (skip_page_zero m).length
    → (0 < (skip_page_zero m).base)
      × ((skip_page_zero m).base % page_size ≡ 0)
      × ((skip_page_zero m).length % page_size ≡ 0)
      × ((skip_page_zero m).base + (skip_page_zero m).length ≡ m.base + m.length)
unfolding skip_page_zero
skip_page_zero-whole m b n pos = ground arith

place-Placed :
    (l : Limine) (limit size bitmap : ℕ) (m : MemmapEntry)
    → 0 < size
    → size ≤ m.length
    → 0 < m.base
    → m.base % page_size ≡ 0
    → m.length % page_size ≡ 0
    → m.base + m.length ≤ limit * page_size
    → (limit + 8) * page_size + l.hhdm_offset ≤ 2 ^ 64
    → bitmap ≡ u64 (m.base + l.hhdm_offset)
    → Placed l limit size bitmap
place-Placed l limit size bitmap m pos room above b n end mapped e = record {
  page = m.base / page_size;
  above = omega arith;
  address = omega arith;
  fits = omega (arith, align_up_page size (omega arith));
}

whole-UsableBelow :
    (l : Limine) (limit n : ℕ) (es : List LimineMemmapEntry)
    → limit ≤ n
    → limit * page_size < 2 ^ 64
    → All (WholePages l limit) es
    → UsableBelow l n es
whole-UsableBelow l limit n [] le small all = tt
whole-UsableBelow l limit n (e ∷ es) le small all = (
  λ usable. let (b, len, end) = all.0 usable in omega arith,
  whole-UsableBelow l limit n es le small all.1,
)

-- The pages when the bitmap is full of ones.
is_used-full :
    (t : Pmm) (k : ℕ)
    → k < t.bitmap_size * 8
    → is_used (record t { memory = memset t.bitmap 0xff t.bitmap_size t.memory }) k ≡ true
unfolding is_used
is_used-full t k h = ground (
  arith,
  memset_lem t.bitmap 0xff t.bitmap_size t.memory (t.bitmap + k / 8),
  bit_is_set-full (k % 8),
)

-- The pages when `pmm_init` has returned: used are page 0, the pages of the bitmap, and those that
-- are not usable; all others are free.
pub record InitialPages (l : Limine) (s : Pmm) : Type 0 where
  pub bitmap_page : ℕ
  pub at_bitmap : s.bitmap ≡ bitmap_page * page_size + l.hhdm_offset
  pub pages :
      (k : ℕ)
      → k < s.bitmap_size * 8
      → is_used s k ≡ (
          k == 0
          || within bitmap_page (align_up s.bitmap_size page_size / page_size) k
          || not (usable_page l l.entries k))

module _ (l : Limine) (i : ℕ) (e : LimineMemmapEntry) (map : IsMemmap l i e) where
  abbrev size : ℕ
  size = bitmap_bytes e

  size_bounds : (0 < size) × (end_page e ≤ size * 8) × (size * 8 < end_page e + 8)
  size_bounds =
      let t = map.tracked in
      let m = map.mapped in ground (arith, align_up_eight (end_page e) (omega arith))

  -- The direct map of the tracked pages ends before the address space does.
  pub size_below : size * 8 * page_size + l.hhdm_offset < 2 ^ 64
  size_below = let m = map.mapped in let (_, _, b) = size_bounds in omega (arith, m, b)

  pub size_physical : end_page e + 8 ≤ 2 ^ 40 → size * 8 ≤ 2 ^ 40
  size_physical h = let (_, _, b) = size_bounds in omega (arith, h, b)

  find_place-Placed : (bitmap : ℕ) → Placed l (end_page e) size (find_place l size l.entries bitmap)
  unfolding memmap_entry
  find_place-Placed bitmap =
      let (e', whole, (usable, room), place) =
        find_place-HasRoom l size l.entries (WholePages l (end_page e)) bitmap map.whole map.room in
      let (b, n, end) = whole usable in
      let m = skip_page_zero (memmap_entry l e') in
      let (above, b', n', end') =
        skip_page_zero-whole (memmap_entry l e') b n (omega (arith, size_bounds)) in
      place-Placed l (end_page e) size _ m size_bounds.0 room above b' n' (omega arith) map.mapped
        place

  -- `pmm_init` up to the write of the bitmap, from the state at boot.
  place_bitmap-Placed :
      (s : Pmm)
      → Returns
          (λ _ t.
            (t.bitmap_size ≡ size) × Placed l (end_page e) size t.bitmap × (t.memory ≡ s.memory))
          (place_bitmap l s)
  unfolding place_bitmap
  place_bitmap-Placed s = rw (last_tracked_page-end l s i e map.last map.at_index map.few) (
      let nonzero : (size == 0) ≡ false = ground (arith, size_bounds) in
      rw nonzero (returns (refl, find_place-Placed s.bitmap, refl)))

  -- The rest of `pmm_init`, once the bitmap has its place.
  fill_bitmap-InitialPages :
      (t : Pmm)
      → ((a : ℕ) → t.memory a < 256)
      → t.bitmap_size ≡ size
      → Placed l (end_page e) size t.bitmap
      → Returns
          (λ _ s'. InitialPages l s' × ((a : ℕ) → s'.memory a < 256) × (s'.bitmap_size ≡ size))
          (fill_bitmap l t)
  unfolding fill_bitmap fill
  fill_bitmap-InitialPages t bytes sz placed =
      let mapped = map.mapped in
      let (pos, covers, below) = size_bounds in
      let fits = placed.fits in
      let full = record t { memory = memset t.bitmap 0xff t.bitmap_size t.memory } in
      Returns-bind
        (clear_usable-Cleared l l.entries full
          (λ a. ground (arith, bytes a, memset_lem t.bitmap 0xff t.bitmap_size t.memory a))
          (whole-UsableBelow l (end_page e) (t.bitmap_size * 8) l.entries (omega arith)
            (omega arith) map.whole))
        λ _ u cleared.
          let start : sub64 u.bitmap l.hhdm_offset ≡ placed.page * page_size =
            omega (arith, placed.address, cleared.bitmap) in
          let same_size : u.bitmap_size ≡ size = cleared.bitmap_size ∙ sz in
          rw
            (
              start,
              set_bitmap_pages-eq-range (align_up u.bitmap_size page_size / page_size) placed.page,
            )
            (Returns-bind
              (bitmap_set_range-Marked _ placed.page u cleared.bytes (rw same_size (omega arith)))
              λ _ v marked.
                Returns-mono (bitmap_set-Marked v marked.bytes 0 (ground arith)) λ _ w zero. (
                  record {
                    bitmap_page = placed.page;
                    at_bitmap = zero.bitmap ∙ marked.bitmap ∙ cleared.bitmap ∙ placed.address;
                    pages = λ k h. ground (
                      arith,
                      zero.used k,
                      marked.used k,
                      cleared.used k,
                      is_used-full t k,
                      ap (λ n. align_up n page_size) zero.bitmap_size,
                      ap (λ n. align_up n page_size) marked.bitmap_size,
                    );
                  },
                  zero.bytes,
                  zero.bitmap_size ∙ marked.bitmap_size ∙ same_size,
                ))

  InitialPages-IsPmm :
      (s : Pmm) → ((a : ℕ) → s.memory a < 256) → s.bitmap_size ≡ size → InitialPages l s → IsPmm l s
  InitialPages-IsPmm s bytes sz pages =
      let mapped = map.mapped in
      let (pos, covers, below) = size_bounds in
      record {
        bytes = bytes;
        mapped = rw sz (omega arith);
        page_zero = ground (arith, pages.pages 0);
        reserved = λ k a h here there.
            ground (arith, pages.pages k h, pages.at_bitmap, align_up_page s.bitmap_size);
      }

  -- The size of the bitmap with it.
  pub init-Sized :
      (s : Pmm)
      → ((a : ℕ) → s.memory a < 256)
      → Returns
          (λ r s'. (r ≡ 0) × InitialPages l s' × IsPmm l s' × (s'.bitmap_size ≡ size))
          (init l s)
  unfolding init
  init-Sized s bytes = Returns-bind (place_bitmap-Placed s) λ _ t (sz, placed, same).
      let nonzero : (t.bitmap == 0) ≡ false = ground (arith, placed.above, placed.address) in
      rw nonzero (
        Returns-bind (fill_bitmap-InitialPages t (rw same bytes) sz placed)
          λ _ s' (pages, bytes', sz').
            returns (refl, pages, InitialPages-IsPmm s' bytes' sz' pages, sz'))

  -- `pmm_init`, on a memory map whose usable entries are whole pages that end at or below the last
  -- usable one and do not wrap, whose last usable entry is not its first entry, and in which some usable
  -- entry has room for the bitmap, returns 0 with the allocator at work: exactly the usable pages are free, less page 0 and the pages that the bitmap takes up.
  pub init-InitialPages :
      (s : Pmm)
      → ((a : ℕ) → s.memory a < 256)
      → Returns (λ r s'. (r ≡ 0) × InitialPages l s' × IsPmm l s') (init l s)
  init-InitialPages s bytes =
      Returns-mono (init-Sized s bytes)
        λ r s' (zero_result, pages, inv, sz). (zero_result, pages, inv)
