-- ===== src/Pmm/Frames/Laws.antt =====
-- What `pmm_alloc` and `pmm_free` do to the pages and to memory.
use orchestr_os.Base.{
  ℕ, ◌+◌, ◌*◌, ◌/◌, ◌%◌, ◌^◌, ◌≤◌, ◌<◌, ◌≡◌, refl, ap, ◌∙◌, true, false, arith, if◌then◌else◌,
  Bool-cases, inl, inr, ◌-◌,
}
use orchestr_os.Base.Bits.{bit_is_set}
use orchestr_os.Base.Word.{u64, page_size}
use orchestr_os.Base.Run.{Returns, returns, Returns-bind}
use orchestr_os.Memory.{within, memset}
use orchestr_os.Memory.Block.{memset_lem}
use orchestr_os.BootProto.{Limine}
use orchestr_os.Pmm.State.{Pmm, is_used}
use orchestr_os.Pmm.Marks.{Marked, bitmap_set_range-Marked, bitmap_clear_range-Marked}
use orchestr_os.Pmm.Find.FirstFit.{AllFree, FirstFit, find_free_pages-FirstFit}
use orchestr_os.Pmm.Frames.{alloc, poison_size, free}

-- The allocator at work, with the direct map at `l.hhdm_offset`: the tracked pages lie in the
-- address space, page 0 and the pages that the bitmap itself lies in are used.
pub record IsPmm (l : Limine) (s : Pmm) : Type 0 where
  pub bytes : (a : ℕ) → s.memory a < 256
  pub mapped : s.bitmap_size * 8 * page_size + l.hhdm_offset ≤ 2 ^ 64
  pub page_zero : is_used s 0 ≡ true
  pub reserved :
      (k a : ℕ)
      → k < s.bitmap_size * 8
      → within (k * page_size + l.hhdm_offset) page_size a ≡ true
      → within s.bitmap s.bitmap_size a ≡ true
      → is_used s k ≡ true

-- The page that `pmm_alloc` answers with, and the state that it leaves.
pub record Allocated (s : Pmm) (n a : ℕ) (s' : Pmm) : Type 0 where
  pub page : ℕ
  pub address : a ≡ page * page_size
  pub fit : FirstFit s n (s.bitmap_size * 8) page
  pub marked : Marked s page n true s'

-- `pmm_alloc(n)`, for a positive `n` where the bitmap has a run of `n` free pages, returns the
-- address of the first such run, makes its pages used, and changes no other page and no memory
-- outside the bitmap.
pub alloc-Allocated :
    (l : Limine) (s : Pmm) (n q : ℕ)
    → IsPmm l s
    → 0 < n
    → q + n ≤ s.bitmap_size * 8
    → AllFree s q n
    → Returns (λ a s'. Allocated s n a s') (alloc n s)
unfolding alloc
alloc-Allocated l s n q inv pos fits all =
    Returns-bind (find_free_pages-FirstFit s n q pos fits all) λ b t (fit, same).
      let mapped = inv.mapped in
      let within_map = fit.fits in
      rw same (
        Returns-bind (bitmap_set_range-Marked n b s inv.bytes fit.fits) λ _ s' marked.
          returns (record { page = b; address = omega arith; fit = fit; marked = marked }))

-- What `pmm_free` leaves: the `n` pages from `page` on are free and filled with 0xff.
pub record Freed (l : Limine) (s : Pmm) (page n : ℕ) (s' : Pmm) : Type 0 where
  pub bitmap : s'.bitmap ≡ s.bitmap
  pub bitmap_size : s'.bitmap_size ≡ s.bitmap_size
  pub bytes : (a : ℕ) → s'.memory a < 256
  pub used :
      (k : ℕ)
      → k < s.bitmap_size * 8
      → is_used s' k ≡ (if within page n k then false else is_used s k)
  pub poisoned :
      (a : ℕ)
      → within (page * page_size + l.hhdm_offset) (page_size * n) a ≡ true
      → s'.memory a ≡ 0xff
  pub outside :
      (a : ℕ)
      → within (page * page_size + l.hhdm_offset) (page_size * n) a ≡ false
      → within s.bitmap s.bitmap_size a ≡ false
      → s'.memory a ≡ s.memory a

-- No byte of the `n` pages from `page` on is one of the bitmap.
abbrev pub ApartFromBitmap : Limine → Pmm → (page n : ℕ) → Type 0
ApartFromBitmap l s page n =
    (a : ℕ)
    → within (page * page_size + l.hhdm_offset) (page_size * n) a ≡ true
    → within s.bitmap s.bitmap_size a ≡ false

-- A fill of memory that spares the bitmap leaves the pages as they are.
is_used-fill :
    (l : Limine) (s : Pmm) (page n start : ℕ)
    → ApartFromBitmap l s page n
    → start ≡ page * page_size + l.hhdm_offset
    → (k : ℕ) → k < s.bitmap_size * 8
    → is_used (record s { memory = memset start 0xff (page_size * n) s.memory }) k ≡ is_used s k
unfolding is_used
is_used-fill l s page n start apart e k h =
    ap (λ t. bit_is_set t (k % 8))
      (ground (
        arith,
        apart (s.bitmap + k / 8),
        memset_lem start 0xff (page_size * n) s.memory (s.bitmap + k / 8),
      ))

cleared-Freed :
    (l : Limine) (s t : Pmm) (page n start : ℕ)
    → ApartFromBitmap l s page n
    → start ≡ page * page_size + l.hhdm_offset
    → Marked s page n false t
    → Freed l s page n (record t { memory = memset start 0xff (page_size * n) t.memory })
cleared-Freed l s t page n start apart e marked = record {
  bitmap = marked.bitmap;
  bitmap_size = marked.bitmap_size;
  bytes = λ a. ground (arith, filled a, marked.bytes a);
  used = λ k h.
      is_used-fill l t page n start (λ a. rw (marked.bitmap, marked.bitmap_size) (apart a)) e k
        (rw marked.bitmap_size h)
      ∙ marked.used k;
  poisoned = λ a h. ground (arith, filled a);
  outside = λ a h h'. ground (arith, filled a, marked.outside a h');
}
  where
    filled :
        (a : ℕ)
        → memset start 0xff (page_size * n) t.memory a
          ≡ (if within start (page_size * n) a then 0xff else t.memory a)
    filled = memset_lem start 0xff (page_size * n) t.memory

poison_size-small : (n : ℕ) → n < 2 ^ 19 → poison_size n ≡ page_size * n
unfolding poison_size
poison_size-small n h = ground (arith, h)

-- `pmm_free(base, n)`, on a page-aligned `base` and fewer than 2^19 pages (2 GiB) that the bitmap
-- tracks and does not lie in, makes exactly these `n` pages free and fills them with 0xff; it changes no other page, and no
-- memory outside them and the bitmap.
pub free-Freed :
    (l : Limine) (s : Pmm) (page n : ℕ)
    → IsPmm l s
    → 0 < n
    → n < 2 ^ 19
    → page + n ≤ s.bitmap_size * 8
    → ApartFromBitmap l s page n
    → Returns (λ r s'. (r ≡ 0) × Freed l s page n s') (free l (page * page_size) n s)
unfolding free
free-Freed l s page n inv pos few fits apart =
    let mapped = inv.mapped in
    let at_page : page * page_size / 2 ^ 12 ≡ page = omega arith in
    let start : u64 (page * page_size + l.hhdm_offset) ≡ page * page_size + l.hhdm_offset =
      omega arith in
    rw (at_page, poison_size-small n few)
      (Returns-bind (bitmap_clear_range-Marked n page s inv.bytes fits)
        λ _ t marked. returns (refl, cleared-Freed l s t page n _ apart start marked))

-- Pages that were free do not lie under the bitmap.
pub free-ApartFromBitmap :
    (l : Limine) (s : Pmm) (page n : ℕ)
    → IsPmm l s
    → page + n ≤ s.bitmap_size * 8
    → AllFree s page n
    → ApartFromBitmap l s page n
free-ApartFromBitmap l s page n inv fits all a h =
    elim (Bool-cases (within s.bitmap s.bitmap_size a)) [
      | inr apart ↦ apart
      | inl meets ↦
          let k = (a - l.hhdm_offset) / page_size in ground (arith, inv.reserved k a, all k)
    ]
