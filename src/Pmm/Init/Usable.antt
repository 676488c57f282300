-- ===== src/Pmm/Init/Usable.antt =====
-- The loops of `pmm_init` that mark the usable pages free and the pages of the bitmap used.
use orchestr_os.Base.{
  ℕ, zero, suc, ◌+◌, ◌-◌, ◌*◌, ◌/◌, ◌≤◌, ◌<◌, ◌≡◌, refl, ap, ◌∙◌, Bool, true, false, ◌&&◌, ◌||◌,
  List, [], ◌∷◌, arith, if◌then◌else◌, Bool-cases, inl, inr,
}
use orchestr_os.Base.Word.{u64, page_size}
use orchestr_os.Base.Run.{followed_by, Returns, returns, Returns-bind, Returns-mono}
use orchestr_os.Memory.{within}
use orchestr_os.BootProto.{Limine, LimineMemmapEntry, memmap_entry}
use mathlib.Core.Path.{fun_ext}
use orchestr_os.Pmm.State.{Pmm, is_used, bitmap_set, bitmap_set_range}
use orchestr_os.Pmm.Marks.{bitmap_clear_range-Marked}
use orchestr_os.Pmm.Init.{is_usable, clear_usable, set_bitmap_pages}

-- The pages of an entry: from the page that its first byte is in up to the page of its end.
abbrev pub first_page : LimineMemmapEntry → ℕ
first_page e = e.base / page_size

abbrev pub page_count : LimineMemmapEntry → ℕ
page_count e = u64 (e.base + e.length) / page_size - first_page e

-- Page `k` lies in a usable entry.
unfoldable pub usable_page : Limine → List LimineMemmapEntry → ℕ → Bool
usable_page l [] k = false
usable_page l (e ∷ es) k =
    (is_usable l e && within (first_page e) (page_count e) k) || usable_page l es k

-- Every usable entry ends at or below page `limit`.
abbrev pub UsableBelow : Limine → (limit : ℕ) → List LimineMemmapEntry → Type 0
UsableBelow l limit [] = Unit {0}
UsableBelow l limit (e ∷ es) =
    (is_usable l e ≡ true → first_page e + page_count e ≤ limit) × UsableBelow l limit es

-- `s'` is `s` with the pages that `pages` tells made free.
pub record Cleared (s : Pmm) (pages : ℕ → Bool) (s' : Pmm) : Type 0 where
  pub bitmap : s'.bitmap ≡ s.bitmap
  pub bitmap_size : s'.bitmap_size ≡ s.bitmap_size
  pub bytes : (a : ℕ) → s'.memory a < 256
  pub used : (k : ℕ) → is_used s' k ≡ (if pages k then false else is_used s k)

pub clear_usable-Cleared :
    (l : Limine) (es : List LimineMemmapEntry) (s : Pmm)
    → ((a : ℕ) → s.memory a < 256)
    → UsableBelow l (s.bitmap_size * 8) es
    → Returns (λ _ s'. Cleared s (usable_page l es) s') (clear_usable l es s)
unfolding clear_usable usable_page memmap_entry
clear_usable-Cleared l [] s bytes fits =
    returns (record { bitmap = refl; bitmap_size = refl; bytes = bytes; used = λ k. refl })
clear_usable-Cleared l (e ∷ es) s bytes fits = elim (Bool-cases (is_usable l e)) [
  | inr reserved ↦ rw reserved (
      Returns-mono (clear_usable-Cleared l es s bytes fits.1) λ _ s' c. record {
        bitmap = c.bitmap;
        bitmap_size = c.bitmap_size;
        bytes = c.bytes;
        used = λ k. ground (arith, c.used k);
      })
  | inl usable ↦ rw usable (
      Returns-bind (bitmap_clear_range-Marked (page_count e) (first_page e) s bytes (fits.0 usable))
        λ _ t one.
          Returns-mono (clear_usable-Cleared l es t one.bytes (rw one.bitmap_size fits.1)) λ _ s' c.
            record {
              bitmap = c.bitmap ∙ one.bitmap;
              bitmap_size = c.bitmap_size ∙ one.bitmap_size;
              bytes = c.bytes;
              used = λ k. ground (arith, c.used k, one.used k);
            })
]

-- The loop over the pages of the bitmap, from a page boundary on.
pub set_bitmap_pages-eq-range :
    (left page : ℕ) (s : Pmm)
    → set_bitmap_pages left (page * page_size) s ≡ bitmap_set_range left page s
unfolding set_bitmap_pages bitmap_set_range
set_bitmap_pages-eq-range zero page s = refl
set_bitmap_pages-eq-range (suc left) page s =
    let at : page * page_size / page_size ≡ page = omega arith in
    let next : page * page_size + page_size ≡ (page + 1) * page_size = omega arith in
    rw (at, next)
      (ap (followed_by (bitmap_set page s))
        (fun_ext λ _. fun_ext λ t. set_bitmap_pages-eq-range left (page + 1) t))
