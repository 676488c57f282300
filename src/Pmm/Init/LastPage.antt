-- ===== src/Pmm/Init/LastPage.antt =====
-- The last page that the bitmap tracks.
use native.Mathlib.Decide.{ℕ_discrete}
use orchestr_os.Base.{
  ℕ, zero, suc, ◌+◌, ◌/◌, ◌≤◌, ◌<◌, ◌≡◌, refl, sym, ap, ◌∙◌, true, false, some, arith, ◌^◌,
}
use orchestr_os.Base.Lists.{length, get_elem?, get_elem?-some}
use orchestr_os.Base.Word.{u64, sub64, page_size}
use orchestr_os.Base.Run.{ok}
use orchestr_os.BootProto.{Limine, LimineMemmapEntry, memmap_entry, memmap_entry_get}
use orchestr_os.Pmm.Init.{is_usable, last_tracked_from, last_tracked_page}

-- The entry at index `i`, not the first, is the last usable one of the memory map.
pub record LastUsable (l : Limine) (i : ℕ) (e : LimineMemmapEntry) : Type 0 where
  pub positive : 0 < i
  pub at_index : get_elem? l.entries i ≡ some e
  pub usable : is_usable l e ≡ true
  pub last :
      (j : ℕ) (e' : LimineMemmapEntry)
      → i < j
      → get_elem? l.entries j ≡ some e'
      → is_usable l e' ≡ false

-- The end of an entry, as a page number.
abbrev pub end_page : LimineMemmapEntry → ℕ
end_page e = u64 (e.base + e.length) / page_size

module _ {S : Type 0} (l : Limine) (s : S) where
  memmap_entry_get-some :
      (i : ℕ) {e : LimineMemmapEntry}
      → get_elem? l.entries i ≡ some e
      → memmap_entry_get l i s ≡ ok (memmap_entry l e) s
  unfolding memmap_entry_get
  memmap_entry_get-some i h = rw (h, memmap_entry_get)

  last_tracked_from-end :
      (i k : ℕ) (e : LimineMemmapEntry)
      → LastUsable l i e
      → i ≤ k
      → k < length l.entries
      → last_tracked_from l k s ≡ ok (end_page e) s
  unfolding last_tracked_from memmap_entry
  last_tracked_from-end i zero e h le lt = absurd (let p = h.positive in omega arith)
  last_tracked_from-end i (suc k) e h le lt = elim (ℕ_discrete i (suc k)) [
    | yes here ↦
        rw
          (
            memmap_entry_get-some (suc k) (ap (get_elem? l.entries) (sym here) ∙ h.at_index),
            h.usable,
          )
          refl
    | no below ↦
        let (e', at) = get_elem?-some l.entries (suc k) lt in
        rw (memmap_entry_get-some (suc k) at, h.last (suc k) e' (omega arith) at)
          (last_tracked_from-end i k e h (omega arith) (omega arith))
  ]

  -- The last tracked page is the end of the last usable entry, if that is not the first entry.
  pub last_tracked_page-end :
      (i : ℕ) (e : LimineMemmapEntry)
      → LastUsable l i e
      → i < length l.entries
      → length l.entries < 2 ^ 64
      → last_tracked_page l s ≡ ok (end_page e) s
  unfolding last_tracked_page
  last_tracked_page-end i e h lt small =
      last_tracked_from-end i (sub64 (length l.entries) 1) e h (omega arith) (omega arith)

  last_tracked_from-zero :
      (k : ℕ)
      → k < length l.entries
      → ((j : ℕ) (e : LimineMemmapEntry)
          → 0 < j
          → get_elem? l.entries j ≡ some e
          → is_usable l e ≡ false)
      → last_tracked_from l k s ≡ ok 0 s
  unfolding last_tracked_from
  last_tracked_from-zero zero lt none = refl
  last_tracked_from-zero (suc k) lt none =
      let (e, at) = get_elem?-some l.entries (suc k) lt in
      rw (memmap_entry_get-some (suc k) at, none (suc k) e (omega arith) at)
        (last_tracked_from-zero k (omega arith) none)

  -- A usable first entry does not count: where no other entry is usable, no page is tracked.
  pub last_tracked_page-first_only :
      0 < length l.entries
      → length l.entries < 2 ^ 64
      → ((j : ℕ) (e : LimineMemmapEntry)
          → 0 < j
          → get_elem? l.entries j ≡ some e
          → is_usable l e ≡ false)
      → last_tracked_page l s ≡ ok 0 s
  unfolding last_tracked_page
  last_tracked_page-first_only pos small none =
      last_tracked_from-zero (sub64 (length l.entries) 1) (omega arith) none
