-- ===== src/Pmm/Init/Place.antt =====
-- The place that `pmm_init` finds for the bitmap.
use orchestr_os.Base.{
  ℕ, ◌+◌, ◌≤◌, ◌≡◌, ◌⊎◌, true, ◌&&◌, List, [], ◌∷◌, arith, leb, Bool-cases, inl, inr,
}
use orchestr_os.Base.Word.{u64}
use orchestr_os.BootProto.{Limine, LimineMemmapEntry, memmap_entry}
use orchestr_os.Pmm.Init.{is_usable, skip_page_zero, find_place}

abbrev pub All : (LimineMemmapEntry → Type 0) → List LimineMemmapEntry → Type 0
All P [] = Unit {0}
All P (e ∷ es) = P e × All P es

abbrev pub Any : (LimineMemmapEntry → Type 0) → List LimineMemmapEntry → Type 0
Any P [] = ⊥
Any P (e ∷ es) = P e ⊎ Any P es

-- The entry is usable, and without page 0 it has room for `size` bytes.
abbrev pub HasRoom : Limine → (size : ℕ) → LimineMemmapEntry → Type 0
HasRoom l size e = (is_usable l e ≡ true) × (size ≤ (skip_page_zero (memmap_entry l e)).length)

-- If an entry has room, the place is the start of one that has, without page 0, in the direct map.
pub find_place-HasRoom :
    (l : Limine) (size : ℕ) (es : List LimineMemmapEntry) (P : LimineMemmapEntry → Type 0)
    (bitmap : ℕ)
    → All P es
    → Any (HasRoom l size) es
    → (e : LimineMemmapEntry) × P e
      × HasRoom l size e
      × (find_place l size es bitmap
          ≡ u64 ((skip_page_zero (memmap_entry l e)).base + l.hhdm_offset))
unfolding find_place
find_place-HasRoom l size [] P bitmap all any = absurd any
find_place-HasRoom l size (e ∷ es) P bitmap all any =
    elim (Bool-cases (is_usable l e && leb size (skip_page_zero (memmap_entry l e)).length)) [
      | inl room ↦ (e, all.0, ground arith, ground arith)
      | inr none ↦
          let later : Any (HasRoom l size) es = elim any [
            | inl h ↦ absurd (ground arith)
            | inr h ↦ h
          ] in
          let (e', p, room, place) = find_place-HasRoom l size es P bitmap all.1 later in
          (e', p, room, ground (arith, place))
    ]
