-- ===== src/Pmm/Init/FirstOnly.antt =====
-- `pmm_init` where only the first entry of the memory map is usable.
use orchestr_os.Base.{ℕ, ◌^◌, ◌<◌, ◌≡◌, refl, false, some}
use orchestr_os.Base.Lists.{length, get_elem?}
use orchestr_os.Base.Run.{halt, wrong_bitmap_size}
use orchestr_os.Base.Word.{align_up}
use orchestr_os.BootProto.{Limine, LimineMemmapEntry}
use orchestr_os.Pmm.State.{Pmm}
use orchestr_os.Pmm.Init.{is_usable, place_bitmap, init}
use orchestr_os.Pmm.Init.LastPage.{last_tracked_page-first_only}

-- Where no entry but the first is usable, `pmm_init` fails its assertion on the bitmap size, however
-- large the first entry is: the search for the last usable entry stops before index 0.
pub init-first_only :
    (l : Limine) (s : Pmm)
    → 0 < length l.entries
    → length l.entries < 2 ^ 64
    → ((j : ℕ) (e : LimineMemmapEntry)
        → 0 < j
        → get_elem? l.entries j ≡ some e
        → is_usable l e ≡ false)
    → init l s ≡ halt wrong_bitmap_size
unfolding init place_bitmap align_up
init-first_only l s pos small none = rw (last_tracked_page-first_only l s pos small none) refl
