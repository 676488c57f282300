-- ===== src/Pmm/Find.antt =====
-- `pmm_find_free_pages` of symphony/mm/pmm.c: the first run of free pages, by a scan over the bytes
-- of the bitmap and the bits of each byte. Page counts, `int` in the source, are below 2^31.
pub mod FirstFit
use orchestr_os.Base.{ℕ, zero, suc, ◌+◌, ◌*◌, Bool, true, false, ◌==◌, if◌then◌else◌}
use orchestr_os.Base.Bits.{bit_is_set}
use orchestr_os.Base.Run.{Cmd, pure, panic, out_of_memory}
use orchestr_os.Pmm.State.{Pmm}

-- A search goes on with its variables, or has returned.
pub data Search : Type 0 where
  found : ℕ → Search
  searching : (in_chunk : Bool) (pages_found base_page : ℕ) → Search

-- One round of the inner loop, at the page that bit `j` of byte `i` stands for.
find_step : ℕ → Pmm → (i j : ℕ) → (in_chunk : Bool) (pages_found base_page : ℕ) → Search
find_step pages s i j in_chunk pages_found base_page =
    if bit_is_set (s.memory (s.bitmap + i)) j
    then searching false 0 base_page
    else let base = if in_chunk then base_page else i * 8 + j in
      if (pages_found + 1) == pages then found base else searching true (pages_found + 1) base

-- `for (uint8_t j = 0; j < 8; j++)`
find_in_byte : ℕ → Pmm → ℕ → (left j : ℕ) → Search → Search
find_in_byte pages s i left j (found b) = found b
find_in_byte pages s i zero j (searching c n b) = searching c n b
find_in_byte pages s i (suc left) j (searching c n b) =
    find_in_byte pages s i left (j + 1) (find_step pages s i j c n b)

-- `for (size_t i = 0; i < bitmapSize; i++)`
find_in_bytes : ℕ → Pmm → (left i : ℕ) → Search → Search
find_in_bytes pages s left i (found b) = found b
find_in_bytes pages s zero i (searching c n b) = searching c n b
find_in_bytes pages s (suc left) i (searching c n b) =
    find_in_bytes pages s left (i + 1) (find_in_byte pages s i 8 0 (searching c n b))

-- What the scan ends with.
conclude : Search → Cmd Pmm ℕ
conclude (found b) = pure b
conclude (searching c n b) = panic out_of_memory

unfoldable pub find_free_pages : ℕ → Cmd Pmm ℕ
unfolding find_step find_in_byte find_in_bytes conclude
find_free_pages pages s = conclude (find_in_bytes pages s s.bitmap_size 0 (searching false 0 0)) s
