-- ===== src/Pmm/Tests.antt =====
-- Runs of the page frame allocator on a machine with eight pages, and its theorems at them.
use orchestr_os.Base.{
  ℕ, zero, suc, ◌+◌, ◌*◌, ◌≤◌, ◌<◌, ◌≡◌, ◌≢◌, refl, true, false, some, [], ◌∷◌, arith, ◌==◌,
  if◌then◌else◌, inl, inr, ◌⊎◌,
}
use orchestr_os.Base.Bits.{bit_is_set}
use orchestr_os.Base.Lists.{get_elem?}
use orchestr_os.Base.Run.{ok, halt, Returns, followed_by, out_of_memory, wrong_bitmap_size}
use orchestr_os.Base.Word.{page_size, align_up}
use orchestr_os.BootProto.{Limine, LimineMemmapEntry, memmap_entry, memmap_type}
use orchestr_os.Pmm.State.{Pmm, is_used}
use orchestr_os.Pmm.Find.{find_free_pages}
use orchestr_os.Pmm.Find.FirstFit.{
  AllFree, FirstFit, find_free_pages-FirstFit, find_free_pages-out_of_memory,
}
use orchestr_os.Pmm.Frames.{alloc, free}
use orchestr_os.Pmm.Frames.Laws.{
  IsPmm, Allocated, Freed, ApartFromBitmap, alloc-Allocated, free-Freed,
}
use orchestr_os.Pmm.Frames.Invariant.{alloc-IsPmm, free-IsPmm, free-alloc}
use orchestr_os.Pmm.Init.{init, is_usable, skip_page_zero}
use orchestr_os.Pmm.Init.LastPage.{LastUsable}
use orchestr_os.Pmm.Init.FirstOnly.{init-first_only}
use orchestr_os.Pmm.Init.Ready.{IsMemmap, InitialPages, init-InitialPages}

-- Page 0 is reserved, pages 1 to 7 are usable.
abbrev limine : Limine
limine = record {
  memmap_types = record {
    usable = 0;
    reserved = 1;
    acpi_reclaimable = 2;
    acpi_nvs = 3;
    bad_memory = 4;
    bootloader_reclaimable = 5;
    kernel_and_modules = 6;
    framebuffer = 7;
  };
  firmware_types = record { x86bios = 0; uefi32 = 1; uefi64 = 2 };
  firmware_type = 0;
  hhdm_offset = 0;
  entries =
      record { base = 0; length = 4096; type = 1 }
      ∷ record { base = 4096; length = 28672; type = 0 }
      ∷ [];
  kernel_physical_base = 0x8000;
  kernel_virtual_base = 0x8000;
  kernel_size = 4096;
}

-- The bitmap, one byte, lies in page 1; pages 0, 1 and 3 are used.
abbrev machine : Pmm
machine = record { memory = λ a. if a == 4096 then 0xd0 else 0; bitmap = 4096; bitmap_size = 1 }

machine-IsPmm : IsPmm limine machine
unfolding is_used bit_is_set
machine-IsPmm = record {
  bytes = λ a. ground arith;
  mapped = omega arith;
  page_zero = refl;
  reserved = λ k a h p q. let e : k ≡ 1 = ground arith in rw e;
}

three_free : AllFree machine 4 3
unfolding is_used bit_is_set
three_free k lo hi = at_page k (ground arith)
  where
    at_page : (k : ℕ) → (k ≡ 4) ⊎ ((k ≡ 5) ⊎ (k ≡ 6)) → is_used machine k ≡ false
    at_page k (inl e) = rw e
    at_page k (inr (inl e)) = rw e
    at_page k (inr (inr e)) = rw e

-- The hole at page 2 is too small for three pages.
find_three : find_free_pages 3 machine ≡ ok 4 machine
unfolding find_free_pages bit_is_set
find_three = refl

find_one : find_free_pages 1 machine ≡ ok 2 machine
unfolding find_free_pages bit_is_set
find_one = refl

find_five : find_free_pages 5 machine ≡ halt out_of_memory
unfolding find_free_pages bit_is_set
find_five = refl

find_free_pages-FirstFit_example :
    Returns (λ b s'. FirstFit machine 3 8 b × (s' ≡ machine)) (find_free_pages 3 machine)
find_free_pages-FirstFit_example =
    find_free_pages-FirstFit machine 3 4 (omega arith) (omega arith) three_free

no_eight : (q : ℕ) → q + 8 ≤ 1 * 8 → ¬ AllFree machine q 8
unfolding is_used bit_is_set
no_eight q h all = let u : true ≡ false = all 1 (omega arith) (omega arith) in cc

find_free_pages-out_of_memory_example : find_free_pages 8 machine ≡ halt out_of_memory
find_free_pages-out_of_memory_example =
    find_free_pages-out_of_memory machine 8 (omega arith) no_eight

alloc-Allocated_example : Returns (λ a s'. Allocated machine 3 a s') (alloc 3 machine)
alloc-Allocated_example =
    alloc-Allocated limine machine 3 4 machine-IsPmm (omega arith) (omega arith) three_free

alloc-IsPmm_example : Returns (λ a s'. IsPmm limine s' × (a ≢ 0)) (alloc 3 machine)
alloc-IsPmm_example =
    alloc-IsPmm limine machine 3 machine-IsPmm (omega arith) 4 (omega arith) three_free

three_apart : ApartFromBitmap limine machine 3 1
three_apart a h = ground arith

free-Freed_example :
    Returns (λ r s'. (r ≡ 0) × Freed limine machine 3 1 s') (free limine (3 * page_size) 1 machine)
free-Freed_example =
    free-Freed limine machine 3 1 machine-IsPmm (omega arith) (omega arith) (omega arith)
      three_apart

free-IsPmm_example :
    Returns (λ r s'. (r ≡ 0) × IsPmm limine s') (free limine (3 * page_size) 1 machine)
free-IsPmm_example =
    free-IsPmm limine machine 1 machine-IsPmm (omega arith) 3 (omega arith) (omega arith)
      (omega arith) three_apart

free-alloc_example :
    Returns
      (λ r s'. IsPmm limine s' × ((k : ℕ) → k < 8 → is_used s' k ≡ is_used machine k))
      (followed_by (alloc 3 machine) λ a. free limine a 3)
free-alloc_example =
    free-alloc limine machine 3 4 machine-IsPmm (omega arith) (omega arith) (omega arith) three_free

abbrev usable_entry : LimineMemmapEntry
usable_entry = record { base = 4096; length = 28672; type = 0 }

limine-LastUsable : LastUsable limine 1 usable_entry
unfolding memmap_entry memmap_type
limine-LastUsable = record {
  positive = omega arith;
  at_index = refl;
  usable = refl;
  last = none_later;
}
  where
    none_later :
        (j : ℕ) (e : LimineMemmapEntry)
        → 1 < j
        → get_elem? limine.entries j ≡ some e
        → is_usable limine e ≡ false
    none_later zero e h at = absurd (omega arith)
    none_later (suc zero) e h at = absurd (omega arith)
    none_later (suc (suc j)) e h at = cc

limine-IsMemmap : IsMemmap limine 1 usable_entry
unfolding memmap_entry memmap_type align_up skip_page_zero
limine-IsMemmap = record {
  few = omega arith;
  at_index = omega arith;
  last = limine-LastUsable;
  tracked = omega arith;
  mapped = omega arith;
  whole = (λ u. cc, ((λ u. (refl, refl, omega arith)), tt));
  room = inr (inl (refl, omega arith));
}

-- The state at boot: memory of any content, and no bitmap yet.
abbrev at_boot : Pmm
at_boot = record { memory = λ a. 0x5a; bitmap = 0; bitmap_size = 0 }

init-InitialPages_example :
    Returns (λ r s'. (r ≡ 0) × InitialPages limine s' × IsPmm limine s') (init limine at_boot)
init-InitialPages_example =
    init-InitialPages limine 1 usable_entry limine-IsMemmap at_boot (λ a. omega arith)

-- The machine with its entries the other way round: only the first is usable.
abbrev first_only : Limine
first_only = record limine {
  entries = usable_entry ∷ record { base = 32768; length = 4096; type = 1 } ∷ [];
}

first_only-unusable :
    (j : ℕ) (e : LimineMemmapEntry)
    → 0 < j
    → get_elem? first_only.entries j ≡ some e
    → is_usable first_only e ≡ false
unfolding memmap_entry memmap_type
first_only-unusable zero e h at = absurd (omega arith)
first_only-unusable (suc zero) e h at = ground arith
first_only-unusable (suc (suc j)) e h at = cc

init-first_only_example : init first_only at_boot ≡ halt wrong_bitmap_size
init-first_only_example =
    init-first_only first_only at_boot (omega arith) (omega arith) first_only-unusable
