-- ===== src/Paging/Tables/Tests.antt =====
-- Empty page tables in a machine with 8 pages.
use orchestr_os.Base.{ℕ, ◌<◌, ◌≡◌, refl, ◌∙◌, ap, false, [], ◌==◌, if◌then◌else◌, arith}
use orchestr_os.Base.Bits.{bit_is_set}
use orchestr_os.Base.Run.{Returns}
use orchestr_os.Memory.{Mem}
use orchestr_os.Memory.Words.{load64}
use orchestr_os.BootProto.{Limine}
use orchestr_os.Pmm.State.{Pmm, is_used}
use orchestr_os.Pmm.Frames.Laws.{IsPmm}
use orchestr_os.Pmm.Room.{HasFree, Spent, Ends, Ends-Returns}
use orchestr_os.Paging.Index.{Indexes, page_index}
use orchestr_os.Paging.Entry.{Opens, PageTableEntry, map_entry, unmap_entry}
use orchestr_os.Paging.Walk.{read_entry, word_entry, entry_at, new_pt, vmm_map, vmm_unmap}
use orchestr_os.Paging.Tables.{IsTable, IsPaging, Maps}
use orchestr_os.Paging.Tables.Frame.{read-same}
use orchestr_os.Paging.Tables.Empty.{empty-IsPaging, new_pt-IsPaging}
use orchestr_os.Paging.Tables.Map.{three_missing, Updates, vmm_map-Updates, vmm_unmap-unmaps}

abbrev limine : Limine
limine = record {
  memmap_types = record {
    usable = 0;
    reserved = 1;
    acpi_reclaimable = 2;
    acpi_nvs = 3;
    bad_memory = 4;
    bootloader_reclaimable = 5;
    kernel_and_modules = 6;
    framebuffer = 7;
  };
  firmware_types = record { x86bios = 0; uefi32 = 1; uefi64 = 2 };
  firmware_type = 0;
  hhdm_offset = 0;
  entries = [];
  kernel_physical_base = 0x8000;
  kernel_virtual_base = 0x8000;
  kernel_size = 4096;
}

-- The bitmap, of 8 pages, lies in page 1, and an empty table in page 2; the pages from 3 on are free.
abbrev bytes : Mem
bytes a = if a == 0x1000 then 0xe0 else 0

abbrev machine : Pmm
machine = record { memory = bytes; bitmap = 4096; bitmap_size = 1 }

machine-IsPmm : IsPmm limine machine
unfolding is_used bit_is_set
machine-IsPmm = record {
  bytes = λ a. ground arith;
  mapped = omega arith;
  page_zero = refl;
  reserved = λ k a h p q. let e : k ≡ 1 = ground (arith, p, q) in rw e;
}

zero_entry : (at : ℕ) → (read_entry (λ _. 0) at).present ≡ false
unfolding read_entry word_entry load64
zero_entry at = refl

absent : (i : ℕ) → i < 512 → (read_entry bytes (entry_at 0x2000 i)).present ≡ false
absent i lt =
    ap (λ (e : PageTableEntry). e.present)
      (read-same (λ _. 0) bytes (entry_at 0x2000 i) (λ a lo hi. ground arith))
    ∙ zero_entry (entry_at 0x2000 i)

zero-Opens : (at : ℕ) → Opens (read_entry (λ _. 0) at)
unfolding read_entry word_entry load64
zero-Opens at = record { large = refl; executable = refl; writable = λ h. cc h; user = λ h. cc h }

opens : (i : ℕ) → i < 512 → Opens (read_entry bytes (entry_at 0x2000 i))
opens i lt =
    rw (read-same (λ _. 0) bytes (entry_at 0x2000 i) (λ a lo hi. ground arith))
      (zero-Opens (entry_at 0x2000 i))

root-IsTable : IsTable limine machine 0x2000
unfolding is_used bit_is_set
root-IsTable = record {
  page = 2;
  address = refl;
  tracked = omega arith;
  used = refl;
  apart = λ a h. ground (arith, h);
}

machine-IsPaging : IsPaging limine machine 0x2000
machine-IsPaging =
    empty-IsPaging limine machine 0x2000 machine-IsPmm (omega arith) (omega arith) root-IsTable
      absent opens

vmm_map-Updates_example :
    Ends
      (¬ HasFree machine 0 0 3)
      (λ _ s'. Updates limine machine 0x2000 (page_index 0x5123) 3 (map_entry 0x7000 7) s')
      (vmm_map limine 0x2000 0x7000 0x5123 7 machine)
vmm_map-Updates_example =
    vmm_map-Updates limine machine 0x2000 0x7000 0x5123 7 0 1 1 1 machine-IsPaging
      (three_missing limine machine.memory 0x2000 (page_index 0x5123))

vmm_unmap-unmaps_example :
    Ends
      (¬ HasFree machine 0 0 3)
      (λ _ s'.
        Updates limine machine 0x2000 (page_index 0x5123) 3 unmap_entry s'
        × ((e : PageTableEntry) → ¬ Maps limine s'.memory 0x2000 (page_index 0x5123) e))
      (vmm_unmap limine 0x2000 0x5123 machine)
vmm_unmap-unmaps_example = vmm_unmap-unmaps limine machine 0x2000 0x5123 machine-IsPaging

new_pt-IsPaging_example :
    Ends
      (¬ HasFree machine 0 0 1)
      (λ root t.
        IsPaging limine t root
        × ((i : Indexes) (e : PageTableEntry) → ¬ Maps limine t.memory root i e)
        × Spent machine 1 t)
      (new_pt limine machine)
new_pt-IsPaging_example = new_pt-IsPaging limine machine machine-IsPmm (omega arith) (omega arith)

-- Three pages are free: neither run ends for want of memory.
three_pages : HasFree machine 0 0 3
unfolding is_used bit_is_set
three_pages = (
  3,
  omega arith,
  omega arith,
  refl,
  (
    4,
    omega arith,
    omega arith,
    refl,
    (
      5,
      omega arith,
      omega arith,
      refl,
      (6, omega arith, omega arith, λ k a b. absurd (omega (arith, a, b))),
    ),
  ),
)

enough_pages :
    Returns
      (λ _ s'. Updates limine machine 0x2000 (page_index 0x5123) 3 (map_entry 0x7000 7) s')
      (vmm_map limine 0x2000 0x7000 0x5123 7 machine)
enough_pages =
    Ends-Returns
      (vmm_map-Updates limine machine 0x2000 0x7000 0x5123 7 0 1 1 1 machine-IsPaging
        (three_missing limine machine.memory 0x2000 (page_index 0x5123)))
      (λ few. few three_pages)
