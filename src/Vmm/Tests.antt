-- ===== src/Vmm/Tests.antt =====
-- Two and a half pages, mapped as three; and the page tables of a machine with 8 pages.
use orchestr_os.Base.{
  ℕ, ◌+◌, ◌*◌, ◌/◌, ◌^◌, ◌<◌, ◌≤◌, ◌≡◌, refl, some, [], ◌∷◌, ◌==◌, if◌then◌else◌, arith,
}
use orchestr_os.Base.Bits.{bit_is_set}
use orchestr_os.Base.Word.{u64, page_size, align_up}
use orchestr_os.Memory.{Mem}
use orchestr_os.BootProto.{Limine, memmap_entry}
use orchestr_os.Pmm.State.{Pmm, is_used}
use orchestr_os.Pmm.Frames.Laws.{IsPmm}
use orchestr_os.Pmm.Init.{skip_page_zero}
use orchestr_os.Pmm.Room.{Ends, Spent}
use orchestr_os.Vmm.{map_call}
use orchestr_os.Vmm.Init.{Vmm, vmm_init}
use orchestr_os.Vmm.Init.Mapped.{
  pages_of, InFuel, AllInFuel, MappedBy, IsVmm, TooFew, tables_needed, vmm_init-IsVmm,
}
use orchestr_os.Vmm.Pages.{vmm_init-kernel}

three_pages : align_up 0x2800 page_size / page_size ≡ 3
unfolding align_up
three_pages = refl

the_second_page :
    map_call 0x1000 0xffff_8000_0000_1000 page_size
    ≡ record { phys_addr = 0x2000; virt_addr = 0xffff_8000_0000_2000 }
the_second_page = refl

abbrev limine : Limine
limine = record {
  memmap_types = record {
    usable = 0;
    reserved = 1;
    acpi_reclaimable = 2;
    acpi_nvs = 3;
    bad_memory = 4;
    bootloader_reclaimable = 5;
    kernel_and_modules = 6;
    framebuffer = 7;
  };
  firmware_types = record { x86bios = 0; uefi32 = 1; uefi64 = 2 };
  firmware_type = 0;
  hhdm_offset = 0;
  entries = record { base = 0x3000; length = 0x1000; type = 0 } ∷ [];
  kernel_physical_base = 0x8000;
  kernel_virtual_base = 0xffff_ffff_8000_0000;
  kernel_size = 4096;
}

-- The bitmap, of 8 pages, lies in page 1, and an empty table in page 2; the pages from 3 on are free.
abbrev bytes : Mem
bytes a = if a == 0x1000 then 0xe0 else 0

abbrev machine : Pmm
machine = record { memory = bytes; bitmap = 4096; bitmap_size = 1 }

machine-IsPmm : IsPmm limine machine
unfolding is_used bit_is_set
machine-IsPmm = record {
  bytes = λ a. ground arith;
  mapped = omega arith;
  page_zero = refl;
  reserved = λ k a h p q. let e : k ≡ 1 = ground (arith, p, q) in rw e;
}

abbrev vmm : Vmm
vmm = record { pmm = machine; kernel_pt = 0; cr3 = 0 }

fuel_for_entries : AllInFuel 4 limine limine.entries
unfolding align_up skip_page_zero memmap_entry
fuel_for_entries = omega arith

fuel_for_kernel : InFuel 4 limine.kernel_size
unfolding align_up
fuel_for_kernel = omega arith

few_pages : pages_of limine.kernel_size ≤ 2 ^ 36
unfolding align_up
few_pages = omega arith

vmm_init-IsVmm_example :
    Ends
      (TooFew limine machine 0)
      (λ r s'. (r ≡ 0) × IsVmm limine s' × Spent machine (tables_needed limine) s'.pmm)
      (vmm_init 4 limine vmm)
vmm_init-IsVmm_example =
    vmm_init-IsVmm 4 limine vmm 0 machine-IsPmm (omega arith) (omega arith) fuel_for_entries
      fuel_for_kernel

vmm_init-kernel_example :
    Ends
      (TooFew limine machine 0)
      (λ _ s'.
        (j : ℕ)
        → j < pages_of limine.kernel_size
        → MappedBy limine s'.pmm s'.kernel_pt (u64 (limine.kernel_virtual_base + page_size * j)) (
            some (map_call limine.kernel_physical_base limine.kernel_virtual_base (page_size * j))))
      (vmm_init 4 limine vmm)
vmm_init-kernel_example =
    vmm_init-kernel 4 limine vmm machine-IsPmm (omega arith) (omega arith) fuel_for_entries
      fuel_for_kernel few_pages
