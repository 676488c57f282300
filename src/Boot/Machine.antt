-- ===== src/Boot/Machine.antt =====
-- A machine with 64 pages, and the kernel as it was loaded: the tests of symphony/kernel.c start on it.
use orchestr_os.Serial.Laws.{EmptiesWithin}
use orchestr_os.Base.{
  ◌==◌, if◌then◌else◌, ℕ, zero, suc, ◌+◌, ◌*◌, ◌%◌, ◌<◌, ◌≡◌, refl, some, inl, inr, true, false, [],
  ◌∷◌, arith,
}
use orchestr_os.Base.Lists.{get_elem?}
use orchestr_os.Base.Word.{align_up}
use orchestr_os.BootProto.{Limine, LimineMemmapEntry, memmap_entry, memmap_type}
use orchestr_os.Pmm.Init.{is_usable, skip_page_zero}
use orchestr_os.Pmm.Init.LastPage.{LastUsable}
use orchestr_os.Pmm.Init.Ready.{IsMemmap}
use orchestr_os.Vmm.Init.Mapped.{InFuel, AllInFuel}
use orchestr_os.X86.Gdt.{GdtEntry, GdtSystemEntry, Tables}
use orchestr_os.X86.Idt.{Interrupts}
use orchestr_os.Boot.{Platform, Kernel}
use orchestr_os.Boot.Memory.{IsPlatform}
use orchestr_os.Boot.Started.{IsLoaded}

abbrev no_entry : GdtEntry
no_entry = record { limit0 = 0; base0 = 0; base1 = 0; access = 0; limit1 = 0; flags = 0; base2 = 0 }

abbrev no_system_entry : GdtSystemEntry
no_system_entry = record {
  limit0 = 0;
  base0 = 0;
  base1 = 0;
  access = 0;
  limit1 = 0;
  flags = 0;
  base2 = 0;
  base3 = 0;
  reserved = 0;
}

-- The statics before the boot: all zeroes.
abbrev zero_tables : Tables
zero_tables = record {
  gdt =
      record {
        null = no_entry;
        kernel_code = no_entry;
        kernel_data = no_entry;
        user_code = no_entry;
        user_data = no_entry;
        tss = no_system_entry;
      }
      ∷ [];
  tss =
      record {
        reserved0 = 0;
        rsp = 0 ∷ 0 ∷ 0 ∷ [];
        reserved1 = 0;
        ist = 0 ∷ 0 ∷ 0 ∷ 0 ∷ 0 ∷ 0 ∷ 0 ∷ [];
        reserved2 = 0;
        reserved3 = 0;
        iomap_base = 0;
      }
      ∷ [];
  gdtr = record { size = 0; offset = 0 } ∷ [];
}

abbrev no_gates : Interrupts
no_gates = record {
  idtr = record { size = 0; offset = 0 };
  idt = λ i. record {
    offset0 = 0;
    seg = 0;
    ist = 0;
    pdpl_gate_type = 0;
    offset1 = 0;
    offset2 = 0;
    reserved = 0;
  };
}

-- Page 0 is reserved, pages 1 to 63 are usable.
abbrev pub usable_entry : LimineMemmapEntry
usable_entry = record { base = 4096; length = 258048; type = 0 }

abbrev pub limine : Limine
limine = record {
  memmap_types = record {
    usable = 0;
    reserved = 1;
    acpi_reclaimable = 2;
    acpi_nvs = 3;
    bad_memory = 4;
    bootloader_reclaimable = 5;
    kernel_and_modules = 6;
    framebuffer = 7;
  };
  firmware_types = record { x86bios = 0; uefi32 = 1; uefi64 = 2 };
  firmware_type = 2;
  hhdm_offset = 0xffff_8000_0000_0000;
  entries = record { base = 0; length = 4096; type = 1 } ∷ usable_entry ∷ [];
  kernel_physical_base = 0x40000;
  kernel_virtual_base = 0xffff_ffff_8000_0000;
  kernel_size = 4096;
}

limine-LastUsable : LastUsable limine 1 usable_entry
unfolding memmap_entry memmap_type
limine-LastUsable = record {
  positive = omega arith;
  at_index = refl;
  usable = refl;
  last = none_later;
}
  where
    none_later :
        (j : ℕ) (e : LimineMemmapEntry)
        → 1 < j
        → get_elem? limine.entries j ≡ some e
        → is_usable limine e ≡ false
    none_later zero e h at = absurd (omega arith)
    none_later (suc zero) e h at = absurd (omega arith)
    none_later (suc (suc j)) e h at = cc

limine-IsMemmap : IsMemmap limine 1 usable_entry
unfolding memmap_entry memmap_type align_up skip_page_zero
limine-IsMemmap = record {
  few = omega arith;
  at_index = omega arith;
  last = limine-LastUsable;
  tracked = omega arith;
  mapped = omega arith;
  whole = (λ u. cc, ((λ u. (refl, refl, omega arith)), tt));
  room = inr (inl (refl, omega arith));
}

abbrev pub platform : Platform
platform = record {
  limine = limine;
  base_revision_supported = true;
  bootloader_name = 0xffff_8000_0001_0000;
  bootloader_version = 0xffff_8000_0001_0010;
  string_at = λ a. [];
  type_name = λ type. 0xffff_ffff_8000_0100;
  gdt_address = 0xffff_ffff_8000_1000;
  tss_address = 0xffff_ffff_8000_2040;
  idt_address = 0xffff_ffff_8000_4000;
  isr = λ n. 0xffff_ffff_8000_3000 + n % 32 * 16;
  fuel = 64;
  poll_fuel = 2;
}

fuel_for_entries : AllInFuel platform.fuel limine limine.entries
unfolding align_up skip_page_zero memmap_entry
fuel_for_entries = ((omega arith, omega arith), ((omega arith, omega arith), tt))

fuel_for_kernel : InFuel platform.fuel limine.kernel_size
unfolding align_up
fuel_for_kernel = omega arith

pub platform-IsPlatform : IsPlatform platform 1 usable_entry
platform-IsPlatform = record {
  memmap = limine-IsMemmap;
  physical = omega arith;
  entries = fuel_for_entries;
  kernel = fuel_for_kernel;
  idt = omega arith;
  stubs = λ n. omega arith;
  supported = refl;
}

-- The transmitter is busy at every other read.
abbrev every_other : ℕ → ℕ
every_other i = if i % 2 == 0 then 0x40 else 0x60

device : EmptiesWithin 2 every_other
device i = (if i % 2 == 0 then i + 1 else i, ground arith, ground arith, ground arith)

-- The kernel as it was loaded, with memory of any content.
abbrev pub loaded : Kernel
loaded = record {
  tables = zero_tables;
  interrupts = no_gates;
  ports = record { line_status = every_other; reads = 0; written = [] };
  kheap = record {
    pmm = record { memory = λ a. 0x5a; bitmap = 0; bitmap_size = 0 };
    block_list_start = 0;
    block_list_end = 0;
    kheap_size = 0;
    kheap_size_usable = 0;
  };
  kernel_pt = 0;
  cr3 = 0;
}

pub loaded-IsLoaded : IsLoaded platform loaded
loaded-IsLoaded = record {
  bytes = λ a. omega arith;
  gdt = omega arith;
  gdtr = omega arith;
  device = device;
}
