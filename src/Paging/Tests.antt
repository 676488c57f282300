-- ===== src/Paging/Tests.antt =====
-- The tables for an address of the higher half.
use orchestr_os.Base.{ℕ, [], ◌||◌, inl, if◌then◌else◌, ◌==◌, ◌≡◌, refl, true, false, arith}
use orchestr_os.Paging.Index.{page_index}
use orchestr_os.Paging.Entry.{
  PageTableEntry, map_entry, unmap_entry, entry_word, Reads, map_entry-Reads,
}
use orchestr_os.Base.Bits.{bit_is_set}
use orchestr_os.BootProto.{Limine}
use orchestr_os.Memory.{Mem}
use orchestr_os.Memory.Words.{load64}
use orchestr_os.Pmm.State.{Pmm, is_used}
use orchestr_os.Pmm.Frames.Laws.{IsPmm}
use orchestr_os.Paging.Walk.{read_entry, word_entry, table_of, entry_at}
use orchestr_os.Paging.Walk.Present.{Walk, Leaf}

abbrev address : ℕ
address = 0xffff_8000_0020_3004

indexes_of_address :
    page_index address ≡ record { page = 3; table = 1; directory = 0; pointer = 256 }
unfolding page_index
indexes_of_address = refl

abbrev entry : PageTableEntry
entry = record {
  present = true;
  read_write = false;
  user_supervisor = true;
  write_through = true;
  cache_disable = false;
  accessed = true;
  avl0 = true;
  page_size = true;
  avl1 = 9;
  addr = 0x77;
  nx = true;
}

-- VMM_PRESENT and VMM_RWX
map_entry-Reads_example :
    Reads true true false false false 0x5000 (entry_word (map_entry 0x5008 7 entry))
    × Reads false false true true true 0 (entry_word (unmap_entry entry))
map_entry-Reads_example = map_entry-Reads 0x5008 7 entry (omega arith) (omega arith)

abbrev limine : Limine
limine = record {
  memmap_types = record {
    usable = 0;
    reserved = 1;
    acpi_reclaimable = 2;
    acpi_nvs = 3;
    bad_memory = 4;
    bootloader_reclaimable = 5;
    kernel_and_modules = 6;
    framebuffer = 7;
  };
  firmware_types = record { x86bios = 0; uefi32 = 1; uefi64 = 2 };
  firmware_type = 0;
  hhdm_offset = 0;
  entries = [];
  kernel_physical_base = 0x8000;
  kernel_virtual_base = 0x8000;
  kernel_size = 4096;
}

-- The tables for the addresses from 0 on lie in pages 0x10 to 0x13; the bitmap, of 8 pages, is in page 1.
abbrev tables : Mem
tables a =
    if a == 0x1000
    then 0xc0
    else if a == 0x10000 || (a == 0x11000 || a == 0x12000)
    then 3
    else if a == 0x10001
    then 0x10
    else if a == 0x11001
    then 0x20
    else if a == 0x12001
    then 0x30
    else if a == 0x10002 || (a == 0x11002 || a == 0x12002)
    then 1
    else 0

abbrev machine : Pmm
machine = record { memory = tables; bitmap = 4096; bitmap_size = 1 }

walk : Walk limine tables 0x10000 (page_index 0x5123) 0x11000 0x12000 0x13000
unfolding read_entry word_entry load64 table_of page_index
walk = record {
  present_1 = refl;
  pdp_lem = refl;
  present_2 = refl;
  pd_lem = refl;
  present_3 = refl;
  last_lem = refl;
}

leaf : Leaf 0x10000 (page_index 0x5123) 0x11000 0x12000 (entry_at 0x13000 (page_index 0x5123).page)
unfolding page_index
leaf = record {
  apart_1 = inl (omega arith);
  apart_2 = inl (omega arith);
  apart_3 = inl (omega arith);
}

machine-IsPmm : IsPmm limine machine
unfolding is_used bit_is_set
machine-IsPmm = record {
  bytes = λ a. ground arith;
  mapped = omega arith;
  page_zero = refl;
  reserved = λ k a h p q. let e : k ≡ 1 = ground (arith, p, q) in rw e;
}

page_four : is_used machine 4 ≡ false
unfolding is_used bit_is_set
page_four = refl
