-- ===== src/BootProto.antt =====
-- The boot protocol layer: symphony/boot_proto.c and include/symphony/boot_proto.h.
-- What the bootloader answers and the constants of limine.h, which is no part of the repository,
-- are the fields of a parameter.
mod Tests
pub mod Laws
pub mod Firmware
pub mod MemmapType
pub mod Names
use orchestr_os.Base.{ℕ, List, none, some, ◌==◌, if◌then◌else◌}
use orchestr_os.Base.Lists.{length, get_elem?}
use orchestr_os.Base.Run.{Cmd, pure, panic, memmap_index_too_large}

-- LIMINE_MEMMAP_* of limine.h.
pub record LimineMemmapTypes : Type 0 where
  pub usable : ℕ
  pub reserved : ℕ
  pub acpi_reclaimable : ℕ
  pub acpi_nvs : ℕ
  pub bad_memory : ℕ
  pub bootloader_reclaimable : ℕ
  pub kernel_and_modules : ℕ
  pub framebuffer : ℕ

-- LIMINE_FIRMWARE_TYPE_* of limine.h.
pub record LimineFirmwareTypes : Type 0 where
  pub x86bios : ℕ
  pub uefi32 : ℕ
  pub uefi64 : ℕ

-- struct limine_memmap_entry of limine.h.
pub record LimineMemmapEntry : Type 0 where
  pub base : ℕ
  pub length : ℕ
  pub type : ℕ

-- The constants and the responses to the requests.
pub record Limine : Type 0 where
  pub memmap_types : LimineMemmapTypes
  pub firmware_types : LimineFirmwareTypes
  pub firmware_type : ℕ
  pub hhdm_offset : ℕ
  pub entries : List LimineMemmapEntry
  pub kernel_physical_base : ℕ
  pub kernel_virtual_base : ℕ
  pub kernel_size : ℕ

pub record MemmapEntry : Type 0 where
  pub base : ℕ
  pub length : ℕ
  pub type : ℕ

unfoldable pub firmware_type : Limine → ℕ
firmware_type l =
    let t = l.firmware_types in
    if l.firmware_type == t.x86bios
    then Firmware.x86bios
    else if l.firmware_type == t.uefi32
    then Firmware.uefi32
    else if l.firmware_type == t.uefi64
    then Firmware.uefi64
    else Firmware.uefi64

-- The switch of `boot_proto_memmap_entry_get`.
unfoldable pub memmap_type : LimineMemmapTypes → ℕ → ℕ
memmap_type t type =
    if type == t.usable
    then MemmapType.usable
    else if type == t.reserved
    then MemmapType.reserved
    else if type == t.acpi_reclaimable
    then MemmapType.acpi_reclaimable
    else if type == t.acpi_nvs
    then MemmapType.acpi_nvs
    else if type == t.bad_memory
    then MemmapType.bad_memory
    else if type == t.bootloader_reclaimable
    then MemmapType.bootloader_reclaimable
    else if type == t.kernel_and_modules
    then MemmapType.kernel_and_modules
    else if type == t.framebuffer
    then MemmapType.framebuffer
    else MemmapType.unknown

abbrev pub memmap_entry_count : Limine → ℕ
memmap_entry_count l = length l.entries

-- The entry that the bootloader gives, in the kernel's types.
unfoldable pub memmap_entry : Limine → LimineMemmapEntry → MemmapEntry
unfolding memmap_type
memmap_entry l e = record {
  base = e.base;
  length = e.length;
  type = memmap_type l.memmap_types e.type;
}

unfoldable pub memmap_entry_get : {S : Type 0} → Limine → ℕ → Cmd S MemmapEntry
memmap_entry_get l i = elim (get_elem? l.entries i) [
  | none ↦ panic memmap_index_too_large
  | some e ↦ pure (memmap_entry l e)
]
