-- ===== src/BootProto/Tests.antt =====
-- The boot protocol layer at one memory map.
use orchestr_os.Base.{arith, ◌≡◌, refl, [], ◌∷◌}
use orchestr_os.BootProto.{Limine, LimineMemmapTypes, memmap_type, firmware_type}
use orchestr_os.BootProto.Laws.{AreDistinct, known, Translated, memmap_type-Translated}
use orchestr_os.BootProto.MemmapType

abbrev types : LimineMemmapTypes
types = record {
  usable = 0;
  reserved = 1;
  acpi_reclaimable = 2;
  acpi_nvs = 3;
  bad_memory = 4;
  bootloader_reclaimable = 5;
  kernel_and_modules = 6;
  framebuffer = 7;
}

abbrev limine : Limine
limine = record {
  memmap_types = types;
  firmware_types = record { x86bios = 0; uefi32 = 1; uefi64 = 2 };
  firmware_type = 1;
  hhdm_offset = 0;
  entries = record { base = 4096; length = 8192; type = 4 } ∷ [];
  kernel_physical_base = 0x8000;
  kernel_virtual_base = 0x8000;
  kernel_size = 4096;
}

types-AreDistinct : AreDistinct (known types)
types-AreDistinct = (
  (
    (λ e. omega (arith, e)),
    (
      (λ e. omega (arith, e)),
      (
        (λ e. omega (arith, e)),
        (
          (λ e. omega (arith, e)),
          ((λ e. omega (arith, e)), ((λ e. omega (arith, e)), ((λ e. omega (arith, e)), tt))),
        ),
      ),
    ),
  ),
  (
    (
      (λ e. omega (arith, e)),
      (
        (λ e. omega (arith, e)),
        (
          (λ e. omega (arith, e)),
          ((λ e. omega (arith, e)), ((λ e. omega (arith, e)), ((λ e. omega (arith, e)), tt))),
        ),
      ),
    ),
    (
      (
        (λ e. omega (arith, e)),
        (
          (λ e. omega (arith, e)),
          ((λ e. omega (arith, e)), ((λ e. omega (arith, e)), ((λ e. omega (arith, e)), tt))),
        ),
      ),
      (
        (
          (λ e. omega (arith, e)),
          ((λ e. omega (arith, e)), ((λ e. omega (arith, e)), ((λ e. omega (arith, e)), tt))),
        ),
        (
          ((λ e. omega (arith, e)), ((λ e. omega (arith, e)), ((λ e. omega (arith, e)), tt))),
          (
            ((λ e. omega (arith, e)), ((λ e. omega (arith, e)), tt)),
            (((λ e. omega (arith, e)), tt), (tt, tt)),
          ),
        ),
      ),
    ),
  ),
)

bad_memory_type : memmap_type types 4 ≡ MemmapType.bad_memory
unfolding memmap_type
bad_memory_type = refl

firmware_is_uefi32 : firmware_type limine ≡ 2
unfolding firmware_type
firmware_is_uefi32 = refl

memmap_type-Translated_example : Translated types 4 (memmap_type types 4)
memmap_type-Translated_example = memmap_type-Translated types 4 types-AreDistinct
