-- ===== src/BootProto/MemmapType.antt =====
-- BOOT_PROTO_MEMMAP_* of include/symphony/boot_proto.h.
use orchestr_os.Base.{ℕ}

abbrev pub unknown : ℕ
unknown = 0

abbrev pub usable : ℕ
usable = 1

abbrev pub reserved : ℕ
reserved = 2

abbrev pub acpi_reclaimable : ℕ
acpi_reclaimable = 3

abbrev pub acpi_nvs : ℕ
acpi_nvs = 4

abbrev pub bad_memory : ℕ
bad_memory = 5

abbrev pub bootloader_reclaimable : ℕ
bootloader_reclaimable = 6

abbrev pub kernel_and_modules : ℕ
kernel_and_modules = 7

abbrev pub framebuffer : ℕ
framebuffer = 8
