-- ===== src/BootProto/Firmware.antt =====
-- BOOT_PROTO_FW_* of include/symphony/boot_proto.h.
use orchestr_os.Base.{ℕ}

abbrev pub unknown : ℕ
unknown = 0

abbrev pub x86bios : ℕ
x86bios = 1

abbrev pub uefi32 : ℕ
uefi32 = 2

abbrev pub uefi64 : ℕ
uefi64 = 3
