-- ===== src/BootProto/Names.antt =====
-- `boot_proto_memmap_type_to_str` of symphony/boot_proto.c.
use orchestr_os.Base.{ℕ, ◌<◌, ◌≡◌, ap, sym, ◌∙◌, List, ◌==◌, ltb, if◌then◌else◌, arith}
use orchestr_os.Base.Lists.{length, get_or}
use orchestr_os.Base.Text.{codes}
use orchestr_os.BootProto.MemmapType

unfoldable pub memmap_type_to_str : (type : ℕ) → List ℕ
memmap_type_to_str type =
    if type == MemmapType.unknown
    then codes "Unknown"
    else if type == MemmapType.usable
    then codes "Usable"
    else if type == MemmapType.reserved
    then codes "Reserved"
    else if type == MemmapType.acpi_reclaimable
    then codes "ACPI Reclaimable"
    else if type == MemmapType.acpi_nvs
    then codes "ACPI NVS"
    else if type == MemmapType.bad_memory
    then codes "Bad Memory"
    else if type == MemmapType.bootloader_reclaimable
    then codes "Bootloader Reclaimable"
    else if type == MemmapType.kernel_and_modules
    then codes "Kernel and Modules"
    else if type == MemmapType.framebuffer
    then codes "Framebuffer"
    else codes "Undefined Type"

-- The type that a name stands for, by the name's length, and by the first letter of the two names
-- of eight letters; 9 for any other.
type_of_name : List ℕ → ℕ
type_of_name s =
    let n = length s in
    if n == 7
    then 0
    else if n == 6
    then 1
    else if n == 8
    then (if get_or s 0 0 == b'R' then 2 else 4)
    else if n == 16
    then 3
    else if n == 10
    then 5
    else if n == 22
    then 6
    else if n == 18
    then 7
    else if n == 11
    then 8
    else 9

type_of_name-memmap_type_to_str :
    (t : ℕ) → type_of_name (memmap_type_to_str t) ≡ (if ltb t 9 then t else 9)
unfolding type_of_name memmap_type_to_str
type_of_name-memmap_type_to_str t = ground arith

-- The names in the log tell the types apart: the nine types have nine names, and none of them is
-- the name that every other number has.
pub memmap_type_to_str-injective :
    (t u : ℕ) → t < 9 → memmap_type_to_str t ≡ memmap_type_to_str u → t ≡ u
memmap_type_to_str-injective t u h e =
    let same : (if ltb t 9 then t else 9) ≡ (if ltb u 9 then u else 9) =
      sym (type_of_name-memmap_type_to_str t)
      ∙ ap type_of_name e
      ∙ type_of_name-memmap_type_to_str u in
    ground arith
