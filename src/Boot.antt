-- ===== src/Boot.antt =====
-- The boot sequence of symphony/kernel.c and symphony/arch/x86_64/init.c: `_start` sets the components
-- up one after the other. Printing polls the serial device and writes ports; a run that ends in
-- `arch_halt` returns, and one that panics does not, so what the panic prints is left out.
pub mod Print
pub mod Rest
pub mod Memory
pub mod Started
mod Machine
mod Tests
use orchestr_os.Base.{
  ℕ, ◌+◌, Bool, true, false, not, Option, none, some, List, [], ◌∷◌, ◌++◌, ◌==◌, if◌then◌else◌,
}
use orchestr_os.Base.Lists.{get_or}
use orchestr_os.Base.Text.{codes}
use orchestr_os.Base.Word.{u64}
use orchestr_os.Base.Run.{
  Panic, Run, ok, halt, Cmd, followed_by, out_of_fuel, out_of_bounds, bootloader_not_supported,
  pmm_init_failed, arch_init_failed, vmm_init_failed, kheap_init_failed,
}
use orchestr_os.BootProto.{Limine, LimineMemmapEntry, memmap_entry, firmware_type}
use orchestr_os.BootProto.Firmware
use orchestr_os.Debug.Integer.{Printed}
use orchestr_os.Debug.Log.{print, printf, log}
use orchestr_os.Pmm.State.{Pmm}
use orchestr_os.Pmm.Init.{init}
use orchestr_os.X86.Gdt.{Tables, load_gdt}
use orchestr_os.X86.Idt.{Interrupts, interrupt_init}
use orchestr_os.Serial.{Ports, serial_init, print_text}
use orchestr_os.Vmm.Init.{Vmm, vmm_init}
use orchestr_os.KHeap.{KHeap, kheap_init}

-- What the code finds at boot: the bootloader's answers, the addresses that the linker gives, and the
-- strings in memory. `type_name` is the address of the string that boot_proto_memmap_type_to_str
-- returns, `fuel` bounds the pages of a range that is mapped, and `poll_fuel` the
-- reads of the line status for one byte.
pub record Platform : Type 0 where
  pub limine : Limine
  pub base_revision_supported : Bool
  pub bootloader_name : ℕ
  pub bootloader_version : ℕ
  pub string_at : ℕ → List ℕ
  pub type_name : ℕ → ℕ
  pub gdt_address : ℕ
  pub tss_address : ℕ
  pub idt_address : ℕ
  pub isr : ℕ → ℕ
  pub fuel : ℕ
  pub poll_fuel : ℕ

-- The statics of the components, and the ports.
pub record Kernel : Type 0 where
  pub tables : Tables
  pub interrupts : Interrupts
  pub ports : Ports
  pub kheap : KHeap
  pub kernel_pt : ℕ
  pub cr3 : ℕ

-- boot_proto_bl_supported, boot_proto_bl_name and boot_proto_bl_version
abbrev pub bl_supported : Platform → Bool
bl_supported p = if not p.base_revision_supported then false else true

abbrev pub bl_name : Platform → ℕ
bl_name p = p.bootloader_name

abbrev pub bl_version : Platform → ℕ
bl_version p = p.bootloader_version

abbrev pub loglevel_trace : ℕ
loglevel_trace = 1

abbrev pub loglevel_info : ℕ
loglevel_info = 3

-- Arguments of a format string, in 64-bit slots.
abbrev pub args_of : List ℕ → ℕ → ℕ
args_of xs i = u64 (get_or xs i 0)

unfoldable pub set_ports : Option Ports → Cmd Kernel (Unit {0})
set_ports none k = halt out_of_fuel
set_ports (some q) k = ok tt (record k { ports = q })

-- The characters go through `debug_putchar` to the ports.
unfoldable pub say : Platform → Option Printed → Cmd Kernel (Unit {0})
say p none k = halt out_of_fuel
say p (some q) k = set_ports (print_text p.poll_fuel q.text k.ports) k

unfoldable pub log_at : Platform → (level : ℕ) → (fmt args : List ℕ) → Cmd Kernel (Unit {0})
log_at p level fmt args = say p (log p.string_at level fmt (args_of args))

abbrev pub log_info : Platform → (fmt args : List ℕ) → Cmd Kernel (Unit {0})
log_info p = log_at p loglevel_info

-- A component's run on its part of the state.
unfoldable pub on_pmm : {A : Type 0} → Kernel → Run Pmm A → Run Kernel A
on_pmm k (ok a s) = ok a (record k { kheap = record k.kheap { pmm = s } })
on_pmm k (halt e) = halt e

unfoldable pub on_vmm : {A : Type 0} → Kernel → Run Vmm A → Run Kernel A
on_vmm k (ok a s) =
    ok a (record k { kheap = record k.kheap { pmm = s.pmm }; kernel_pt = s.kernel_pt; cr3 = s.cr3 })
on_vmm k (halt e) = halt e

unfoldable pub on_kheap : {A : Type 0} → Kernel → Run KHeap A → Run Kernel A
on_kheap k (ok a s) = ok a (record k { kheap = s })
on_kheap k (halt e) = halt e

-- `arch_init_very_early`, `arch_init_early` and `arch_init_late` of x86_64.
unfoldable pub set_gdt : Kernel → Option Tables → Run Kernel ℕ
set_gdt k none = halt out_of_bounds
set_gdt k (some t) = ok 0 (record k { tables = t })

unfoldable pub arch_init_very_early : Platform → (cpu : ℕ) → Cmd Kernel ℕ
arch_init_very_early p cpu k = set_gdt k (load_gdt p.gdt_address p.tss_address cpu k.tables)

unfoldable pub arch_init_early : Platform → (cpu : ℕ) → Cmd Kernel ℕ
arch_init_early p cpu k =
    ok 0 (record k { interrupts = interrupt_init p.idt_address p.isr k.interrupts })

abbrev pub arch_init_late : (cpu : ℕ) → Cmd Kernel ℕ
arch_init_late cpu k = ok 0 k

-- The three stages one after the other, up to the first that fails.
unfoldable pub arch_init_full : Platform → (cpu : ℕ) → Cmd Kernel ℕ
arch_init_full p cpu k = followed_by (arch_init_very_early p cpu k) λ status k1.
    if not (status == 0)
    then ok status k1
    else followed_by (arch_init_early p cpu k1)
        λ status k2. if not (status == 0) then ok status k2 else arch_init_late cpu k2

-- `if (status != 0)` and the panic.
unfoldable pub expect : Panic → Run Kernel ℕ → Run Kernel (Unit {0})
expect e r = followed_by r λ status k. if not (status == 0) then halt e else ok tt k

unfoldable pub log_bootloader : Platform → Cmd Kernel (Unit {0})
log_bootloader p k =
    followed_by (log_info p (codes "Fetching Limine-compliant bootloader info...\n") [] k) λ _ k1.
      followed_by (log_info p (codes "Bootloader name: %s\n") (bl_name p ∷ []) k1) λ _ k2.
        followed_by (log_info p (codes "Bootloader version: %s\n") (bl_version p ∷ []) k2)
          λ _ k3. log_info p (codes "Finished fetching bootloader info.\n") [] k3

abbrev pub firmware_text : ℕ → List ℕ
firmware_text type =
    if type == Firmware.x86bios
    then codes "x86 BIOS\n"
    else if type == Firmware.uefi32
    then codes "32-bit UEFI\n"
    else if type == Firmware.uefi64
    then codes "64-bit UEFI\n"
    else codes "Unknown firmware\n"

unfoldable pub log_firmware : Platform → Cmd Kernel (Unit {0})
log_firmware p k =
    followed_by (log_info p (codes "System firmware: ") [] k)
      λ _ k1. say p (some (print (firmware_text (firmware_type p.limine)))) k1

unfoldable pub log_addresses : Platform → Cmd Kernel (Unit {0})
log_addresses p k =
    followed_by (log_info p (codes "HHDM offset: %#llx\n") (p.limine.hhdm_offset ∷ []) k) λ _ k1.
      followed_by
        (log_info p (codes "Kernel physical base: %#llx\n") (p.limine.kernel_physical_base ∷ []) k1)
        λ _ k2.
          log_info p (codes "Kernel virtual base: %#llx\n") (p.limine.kernel_virtual_base ∷ []) k2

unfoldable pub log_memmap : Platform → List LimineMemmapEntry → Cmd Kernel (Unit {0})
log_memmap p [] k = ok tt k
log_memmap p (e ∷ es) k =
    let entry = memmap_entry p.limine e in
    followed_by
      (log_info p (codes "memmap entry: %#llx->%#llx %s\n")
        (entry.base ∷ u64 (entry.base + entry.length) ∷ p.type_name entry.type ∷ []) k)
      λ _ k1. log_memmap p es k1

-- What is printed before the memory is set up.
unfoldable pub announce : Platform → Cmd Kernel (Unit {0})
announce p k = followed_by (log_bootloader p k) λ _ k1.
    followed_by (log_firmware p k1)
      λ _ k2. followed_by (log_addresses p k2) λ _ k3. log_memmap p p.limine.entries k3

abbrev pub vmm_of : Kernel → Vmm
vmm_of k = record { pmm = k.kheap.pmm; kernel_pt = k.kernel_pt; cr3 = k.cr3 }

-- `pmm_init` with what it logs at its end, and `vmm_init` with what it logs on its way: the ports have
-- no part in the memory, so the lines in between stand before it.
unfoldable pub run_pmm_init : Platform → Cmd Kernel ℕ
run_pmm_init p k =
    followed_by (on_pmm k (init p.limine k.kheap.pmm))
      λ status k1. followed_by (log_info p (codes "PMM initialized\n") [] k1) λ _ k2. ok status k2

unfoldable pub run_vmm_init : Platform → Cmd Kernel ℕ
run_vmm_init p k =
    followed_by (log_at p loglevel_trace (codes "Mapping memmap entries...\n") [] k) λ _ k1.
      followed_by (log_at p loglevel_trace (codes "Mapping kernel...\n") [] k1) λ _ k2.
        followed_by (on_vmm k2 (vmm_init p.fuel p.limine (vmm_of k2))) λ status k3.
          followed_by (log_info p (codes "VMM Initialized\n") [] k3) λ _ k4. ok status k4

-- The components that manage memory, and the interrupts between them.
unfoldable pub init_memory : Platform → Cmd Kernel (Unit {0})
init_memory p k = followed_by (expect pmm_init_failed (run_pmm_init p k)) λ _ k1.
    followed_by (expect arch_init_failed (arch_init_early p 0 k1)) λ _ k2.
      followed_by (expect vmm_init_failed (run_vmm_init p k2)) λ _ k3.
        followed_by (expect kheap_init_failed (on_kheap k3 (kheap_init p.limine k3.kheap)))
          λ _ k4. expect arch_init_failed (arch_init_late 0 k4)

-- `_start` from `serial_init` on.
unfoldable pub start_printing : Platform → Cmd Kernel (Unit {0})
start_printing p k1 =
    let k2 = record k1 { ports = serial_init k1.ports } in
    followed_by
      (say p (printf p.string_at (codes "Symphony v0.0.0 is starting...\n") (args_of [])) k2)
      λ _ k3.
        if not (bl_supported p)
        then halt bootloader_not_supported
        else followed_by (announce p k3)
            λ _ k4. followed_by (init_memory p k4) λ _ k5. log_info p (codes "Init done\n") [] k5

-- A failure of the first stage halts without a word.
unfoldable pub start : Platform → Cmd Kernel (Unit {0})
start p k =
    followed_by (arch_init_very_early p 0 k)
      λ status k1. if not (status == 0) then ok tt k1 else start_printing p k1
