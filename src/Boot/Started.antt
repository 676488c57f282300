-- ===== src/Boot/Started.antt =====
-- `_start` of symphony/kernel.c brings the kernel up.
use orchestr_os.Base.{ℕ, ◌<◌, ◌^◌, ◌≡◌, refl, sym, ap, ◌∙◌, true, [], not, if◌then◌else◌}
use mathlib.Core.Path.{subst}
use orchestr_os.Base.Lists.{length}
use orchestr_os.Base.Run.{Run, halt, followed_by, bootloader_not_supported, Returns, returns}
use orchestr_os.BootProto.{Limine, LimineMemmapEntry}
use orchestr_os.Pmm.Room.{Ends, Ends-bind, Ends-mono, Returns-Ends}
use orchestr_os.Base.Text.{codes}
use orchestr_os.X86.Gdt.Laws.{Loaded, load_gdt-Loaded}
use orchestr_os.X86.Idt.Laws.{IsGate, interrupt_init-IsGate}
use orchestr_os.Serial.{serial_init}
use orchestr_os.Boot.{
  Platform, Kernel, start_printing, arch_init_very_early, arch_init_early, set_gdt, init_memory,
  arch_init_full, bl_supported, log_info, announce, start,
}
use orchestr_os.Boot.Print.{
  Empties, Says, Says-trans, Says-Empties, Spoke-Empties, printf-Says, log_at-Says, announce-Says,
}
use orchestr_os.Serial.Laws.{EmptiesWithin, Spoke, Spoke-trans, serial_init-line_status}
use orchestr_os.Boot.Memory.{IsPlatform, HasMemory, LowMemory, IsReady, init_memory-Ends}

-- Memory holds bytes, processor 0 has its elements of the tables, and the transmitter of the serial line
-- empties within the fuel for one byte, at whatever read the poll starts.
pub record IsLoaded (p : Platform) (k : Kernel) : Type 0 where
  pub bytes : (a : ℕ) → k.kheap.pmm.memory a < 256
  pub gdt : 0 < length k.tables.gdt
  pub gdtr : 0 < length k.tables.gdtr
  pub device : Empties p k

-- The kernel that was brought up from `k`.
pub record IsStarted (p : Platform) (k k' : Kernel) : Type 0 where
  pub gdt : Loaded p.gdt_address p.tss_address 0 k.tables k'.tables
  pub spoke : Spoke (serial_init k.ports) k'.ports
  pub gates : (n : ℕ) → n < 32 → IsGate (p.isr n) (k'.interrupts.idt n)
  pub memory : HasMemory p.limine k'

if-supported :
    (p : Platform) (x y : Run Kernel (Unit {0}))
    → p.base_revision_supported ≡ true
    → (if not (bl_supported p) then x else y) ≡ y
if-supported p x y e = rw e refl

-- What comes once the bootloader is found supported.
abbrev go_on : Platform → Kernel → Run Kernel (Unit {0})
go_on p k =
    followed_by (announce p k)
      λ _ k4. followed_by (init_memory p k4) λ _ k5. log_info p (codes "Init done\n") [] k5

Says-bytes :
    (k k' : Kernel)
    → ((a : ℕ) → k.kheap.pmm.memory a < 256)
    → Says k k'
    → (a : ℕ) → k'.kheap.pmm.memory a < 256
Says-bytes k k' bytes (q, spoke, e) a = rw (ap (λ (x : Kernel). x.kheap.pmm.memory a) e) (bytes a)

Says-Spoke : (k k' : Kernel) → Says k k' → Spoke k.ports k'.ports
Says-Spoke k k' (q, spoke, e) =
    subst (λ x. Spoke k.ports x) (sym (ap (λ (x : Kernel). x.ports) e)) spoke

HasMemory-Says : (l : Limine) (k k' : Kernel) → HasMemory l k → Says k k' → HasMemory l k'
HasMemory-Says l k k' m (q, spoke, e) =
    subst (λ x. HasMemory l x) (sym e)
      (record { paging = m.paging; mapped = m.mapped; cr3 = m.cr3; heap = m.heap })

module _ (p : Platform) (i : ℕ) (e : LimineMemmapEntry) (is : IsPlatform p i e) where
  -- What is printed around the set-up of the memory changes none of its results.
  ready-IsStarted :
      (k k2 k4 k5 k6 : Kernel)
      → Loaded p.gdt_address p.tss_address 0 k.tables k2.tables
      → k2.ports ≡ serial_init k.ports
      → Says k2 k4
      → IsReady p k4 k5
      → Says k5 k6
      → IsStarted p k k6
  ready-IsStarted k k2 k4 k5 k6 loaded ports (q, spoke, e4) ready (q', spoke', e6) = record {
    gdt =
        subst (λ x. Loaded p.gdt_address p.tss_address 0 k.tables x)
          (sym (ap (λ (x : Kernel). x.tables) e6 ∙ ready.tables ∙ ap (λ (x : Kernel). x.tables) e4))
          loaded;
    spoke =
        subst (λ x. Spoke x k6.ports) ports
          (Spoke-trans k2.ports k4.ports k6.ports (Says-Spoke k2 k4 (q, spoke, e4)) (
            Spoke-trans k4.ports k5.ports k6.ports ready.spoke
              (Says-Spoke k5 k6 (q', spoke', e6))));
    gates = λ n h.
        subst (λ x. IsGate (p.isr n) (x.idt n))
          (sym (ap (λ (x : Kernel). x.interrupts) e6 ∙ ready.interrupts))
          ((interrupt_init-IsGate p.idt_address p.isr k4.interrupts is.idt is.stubs).0 n h);
    memory = HasMemory-Says p.limine k5 k6 ready.memory (q', spoke', e6);
  }

  -- From the bootloader's information on.
  announced-IsStarted :
      (k k2 k3 : Kernel)
      → Empties p k2
      → ((a : ℕ) → k2.kheap.pmm.memory a < 256)
      → Loaded p.gdt_address p.tss_address 0 k.tables k2.tables
      → k2.ports ≡ serial_init k.ports
      → Says k2 k3
      → Ends
          (LowMemory p.limine e)
          (λ _ k'. IsStarted p k k')
          (if not (bl_supported p) then halt bootloader_not_supported else go_on p k3)
  announced-IsStarted k k2 k3 empties bytes loaded ports says =
      rw (if-supported p (halt bootloader_not_supported) (go_on p k3) is.supported) (
        Ends-bind (Returns-Ends (announce-Says p k3 (Says-Empties p k2 k3 says empties)))
          (λ few. few)
          λ _ k4 said.
            let says4 = Says-trans k2 k3 k4 says said in
            Ends-bind
              (init_memory-Ends p i e is k4 (Says-Empties p k2 k4 says4 empties)
                (Says-bytes k2 k4 bytes says4))
              (λ few. few)
              λ _ k5 ready.
                Ends-mono
                  (Returns-Ends (
                    log_at-Says p _ _ _ k5
                      (Spoke-Empties p k4 k5 ready.spoke (Says-Empties p k2 k4 says4 empties))))
                  (λ few. few)
                  λ _ k6 done_says.
                    ready-IsStarted k k2 k4 k5 k6 loaded ports says4 ready done_says)

-- `_start` halts at its end, with the descriptor tables of processor 0 and the gates of the 32
-- exceptions set up, with nothing but text written to the ports behind the set-up of the serial device,
-- with page tables at work that map what the memory map and the kernel ask for and that the processor
-- was given, and with a heap of one free block; or it panics for want of memory, and then fewer pages
-- were free after `pmm_init` than the page tables need, or no 16 pages in a row for the heap behind
-- them. This is on a platform whose memory map has whole pages with room for the bitmap and whose last
-- usable entry is not its first, with physical addresses of 52 bits, ranges within the fuel, 64-bit
-- addresses of the tables and stubs, and a bootloader that supports the base revision; with memory of
-- bytes and tables that have processor 0; and with a serial device that empties its transmitter within
-- the fuel, at whatever read a poll starts.
pub start-IsStarted :
    (p : Platform) (i : ℕ) (e : LimineMemmapEntry) (k : Kernel)
    → IsPlatform p i e
    → IsLoaded p k
    → Ends (LowMemory p.limine e) (λ _ k'. IsStarted p k k') (start p k)
unfolding start start_printing arch_init_very_early set_gdt
start-IsStarted p i e k is loaded =
    let (t, et, tables) =
      load_gdt-Loaded p.gdt_address p.tss_address 0 k.tables loaded.gdt loaded.gdtr in
    let k2 : Kernel = record k { tables = t; ports = serial_init k.ports } in
    let empties2 : Empties p k2 =
      subst (λ f. EmptiesWithin p.poll_fuel f) (sym (serial_init-line_status k.ports))
        loaded.device in
    rw et (
      Ends-bind
        (Returns-Ends (printf-Says p (codes "Symphony v0.0.0 is starting...\n") [] k2 empties2))
        (λ few. few)
        λ _ k3 says. announced-IsStarted p i e is k k2 k3 empties2 loaded.bytes tables refl says)

-- `arch_init_full` on processor 0 does all three stages and returns 0: the descriptor tables and the
-- gates of the exceptions are set up, and nothing else has changed.
arch_init_full-Returns :
    (p : Platform) (k : Kernel)
    → IsLoaded p k
    → p.idt_address < 2 ^ 64
    → ((n : ℕ) → p.isr n < 2 ^ 64)
    → Returns
        (λ status k'.
          (status ≡ 0)
          × Loaded p.gdt_address p.tss_address 0 k.tables k'.tables
          × ((n : ℕ) → n < 32 → IsGate (p.isr n) (k'.interrupts.idt n))
          × (k' ≡ record k { tables = k'.tables; interrupts = k'.interrupts }))
        (arch_init_full p 0 k)
unfolding arch_init_full arch_init_very_early arch_init_early set_gdt
arch_init_full-Returns p k loaded idt stubs =
    let (t, et, tables) =
      load_gdt-Loaded p.gdt_address p.tss_address 0 k.tables loaded.gdt loaded.gdtr in
    rw et (
      returns
        (refl, tables, (interrupt_init-IsGate p.idt_address p.isr k.interrupts idt stubs).0, refl))
