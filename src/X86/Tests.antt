-- ===== src/X86/Tests.antt =====
-- The descriptor tables for one processor.
use orchestr_os.Base.{
  ℕ, zero, suc, ◌+◌, ◌-◌, ◌*◌, ◌%◌, ◌^◌, ◌≤◌, ◌<◌, ◌≡◌, refl, ap, some, List, [], ◌∷◌, ◌++◌, Bool,
  true, ◌&&◌, ltb, arith,
}
use orchestr_os.Base.Text.{codes}
use orchestr_os.X86.Exception.{Regs, ControlRegs, exception_args, exception_handler}
use orchestr_os.X86.Exception.Text.{exception_handler-first_line}
use orchestr_os.Base.Lists.{length, get_or}
use orchestr_os.X86.Gdt.{GdtEntry, GdtSystemEntry, Tables, load_gdt}
use orchestr_os.X86.Gdt.Laws.{Loaded, load_gdt-Loaded}
use orchestr_os.X86.Idt.{Interrupts, interrupt_init, exception_messages}
use orchestr_os.X86.Idt.Laws.{IsGate, interrupt_init-IsGate}

abbrev no_entry : GdtEntry
no_entry = record { limit0 = 0; base0 = 0; base1 = 0; access = 0; limit1 = 0; flags = 0; base2 = 0 }

abbrev no_system_entry : GdtSystemEntry
no_system_entry = record {
  limit0 = 0;
  base0 = 0;
  base1 = 0;
  access = 0;
  limit1 = 0;
  flags = 0;
  base2 = 0;
  base3 = 0;
  reserved = 0;
}

-- The statics before the boot: all zeroes.
abbrev zero_tables : Tables
zero_tables = record {
  gdt =
      record {
        null = no_entry;
        kernel_code = no_entry;
        kernel_data = no_entry;
        user_code = no_entry;
        user_data = no_entry;
        tss = no_system_entry;
      }
      ∷ [];
  tss =
      record {
        reserved0 = 0;
        rsp = 0 ∷ 0 ∷ 0 ∷ [];
        reserved1 = 0;
        ist = 0 ∷ 0 ∷ 0 ∷ 0 ∷ 0 ∷ 0 ∷ 0 ∷ [];
        reserved2 = 0;
        reserved3 = 0;
        iomap_base = 0;
      }
      ∷ [];
  gdtr = record { size = 0; offset = 0 } ∷ [];
}

abbrev gdt_address : ℕ
gdt_address = 0xffff_ffff_8000_1000

abbrev tss_address : ℕ
tss_address = 0xffff_ffff_8000_2040

load_gdt-Loaded_example :
    (t' : Tables) × (load_gdt gdt_address tss_address 0 zero_tables ≡ some t')
    × Loaded gdt_address tss_address 0 zero_tables t'
load_gdt-Loaded_example =
    load_gdt-Loaded gdt_address tss_address 0 zero_tables (omega arith) (omega arith)

messages_for_every_exception : length exception_messages ≡ 32
messages_for_every_exception = refl

no_gates : Interrupts
no_gates = record {
  idtr = record { size = 0; offset = 0 };
  idt = λ i. record {
    offset0 = 0;
    seg = 0;
    ist = 0;
    pdpl_gate_type = 0;
    offset1 = 0;
    offset2 = 0;
    reserved = 0;
  };
}

-- Stubs of 16 bytes each.
abbrev stub : ℕ → ℕ
stub n = 0xffff_ffff_8000_3000 + n % 32 * 16

interrupt_init-IsGate_example :
    ((n : ℕ) → n < 32 → IsGate (stub n) ((interrupt_init tss_address stub no_gates).idt n))
    × ((n : ℕ) → 32 ≤ n → (interrupt_init tss_address stub no_gates).idt n ≡ no_gates.idt n)
    × ((interrupt_init tss_address stub no_gates).idtr
        ≡ record { size = 4095; offset = tss_address })
interrupt_init-IsGate_example =
    interrupt_init-IsGate tss_address stub no_gates (omega arith) (λ n. omega arith)

-- A page fault; each message lies at the exception's number, counted from 0x1000.
abbrev message_at : ℕ → ℕ
message_at n = 0x1000 + n

abbrev string_at : ℕ → List ℕ
string_at a = get_or exception_messages (a - 0x1000) []

abbrev fault_regs : Regs
fault_regs = record {
  ds = 0x10;
  r15 = 0;
  r14 = 0;
  r13 = 0;
  r12 = 0;
  r11 = 0;
  r10 = 0;
  r9 = 0;
  r8 = 0;
  rdi = 0;
  rsi = 0;
  rbp = 0;
  rbx = 0;
  rdx = 0;
  rcx = 0;
  rax = 7;
  intn = 14;
  err_code = 2;
  rip = 0xffff_ffff_8000_4000;
  cs = 8;
  rflags = 0x202;
  rsp = 0xffff_8000_0001_0000;
  ss = 0x10;
}

abbrev fault_control_regs : ControlRegs
fault_control_regs = record { cr0 = 0x8001_0011; cr2 = 0xdead_beef; cr3 = 0x5000; cr4 = 0x20 }

messages_at : (n : ℕ) → n < 32 → string_at (message_at n) ≡ get_or exception_messages n []
messages_at n h =
    let same : (0x1000 + n) - 0x1000 ≡ n = omega arith in
    ap (λ k. get_or exception_messages k []) same

abbrev all_below : List ℕ → Bool
all_below [] = true
all_below (x ∷ xs) = ltb x (2 ^ 64) && all_below xs

below_all : (xs : List ℕ) → all_below xs ≡ true → (i : ℕ) → get_or xs i 0 < 2 ^ 64
below_all [] h i = omega arith
below_all (x ∷ xs) h zero = ground arith
below_all (x ∷ xs) h (suc i) = below_all xs (ground arith) i

exception_handler-first_line_example :
    (rest : List ℕ) × (exception_handler string_at message_at fault_regs fault_control_regs
      ≡ some (codes "[ FATAL ] Kernel Panic! " ++ (codes "Page Fault" ++ (codes "!\n" ++ rest))))
exception_handler-first_line_example =
    exception_handler-first_line string_at message_at fault_regs fault_control_regs messages_at
      (λ n. omega arith)
      (below_all (exception_args (message_at 14) fault_regs fault_control_regs) refl) (omega arith)
