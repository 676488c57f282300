-- ===== src/X86/Idt.antt =====
-- symphony/arch/x86_64/interrupt.c: the Interrupt Descriptor Table. `idt_address` is where the linker
-- puts the table, and `isr n` the address of the stub `isrn` of interrupt.asm.
pub mod Laws
use orchestr_os.Base.{ℕ, zero, suc, ◌+◌, ◌-◌, ◌*◌, ◌/◌, ◌%◌, ◌^◌, ◌==◌, if◌then◌else◌}
use orchestr_os.Base.{List, [], ◌∷◌}
use orchestr_os.Base.Text.{codes}
use orchestr_os.Base.Word.{u64}

-- INT_GATE, INT_USER_GATE and TRAP_GATE
abbrev pub int_gate : ℕ
int_gate = 0x8e

pub record Idtr : Type 0 where
  pub size : ℕ
  pub offset : ℕ

pub record IdtEntry : Type 0 where
  pub offset0 : ℕ
  pub seg : ℕ
  pub ist : ℕ
  pub pdpl_gate_type : ℕ
  pub offset1 : ℕ
  pub offset2 : ℕ
  pub reserved : ℕ

-- `sizeof(struct idt_entry)`: the structure is packed.
abbrev pub sizeof_idt_entry : ℕ
sizeof_idt_entry = 2 + 2 + 1 + 1 + 2 + 4 + 4

-- The statics `idtr` and `idt`; the index of the 256 entries is a byte.
pub record Interrupts : Type 0 where
  pub idtr : Idtr
  pub idt : ℕ → IdtEntry

abbrev pub gate : (isr pdpl_gate_type : ℕ) → IdtEntry
gate isr pdpl_gate_type = record {
  offset0 = isr % 2 ^ 16;
  offset1 = isr / 2 ^ 16 % 2 ^ 16;
  offset2 = isr / 2 ^ 32 % 2 ^ 32;
  ist = 0;
  seg = 0x08;
  pdpl_gate_type = pdpl_gate_type % 2 ^ 8;
  reserved = 0;
}

unfoldable pub idt_set_entry : (entry isr pdpl_gate_type : ℕ) → Interrupts → Interrupts
idt_set_entry entry isr pdpl_gate_type t = record t {
  idt = λ i. if i == entry % 2 ^ 8 then gate isr pdpl_gate_type else t.idt i;
}

-- The calls `arch_idt_set_entry(n, isrn, INT_GATE)` from `n` on.
unfoldable pub set_exceptions : (isr : ℕ → ℕ) → (left n : ℕ) → Interrupts → Interrupts
unfolding idt_set_entry
set_exceptions isr zero n t = t
set_exceptions isr (suc left) n t =
    set_exceptions isr left (n + 1) (idt_set_entry n (isr n) int_gate t)

unfoldable pub interrupt_init : (idt_address : ℕ) → (isr : ℕ → ℕ) → Interrupts → Interrupts
unfolding set_exceptions
interrupt_init idt_address isr t =
    set_exceptions isr 32 0
      (record t { idtr = record { size = sizeof_idt_entry * 256 - 1; offset = u64 idt_address } })

abbrev pub exception_messages : List (List ℕ)
exception_messages =
    codes "Divide Error"
    ∷ codes "Debug"
    ∷ codes "NMI Triggered"
    ∷ codes "Breakpoint Reached"
    ∷ codes "Overflow"
    ∷ codes "Bound Range Exceeded"
    ∷ codes "Invalid Opcode"
    ∷ codes "Device Not Available"
    ∷ codes "Double Fault"
    ∷ codes "Coprocessor Segment Overrun"
    ∷ codes "Invalid TSS"
    ∷ codes "Segment Not Present"
    ∷ codes "Stack Segment Fault"
    ∷ codes "General Protection Fault"
    ∷ codes "Page Fault"
    ∷ codes "(Reserved)"
    ∷ codes "x87 Floating-Point Fault"
    ∷ codes "Alignment Check"
    ∷ codes "Machine Check"
    ∷ codes "SIMD Floating-Point Fault"
    ∷ codes "Virtualisation Fault"
    ∷ codes "Control Protection Fault"
    ∷ codes "(Reserved)"
    ∷ codes "(Reserved)"
    ∷ codes "(Reserved)"
    ∷ codes "(Reserved)"
    ∷ codes "(Reserved)"
    ∷ codes "(Reserved)"
    ∷ codes "Hypervisor Injection"
    ∷ codes "VMM Communication"
    ∷ codes "Security Fault"
    ∷ codes "(Reserved)"
    ∷ []
