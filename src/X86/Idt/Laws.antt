-- ===== src/X86/Idt/Laws.antt =====
-- The table that arch_interrupt_init of symphony/arch/x86_64/interrupt.c leaves, as the processor
-- reads it.
use orchestr_os.Base.{
  ℕ, zero, suc, ◌+◌, ◌*◌, ◌^◌, ◌≤◌, ◌<◌, ◌≡◌, refl, ◌∙◌, leb, ltb, ◌&&◌, if◌then◌else◌, arith,
}
use orchestr_os.Base.Word.{u64}
use orchestr_os.X86.Idt.{
  IdtEntry, Interrupts, int_gate, gate, idt_set_entry, set_exceptions, interrupt_init,
}

-- The address that the processor puts together from an entry.
abbrev pub handler_address : IdtEntry → ℕ
handler_address e = e.offset0 + e.offset1 * 2 ^ 16 + e.offset2 * 2 ^ 32

set_exceptions_lem :
    (isr : ℕ → ℕ) (left n i : ℕ) (t : Interrupts)
    → n + left ≤ 32
    → (set_exceptions isr left n t).idt i
      ≡ (if leb n i && ltb i (n + left) then gate (isr i) int_gate else t.idt i)
unfolding set_exceptions idt_set_entry
set_exceptions_lem isr zero n i t h = ground arith
set_exceptions_lem isr (suc left) n i t h = ground (
  arith,
  set_exceptions_lem isr left (n + 1) i (idt_set_entry n (isr n) int_gate t) (omega arith),
)

set_exceptions-idtr :
    (isr : ℕ → ℕ) (left n : ℕ) (t : Interrupts) → (set_exceptions isr left n t).idtr ≡ t.idtr
unfolding set_exceptions idt_set_entry
set_exceptions-idtr isr zero n t = refl
set_exceptions-idtr isr (suc left) n t =
    set_exceptions-idtr isr left (n + 1) (idt_set_entry n (isr n) int_gate t)

-- An interrupt gate of the kernel that calls the code at `isr`.
pub IsGate : (isr : ℕ) → IdtEntry → Type 0
IsGate isr e =
    (handler_address e ≡ isr)
    × (e.seg ≡ 0x08)
    × (e.pdpl_gate_type ≡ 0x8e)
    × (e.ist ≡ 0)
    × (e.reserved ≡ 0)

-- After `arch_interrupt_init`, where the stubs have 64-bit addresses, the entry of every exception,
-- 0 to 31, is an interrupt gate in the kernel's code segment from which the processor reads the
-- address of the exception's own stub; the other entries are as before; and the register covers the
-- 4096 bytes of the table at its address.
pub interrupt_init-IsGate :
    (idt_address : ℕ) (isr : ℕ → ℕ) (t : Interrupts)
    → idt_address < 2 ^ 64
    → ((n : ℕ) → isr n < 2 ^ 64)
    → ((n : ℕ) → n < 32 → IsGate (isr n) ((interrupt_init idt_address isr t).idt n))
      × ((n : ℕ) → 32 ≤ n → (interrupt_init idt_address isr t).idt n ≡ t.idt n)
      × ((interrupt_init idt_address isr t).idtr ≡ record { size = 4095; offset = idt_address })
unfolding interrupt_init IsGate
interrupt_init-IsGate idt_address isr t ha hi =
    let t0 = record t { idtr = record { size = 4095; offset = u64 idt_address } } in
    (
      (λ n h. rw (set_exceptions_lem isr 32 0 n t0 (omega arith)) (ground (arith, hi n))),
      (λ n h. rw (set_exceptions_lem isr 32 0 n t0 (omega arith)) (ground arith)),
      set_exceptions-idtr isr 32 0 t0 ∙ ground arith,
    )
