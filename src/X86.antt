-- ===== src/X86.antt =====
-- The x86_64 processor: its descriptor tables, symphony/arch/x86_64/gdt.c and interrupt.c.
pub mod Gdt
pub mod Idt
pub mod Exception
mod Tests
