-- ===== src/Paging.antt =====
-- The page tables of x86_64, symphony/arch/x86_64/mm.c and include/symphony/arch/x86_64.h: the
-- indexes of an address, and the entries.
pub mod Index
pub mod Entry
pub mod Walk
pub mod Tables
mod Tests
