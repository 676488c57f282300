-- ===== src/Pmm.antt =====
-- The page frame allocator: symphony/mm/pmm.c. A page is free where its bit in the bitmap is 0, and
-- the bits of a byte are numbered from the most significant one.
mod Tests
pub mod State
pub mod Marks
pub mod Find
pub mod Frames
pub mod Pages
pub mod Room
pub mod Init
