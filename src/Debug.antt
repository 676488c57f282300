-- ===== src/Debug.antt =====
-- The kernel's formatted output: symphony/debug.c. What a call prints is the list of the characters
-- that it gives to `debug_putchar`, in order, as byte values.
mod Tests
pub mod Digits
pub mod Integer
pub mod Format
pub mod Log
