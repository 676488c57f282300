-- ===== src/Base/Word.antt =====
-- 64-bit words, and ALIGN_UP of include/symphony/mm.h.
use Prim.Native.Nat.{ℕ, ◌+◌, ◌-◌, ◌%◌, ◌^◌, ◌≤◌, ◌<◌}
use mathlib.Core.Path.{◌≡◌}
use native.Mathlib.Omega.{arith}
use orchestr_os.Base.Tests.{◌==◌, if◌then◌else◌}

abbrev pub u64 : ℕ → ℕ
u64 n = n % 2 ^ 64

-- a - b on 64 bits: the modulus is added first, since `-` stops at 0.
abbrev pub sub64 : ℕ → ℕ → ℕ
sub64 a b = u64 (a + 2 ^ 64 - b)

-- PAGE_SIZE
abbrev pub page_size : ℕ
page_size = 4096

unfoldable pub align_up : ℕ → ℕ → ℕ
align_up x alignment = if x % alignment == 0 then x else u64 (x + (alignment - x % alignment))

-- The multiple of a page that is next above, where the address space does not end first.
pub align_up_page :
    (x : ℕ)
    → x + page_size ≤ 2 ^ 64
    → (align_up x page_size % page_size ≡ 0)
      × (x ≤ align_up x page_size)
      × (align_up x page_size < x + page_size)
unfolding align_up
align_up_page x h = ground arith

pub align_up_eight :
    (x : ℕ) → x + 8 ≤ 2 ^ 64 → (align_up x 8 % 8 ≡ 0) × (x ≤ align_up x 8) × (align_up x 8 < x + 8)
unfolding align_up
align_up_eight x h = ground arith
