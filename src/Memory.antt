-- ===== src/Memory.antt =====
-- Byte memory, and the memory functions of symphony/string.c: memcpy, memset, memmove, memcmp.
-- A pointer is its address, and an object lies below the end of the address space, so `p + i` does
-- not wrap. memcpy, memset and memmove return their first argument; here they give the new memory.
-- Each loop runs over its own counter, with the rounds left as the argument of the recursion.
pub mod Block
pub mod Order
pub mod Words
mod Tests
use orchestr_os.Base.{ℕ, zero, suc, ◌+◌, ◌-◌, ◌%◌, Bool, ◌&&◌, ltb, leb, ◌==◌, if◌then◌else◌}
use orchestr_os.Base.Int.{ℤ, pos, negsuc}

abbrev pub Mem : Type 0
Mem = ℕ → ℕ

-- `*p = v`
unfoldable pub store : Mem → ℕ → ℕ → Mem
store m p v a = if a == p then v else m a

-- `a` is one of the `n` addresses from `p` on.
abbrev pub within : ℕ → ℕ → ℕ → Bool
within p n a = leb p a && ltb a (p + n)

copy_forward : (dest src : ℕ) → ℕ → ℕ → Mem → Mem
copy_forward dest src zero i m = m
copy_forward dest src (suc left) i m =
    copy_forward dest src left (i + 1) (store m (dest + i) (m (src + i)))

-- `for (size_t i = n; i > 0; i--)`
copy_backward : (dest src : ℕ) → ℕ → Mem → Mem
copy_backward dest src zero m = m
copy_backward dest src (suc i) m = copy_backward dest src i (store m (dest + i) (m (src + i)))

pub memcpy : (dest src n : ℕ) → Mem → Mem
unfolding copy_forward
memcpy dest src n m = copy_forward dest src n 0 m

set_from : (s c : ℕ) → ℕ → ℕ → Mem → Mem
set_from s c zero i m = m
set_from s c (suc left) i m = set_from s c left (i + 1) (store m (s + i) (c % 256))

unfoldable pub memset : (s c n : ℕ) → Mem → Mem
unfolding set_from store
memset s c n m = set_from s c n 0 m

pub memmove : (dest src n : ℕ) → Mem → Mem
unfolding copy_forward copy_backward
memmove dest src n m =
    if ltb dest src
    then copy_forward dest src n 0 m
    else if ltb src dest
    then copy_backward dest src n m
    else m

compare_from : (s1 s2 : ℕ) → ℕ → ℕ → Mem → ℤ
compare_from s1 s2 zero i m = pos 0
compare_from s1 s2 (suc left) i m =
    let rest = compare_from s1 s2 left (i + 1) m in
    if m (s1 + i) == m (s2 + i)
    then rest
    else if ltb (m (s1 + i)) (m (s2 + i))
    then negsuc 0
    else pos 1

pub memcmp : (s1 s2 n : ℕ) → Mem → ℤ
unfolding compare_from
memcmp s1 s2 n m = compare_from s1 s2 n 0 m
