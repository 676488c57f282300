-- ===== src/Memory/Block.antt =====
-- What memset, memcpy and memmove of symphony/string.c leave at every address.
use orchestr_os.Base.{
  ℕ, zero, suc, ◌+◌, ◌-◌, ◌%◌, ◌≤◌, ◌≡◌, ◌⊎◌, inl, ◌∙◌, sym, ap, arith, if◌then◌else◌,
}
use mathlib.Core.Path.{fun_ext}
use orchestr_os.Memory.{
  Mem, store, within, copy_forward, copy_backward, memcpy, set_from, memset, memmove,
}

set_from_lem :
    (s c left i : ℕ) (m : Mem) (a : ℕ)
    → set_from s c left i m a ≡ (if within (s + i) left a then c % 256 else m a)
unfolding set_from store
set_from_lem s c zero i m a = ground arith
set_from_lem s c (suc left) i m a =
    ground (arith, set_from_lem s c left (i + 1) (store m (s + i) (c % 256)) a)

-- `memset` writes the low byte of `c` to each of the `n` addresses, and to no other.
pub memset_lem :
    (s c n : ℕ) (m : Mem) (a : ℕ) → memset s c n m a ≡ (if within s n a then c % 256 else m a)
unfolding memset
memset_lem s c n m a = ground (arith, set_from_lem s c n 0 m a)

-- A forward copy is right where the destination starts below the source, or the two do not meet:
-- no byte is read after it was overwritten.
copy_forward_lem :
    (dest src left i : ℕ) (m : Mem) (a : ℕ)
    → (dest ≤ src) ⊎ (src + i + left ≤ dest + i)
    → copy_forward dest src left i m a
      ≡ (if within (dest + i) left a then m (src + (a - dest)) else m a)
unfolding copy_forward store
copy_forward_lem dest src zero i m a apart = ground arith
copy_forward_lem dest src (suc left) i m a apart = ground (
  arith,
  copy_forward_lem dest src left (i + 1) (store m (dest + i) (m (src + i))) a (omega arith),
  λ (e : a ≡ dest + i). back e,
)
  where
    back : a ≡ dest + i → m (src + (a - dest)) ≡ m (src + i)
    back e = ap m (omega arith)

copy_backward_lem :
    (dest src left : ℕ) (m : Mem) (a : ℕ)
    → src ≤ dest
    → copy_backward dest src left m a ≡ (if within dest left a then m (src + (a - dest)) else m a)
unfolding copy_backward store
copy_backward_lem dest src zero m a below = ground arith
copy_backward_lem dest src (suc left) m a below = ground (
  arith,
  copy_backward_lem dest src left (store m (dest + left) (m (src + left))) a below,
  λ (e : a ≡ dest + left). back e,
)
  where
    back : a ≡ dest + left → m (src + (a - dest)) ≡ m (src + left)
    back e = ap m (omega arith)

-- `memmove` copies the `n` bytes from `src` as they were before the call to `dest`, however the two
-- blocks lie to one another, and writes nowhere else.
pub memmove_lem :
    (dest src n : ℕ) (m : Mem) (a : ℕ)
    → memmove dest src n m a ≡ (if within dest n a then m (src + (a - dest)) else m a)
unfolding memmove
memmove_lem dest src n m a = ground (
  arith,
  λ (h : dest ≤ src). copy_forward_lem dest src n 0 m a (inl h),
  λ (h : src ≤ dest). copy_backward_lem dest src n m a h,
  λ (e : dest ≡ src). λ (h : dest ≤ a). same e h,
)
  where
    same : dest ≡ src → dest ≤ a → m (src + (a - dest)) ≡ m a
    same e h = ap m (omega arith)

-- `memcpy` does the same where the blocks do not overlap.
pub memcpy_lem :
    (dest src n : ℕ) (m : Mem) (a : ℕ)
    → (dest + n ≤ src) ⊎ (src + n ≤ dest)
    → memcpy dest src n m a ≡ (if within dest n a then m (src + (a - dest)) else m a)
unfolding memcpy
memcpy_lem dest src n m a apart = ground (arith, copy_forward_lem dest src n 0 m a (omega arith))

-- Where the blocks do not overlap, `memcpy` and `memmove` leave the same memory.
pub memcpy-eq-memmove :
    (dest src n : ℕ) (m : Mem)
    → (dest + n ≤ src) ⊎ (src + n ≤ dest)
    → memcpy dest src n m ≡ memmove dest src n m
memcpy-eq-memmove dest src n m apart =
    fun_ext λ a. memcpy_lem dest src n m a apart ∙ sym (memmove_lem dest src n m a)
