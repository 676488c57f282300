-- ===== src/Memory/Words.antt =====
-- Little-endian 64-bit words in byte memory.
use orchestr_os.Base.{ℕ, ◌+◌, ◌*◌, ◌/◌, ◌%◌, ◌^◌, ◌≤◌, ◌<◌, ◌≡◌, false, arith, ◌==◌, if◌then◌else◌}
use orchestr_os.Base.Word.{u64}
use orchestr_os.Memory.{Mem, within}

unfoldable pub load64 : Mem → ℕ → ℕ
load64 m p =
    m p
    + m (p + 1) * 2 ^ 8
    + m (p + 2) * 2 ^ 16
    + m (p + 3) * 2 ^ 24
    + m (p + 4) * 2 ^ 32
    + m (p + 5) * 2 ^ 40
    + m (p + 6) * 2 ^ 48
    + m (p + 7) * 2 ^ 56

unfoldable pub store64 : Mem → (p v : ℕ) → Mem
store64 m p v a =
    if a == p
    then v % 256
    else if a == p + 1
    then v / 2 ^ 8 % 256
    else if a == p + 2
    then v / 2 ^ 16 % 256
    else if a == p + 3
    then v / 2 ^ 24 % 256
    else if a == p + 4
    then v / 2 ^ 32 % 256
    else if a == p + 5
    then v / 2 ^ 40 % 256
    else if a == p + 6
    then v / 2 ^ 48 % 256
    else if a == p + 7
    then v / 2 ^ 56 % 256
    else m a

pub store64-bytes : (m : Mem) (p v : ℕ) → ((a : ℕ) → m a < 256) → (a : ℕ) → store64 m p v a < 256
unfolding store64
store64-bytes m p v bytes a = ground (arith, bytes a)

pub store64-outside : (m : Mem) (p v a : ℕ) → within p 8 a ≡ false → store64 m p v a ≡ m a
unfolding store64
store64-outside m p v a h = ground arith

store64-byte :
    (m : Mem) (p v : ℕ)
    → (store64 m p v p ≡ v % 256)
      × (store64 m p v (p + 1) ≡ v / 2 ^ 8 % 256)
      × (store64 m p v (p + 2) ≡ v / 2 ^ 16 % 256)
      × (store64 m p v (p + 3) ≡ v / 2 ^ 24 % 256)
      × (store64 m p v (p + 4) ≡ v / 2 ^ 32 % 256)
      × (store64 m p v (p + 5) ≡ v / 2 ^ 40 % 256)
      × (store64 m p v (p + 6) ≡ v / 2 ^ 48 % 256)
      × (store64 m p v (p + 7) ≡ v / 2 ^ 56 % 256)
unfolding store64
store64-byte m p v = (
  ground arith,
  ground arith,
  ground arith,
  ground arith,
  ground arith,
  ground arith,
  ground arith,
  ground arith,
)

-- What was stored is read back.
pub load64-store64 : (m : Mem) (p v : ℕ) → load64 (store64 m p v) p ≡ u64 v
unfolding load64
load64-store64 m p v = omega (arith, store64-byte m p v)

pub load64-same :
    (m m' : Mem) (p : ℕ) → ((a : ℕ) → p ≤ a → a < p + 8 → m' a ≡ m a) → load64 m' p ≡ load64 m p
unfolding load64
load64-same m m' p same = ground (
  arith,
  same p,
  same (p + 1),
  same (p + 2),
  same (p + 3),
  same (p + 4),
  same (p + 5),
  same (p + 6),
  same (p + 7),
)
