-- ===== src/Memory/Order.antt =====
-- The result of memcmp of symphony/string.c.
use orchestr_os.Base.{
  ℕ, zero, suc, ◌+◌, ◌≤◌, ◌<◌, ◌≡◌, ◌≢◌, refl, ap, ◌↔◌, arith, ltb, if◌then◌else◌,
}
use native.Mathlib.Decide.{ℕ_discrete}
use orchestr_os.Base.Int.{pos, negsuc}
use orchestr_os.Memory.{Mem, compare_from, memcmp}

-- The two blocks agree at the indices from `i` up to `j`.
abbrev pub Agree : Mem → (s1 s2 i j : ℕ) → Type 0
Agree m s1 s2 i j = (k : ℕ) → i ≤ k → k < j → m (s1 + k) ≡ m (s2 + k)

module _ (s1 s2 : ℕ) (m : Mem) where
  compare_from-Agree :
      (left i : ℕ) → Agree m s1 s2 i (i + left) → compare_from s1 s2 left i m ≡ pos 0
  unfolding compare_from
  compare_from-Agree zero i h = refl
  compare_from-Agree (suc left) i h = ground (
    arith,
    h i (omega arith) (omega arith),
    compare_from-Agree left (i + 1) (λ k p q. h k (omega arith) (omega arith)),
  )

  -- At the first index `k` where the blocks differ, the smaller byte decides.
  compare_from-differ :
      (left i k : ℕ)
      → i ≤ k
      → k < i + left
      → Agree m s1 s2 i k
      → m (s1 + k) ≢ m (s2 + k)
      → compare_from s1 s2 left i m ≡ (if ltb (m (s1 + k)) (m (s2 + k)) then negsuc 0 else pos 1)
  unfolding compare_from
  compare_from-differ zero i k p q h ne = absurd (omega arith)
  compare_from-differ (suc left) i k p q h ne = elim (ℕ_discrete i k) [
    | yes e ↦ ground (arith, ap (λ t. m (s1 + t)) e, ap (λ t. m (s2 + t)) e)
    | no e ↦ ground (
      arith,
      h i (omega arith) (omega arith),
      compare_from-differ left (i + 1) k (omega arith) (omega arith)
          (λ t a b. h t (omega arith) (omega arith)) ne,
    )
  ]

  compare_from-zero :
      (left i : ℕ) → compare_from s1 s2 left i m ≡ pos 0 → Agree m s1 s2 i (i + left)
  unfolding compare_from
  compare_from-zero zero i h k p q = absurd (omega arith)
  compare_from-zero (suc left) i h k p q = elim (ℕ_discrete i k) [
    | yes e ↦ ground (arith, ap (λ t. m (s1 + t)) e, ap (λ t. m (s2 + t)) e)
    | no e ↦ compare_from-zero left (i + 1) (ground arith) k (omega arith) (omega arith)
  ]

  -- `memcmp` returns 0 exactly when the two blocks agree on all `n` bytes.
  pub memcmp_zero_iff : (n : ℕ) → (memcmp s1 s2 n m ≡ pos 0) ↔ Agree m s1 s2 0 n
  unfolding memcmp
  memcmp_zero_iff n = (
    (λ e k p q. compare_from-zero n 0 e k p (omega arith)),
    (λ h. compare_from-Agree n 0 (λ k p q. h k p (omega arith))),
  )

  -- Where they differ, the first byte that differs decides, as an unsigned number: -1 if the one of
  -- the first block is smaller, and 1 if it is larger.
  pub memcmp-first_difference :
      (n k : ℕ)
      → k < n
      → Agree m s1 s2 0 k
      → m (s1 + k) ≢ m (s2 + k)
      → memcmp s1 s2 n m ≡ (if ltb (m (s1 + k)) (m (s2 + k)) then negsuc 0 else pos 1)
  unfolding memcmp
  memcmp-first_difference n k lt same ne =
      compare_from-differ n 0 k (omega arith) (omega arith) same ne
