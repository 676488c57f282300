-- ===== src/Base/Run.antt =====
-- The outcome of kernel code that changes a state and may never come back. `halt` is a panic or a
-- failed assertion, which prints its message and enters `arch_halt`.

-- The panics and assertions of the kernel, by their messages, the end of a loop's fuel, and
-- an access outside an array.
pub data Panic : Type 0 where
  bitmap_set_out_of_bounds : Panic
  bitmap_clear_out_of_bounds : Panic
  out_of_memory : Panic
  wrong_bitmap_size : Panic
  bitmap_not_allocated : Panic
  memmap_index_too_large : Panic
  no_kernel_page_table : Panic
  bootloader_not_supported : Panic
  pmm_init_failed : Panic
  arch_init_failed : Panic
  vmm_init_failed : Panic
  kheap_init_failed : Panic
  out_of_bounds : Panic
  out_of_fuel : Panic

pub data Run (S A : Type 0) : Type 0 where
  ok : A → S → Run S A
  halt : Panic → Run S A

-- The two ends of a run, told apart.
pub data Returns {S A : Type 0} (P : A → S → Type 0) : Run S A → Type 0 where
  returns : {a : A} {s : S} → P a s → Returns P (ok a s)

abbrev pub Cmd : Type 0 → Type 0 → Type 0
Cmd S A = S → Run S A

abbrev pub pure : {S A : Type 0} → A → Cmd S A
pure a s = ok a s

abbrev pub panic : {S A : Type 0} → Panic → Cmd S A
panic p s = halt p

abbrev pub followed_by : {S A B : Type 0} → Run S A → (A → Cmd S B) → Run S B
followed_by (ok a s) k = k a s
followed_by (halt p) k = halt p

infixl 5 ◌>>=◌ ◌>>◌
abbrev pub ◌>>=◌ : {S A B : Type 0} → Cmd S A → (A → Cmd S B) → Cmd S B
◌>>=◌ m k s = followed_by (m s) k

abbrev pub ◌>>◌ : {S B : Type 0} → Cmd S (Unit {0}) → Cmd S B → Cmd S B
◌>>◌ m k s = followed_by (m s) (λ _. k)

module _ {S A : Type 0} {P : A → S → Type 0} where
  pub Returns-bind :
      {B : Type 0} {Q : B → S → Type 0} {r : Run S A} {k : A → Cmd S B}
      → Returns P r
      → ((a : A) (s : S) → P a s → Returns Q (k a s))
      → Returns Q (followed_by r k)
  Returns-bind (returns p) next = next _ _ p

  pub Returns-mono :
      {Q : A → S → Type 0} {r : Run S A}
      → Returns P r
      → ((a : A) (s : S) → P a s → Q a s)
      → Returns Q r
  Returns-mono (returns p) weaken = returns (weaken _ _ p)
