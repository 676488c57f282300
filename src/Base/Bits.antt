-- ===== src/Base/Bits.antt =====
-- The bits of a byte, most significant first, as the page bitmap numbers them. The facts range
-- over 256 bytes and 8 positions, and are checked by evaluation.
use Prim.Native.Nat.{ℕ, zero, suc, ◌-◌, ◌/◌, ◌^◌, ◌<◌, bit_and, bit_or}
use mathlib.Core.Path.{◌≡◌, refl}
use mathlib.Core.Bool.{Bool, true, not, ◌&&◌, ◌||◌}
use native.Mathlib.Omega.{arith}
use orchestr_os.Base.Tests.{◌==◌, ltb, if◌then◌else◌, ltb→lt}

pub all_below : ℕ → (ℕ → Bool) → Bool
all_below zero p = true
all_below (suc n) p = p n && all_below n p

pub all_below_sound : (n : ℕ) (p : ℕ → Bool) → all_below n p ≡ true → (x : ℕ) → x < n → p x ≡ true
unfolding all_below
all_below_sound zero p h x lt = absurd (omega arith)
all_below_sound (suc n) p h x lt = ground (arith, all_below_sound n p _ x)

-- `0b10000000 >> j`
abbrev pub bit_mask : ℕ → ℕ
bit_mask j = 0x80 / 2 ^ j

-- `(b & (0b10000000 >> j)) != 0`
unfoldable pub bit_is_set : ℕ → ℕ → Bool
bit_is_set b j = not (bit_and b (bit_mask j) == 0)

-- `(uint8_t)(b | (0b10000000 >> j))`
unfoldable pub set_bit : ℕ → ℕ → ℕ
set_bit b j = bit_or b (bit_mask j)

-- `(uint8_t)(b & ~(0b10000000 >> j))`
unfoldable pub clear_bit : ℕ → ℕ → ℕ
clear_bit b j = bit_and b (0xff - bit_mask j)

-- Equality of Booleans, as a test.
abbrev same_bool : Bool → Bool → Bool
same_bool a b = if a then b else not b

same_bool_sound : (a b : Bool) → same_bool a b ≡ true → a ≡ b
same_bool_sound a b h = ground arith

-- A test of every byte, and of every byte and two positions.
abbrev every_byte : (ℕ → Bool) → Bool
every_byte p = all_below 256 p

abbrev every_bit_pair : (ℕ → ℕ → ℕ → Bool) → Bool
every_bit_pair p = every_byte (λ b. all_below 8 (λ j. all_below 8 (λ k. p b j k)))

every_bit_pair_sound :
    (p : ℕ → ℕ → ℕ → Bool)
    → every_bit_pair p ≡ true
    → (b j k : ℕ) → b < 256
    → j < 8
    → k < 8
    → p b j k ≡ true
every_bit_pair_sound p h b j k hb hj hk =
    all_below_sound 8 (p b j)
      (all_below_sound 8 (λ j. all_below 8 (p b j)) (all_below_sound 256 _ h b hb) j hj) k hk

set_table :
    every_bit_pair (λ b j k.
      same_bool (bit_is_set (set_bit b j) k) (j == k || bit_is_set b k) && ltb (set_bit b j) 256)
    ≡ true
unfolding all_below bit_is_set set_bit
set_table = refl

clear_table :
    every_bit_pair (λ b j k.
      same_bool (bit_is_set (clear_bit b j) k) (not (j == k) && bit_is_set b k)
      && ltb (clear_bit b j) 256)
    ≡ true
unfolding all_below bit_is_set clear_bit
clear_table = refl

full_table : all_below 8 (λ k. bit_is_set 0xff k) ≡ true
unfolding all_below bit_is_set
full_table = refl

and_split : (a b : Bool) → (a && b) ≡ true → (a ≡ true) × (b ≡ true)
and_split a b h = ground arith

pub bit_is_set-set_bit :
    (b j k : ℕ) → b < 256 → j < 8 → k < 8 → bit_is_set (set_bit b j) k ≡ (j == k || bit_is_set b k)
bit_is_set-set_bit b j k hb hj hk =
    same_bool_sound _ _ (and_split _ _ (every_bit_pair_sound _ set_table b j k hb hj hk)).0

pub set_bit-lt : (b j : ℕ) → b < 256 → j < 8 → set_bit b j < 256
set_bit-lt b j hb hj =
    ltb→lt _ _ (and_split _ _ (every_bit_pair_sound _ set_table b j 0 hb hj (omega arith))).1

pub bit_is_set-clear_bit :
    (b j k : ℕ)
    → b < 256
    → j < 8
    → k < 8
    → bit_is_set (clear_bit b j) k ≡ (not (j == k) && bit_is_set b k)
bit_is_set-clear_bit b j k hb hj hk =
    same_bool_sound _ _ (and_split _ _ (every_bit_pair_sound _ clear_table b j k hb hj hk)).0

pub clear_bit-lt : (b j : ℕ) → b < 256 → j < 8 → clear_bit b j < 256
clear_bit-lt b j hb hj =
    ltb→lt _ _ (and_split _ _ (every_bit_pair_sound _ clear_table b j 0 hb hj (omega arith))).1

pub bit_is_set-full : (k : ℕ) → k < 8 → bit_is_set 0xff k ≡ true
bit_is_set-full k h = all_below_sound 8 _ full_table k h
