-- ===== src/Pmm/Marks.antt =====
-- What writes to the bitmap do to the pages: to one page, and by the loops over a range of pages.
use orchestr_os.Base.{
  ℕ, zero, suc, ◌+◌, ◌*◌, ◌/◌, ◌%◌, ◌≤◌, ◌<◌, ◌≡◌, refl, ap, ◌∙◌, Bool, true, false, arith, ◌==◌,
  if◌then◌else◌, lt→ltb,
}
use native.Mathlib.Decide.{ℕ_discrete}
use orchestr_os.Base.Bits.{
  bit_is_set, set_bit, clear_bit, bit_is_set-set_bit, bit_is_set-clear_bit, set_bit-lt,
  clear_bit-lt,
}
use orchestr_os.Base.Run.{Returns, returns, Returns-bind, Returns-mono}
use orchestr_os.Memory.{store, within}
use orchestr_os.Pmm.State.{
  Pmm, bitmap_set, bitmap_clear, bitmap_set_range, bitmap_clear_range, is_used,
}

-- `s'` is `s` with the `n` pages from `start` on made used or free, and with nothing else changed.
pub record Marked (s : Pmm) (start n : ℕ) (value : Bool) (s' : Pmm) : Type 0 where
  pub bitmap : s'.bitmap ≡ s.bitmap
  pub bitmap_size : s'.bitmap_size ≡ s.bitmap_size
  pub bytes : (a : ℕ) → s'.memory a < 256
  pub used : (k : ℕ) → is_used s' k ≡ (if within start n k then value else is_used s k)
  pub outside : (a : ℕ) → within s.bitmap s.bitmap_size a ≡ false → s'.memory a ≡ s.memory a

-- The pages after one byte of the bitmap was written so that the bit of `page` is `value` and the
-- other bits of the byte are as before.
is_used-store :
    (s : Pmm) (page : ℕ) (value : Bool) (byte : ℕ)
    → ((j : ℕ)
        → j < 8
        → bit_is_set byte j
          ≡ (if page % 8 == j then value else bit_is_set (s.memory (s.bitmap + page / 8)) j))
    → (k : ℕ)
    → is_used (record s { memory = store s.memory (s.bitmap + page / 8) byte }) k
      ≡ (if within page 1 k then value else is_used s k)
unfolding is_used store
is_used-store s page value byte bits k = elim (ℕ_discrete (page / 8) (k / 8)) [
  | yes e ↦
      ground (
        arith,
        bits (k % 8) (omega arith),
        ap (λ t. bit_is_set (s.memory (s.bitmap + t)) (k % 8)) e,
      )
  | no e ↦ ground arith
]

module _ (s : Pmm) (bytes : (a : ℕ) → s.memory a < 256) (page : ℕ)
    (fits : page / 8 < s.bitmap_size) where
  abbrev byte : ℕ
  byte = s.memory (s.bitmap + page / 8)

  pub bitmap_set-Marked : Returns (λ _ s'. Marked s page 1 true s') (bitmap_set page s)
  unfolding bitmap_set store
  bitmap_set-Marked = rw (lt→ltb _ _ fits) (
      returns (record {
        bitmap = refl;
        bitmap_size = refl;
        bytes = λ a. ground (arith, bytes a, set_bit-lt byte (page % 8) (bytes _));
        used =
            is_used-store s page true (set_bit byte (page % 8))
              (λ j h. ground (arith, bit_is_set-set_bit byte (page % 8) j (bytes _)));
        outside = λ a h. ground arith;
      }))

  bitmap_clear-Marked : Returns (λ _ s'. Marked s page 1 false s') (bitmap_clear page s)
  unfolding bitmap_clear store
  bitmap_clear-Marked = rw (lt→ltb _ _ fits) (
      returns (record {
        bitmap = refl;
        bitmap_size = refl;
        bytes = λ a. ground (arith, bytes a, clear_bit-lt byte (page % 8) (bytes _));
        used =
            is_used-store s page false (clear_bit byte (page % 8))
              (λ j h. ground (arith, bit_is_set-clear_bit byte (page % 8) j (bytes _)));
        outside = λ a h. ground arith;
      }))

Marked-suc :
    {s t u : Pmm} {value : Bool} (i left : ℕ)
    → Marked s i 1 value t
    → Marked t (i + 1) left value u
    → Marked s i (suc left) value u
Marked-suc i left one rest = record {
  bitmap = rest.bitmap ∙ one.bitmap;
  bitmap_size = rest.bitmap_size ∙ one.bitmap_size;
  bytes = rest.bytes;
  used = λ k. ground (arith, one.used k, rest.used k);
  outside = λ a h. ground (arith, one.outside a, rest.outside a);
}

Marked-zero : (s : Pmm) (i : ℕ) (value : Bool) → ((a : ℕ) → s.memory a < 256) → Marked s i 0 value s
Marked-zero s i value bytes = record {
  bitmap = refl;
  bitmap_size = refl;
  bytes = bytes;
  used = λ k. ground arith;
  outside = λ a h. refl;
}

-- The loop that marks pages as used, on pages that the bitmap has: no assertion fails.
pub bitmap_set_range-Marked :
    (left i : ℕ) (s : Pmm)
    → ((a : ℕ) → s.memory a < 256)
    → i + left ≤ s.bitmap_size * 8
    → Returns (λ _ s'. Marked s i left true s') (bitmap_set_range left i s)
unfolding bitmap_set_range
bitmap_set_range-Marked zero i s bytes fits = returns (Marked-zero s i true bytes)
bitmap_set_range-Marked (suc left) i s bytes fits =
    Returns-bind (bitmap_set-Marked s bytes i (omega arith)) λ _ t one.
      Returns-mono
        (bitmap_set_range-Marked left (i + 1) t one.bytes (rw one.bitmap_size (omega arith)))
        λ _ u rest. Marked-suc i left one rest

pub bitmap_clear_range-Marked :
    (left i : ℕ) (s : Pmm)
    → ((a : ℕ) → s.memory a < 256)
    → i + left ≤ s.bitmap_size * 8
    → Returns (λ _ s'. Marked s i left false s') (bitmap_clear_range left i s)
unfolding bitmap_clear_range
bitmap_clear_range-Marked zero i s bytes fits = returns (Marked-zero s i false bytes)
bitmap_clear_range-Marked (suc left) i s bytes fits =
    Returns-bind (bitmap_clear-Marked s bytes i (omega arith)) λ _ t one.
      Returns-mono
        (bitmap_clear_range-Marked left (i + 1) t one.bytes (rw one.bitmap_size (omega arith)))
        λ _ u rest. Marked-suc i left one rest
