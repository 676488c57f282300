-- ===== src/Pmm/State.antt =====
-- The state of symphony/mm/pmm.c, its memory included, and the two operations on a bit.
use orchestr_os.Base.{ℕ, zero, suc, ◌+◌, ◌/◌, ◌%◌, Bool, ltb, if◌then◌else◌}
use orchestr_os.Base.Bits.{bit_is_set, set_bit, clear_bit}
use orchestr_os.Base.Run.{
  ok, halt, Cmd, pure, ◌>>◌, bitmap_set_out_of_bounds, bitmap_clear_out_of_bounds,
}
use orchestr_os.Memory.{Mem, store}

-- `bitmap` and `bitmapSize`, and the memory that the bitmap and the pages lie in.
pub record Pmm : Type 0 where
  pub memory : Mem
  pub bitmap : ℕ
  pub bitmap_size : ℕ

unfoldable pub bitmap_set : ℕ → Cmd Pmm (Unit {0})
bitmap_set page s =
    let a = s.bitmap + page / 8 in
    if ltb (page / 8) s.bitmap_size
    then ok tt (record s { memory = store s.memory a (set_bit (s.memory a) (page % 8)) })
    else halt bitmap_set_out_of_bounds

unfoldable pub bitmap_clear : ℕ → Cmd Pmm (Unit {0})
bitmap_clear page s =
    let a = s.bitmap + page / 8 in
    if ltb (page / 8) s.bitmap_size
    then ok tt (record s { memory = store s.memory a (clear_bit (s.memory a) (page % 8)) })
    else halt bitmap_clear_out_of_bounds

-- The bit of a page.
unfoldable pub is_used : Pmm → ℕ → Bool
is_used s page = bit_is_set (s.memory (s.bitmap + page / 8)) (page % 8)

-- `for (i = first; i < end; i++) pmm_bitmap_set(i)`, with the rounds left.
unfoldable pub bitmap_set_range : (left i : ℕ) → Cmd Pmm (Unit {0})
bitmap_set_range zero i = pure tt
bitmap_set_range (suc left) i = bitmap_set i >> bitmap_set_range left (i + 1)

-- `for (i = first; i < end; i++) pmm_bitmap_clear(i)`, with the rounds left.
unfoldable pub bitmap_clear_range : (left i : ℕ) → Cmd Pmm (Unit {0})
bitmap_clear_range zero i = pure tt
bitmap_clear_range (suc left) i = bitmap_clear i >> bitmap_clear_range left (i + 1)
