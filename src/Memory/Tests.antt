-- ===== src/Memory/Tests.antt =====
-- The memory functions on a memory that holds the low byte of each address.
use orchestr_os.Base.{◌+◌, ◌-◌, ◌%◌, ◌≡◌, ◌↔◌, refl, inr, arith, if◌then◌else◌, ltb}
use orchestr_os.Base.Int.{pos, negsuc}
use orchestr_os.Memory.{Mem, store, within, memcpy, memmove, memcmp}
use orchestr_os.Memory.Block.{memmove_lem, memcpy-eq-memmove}
use orchestr_os.Memory.Order.{Agree, memcmp_zero_iff, memcmp-first_difference}

abbrev counting : Mem
counting a = a % 256

-- An overlapping move upwards.
move_up : memmove 12 10 4 counting 15 ≡ 13
unfolding memmove store
move_up = refl

copy_up : memcpy 12 10 4 counting 15 ≡ 11
unfolding memcpy store
copy_up = refl

compare_words : memcmp 10 266 3 counting ≡ pos 0
unfolding memcmp
compare_words = refl

memmove_lem_example :
    memmove 12 10 4 counting 15 ≡ (if within 12 4 15 then counting (10 + (15 - 12)) else 15)
memmove_lem_example = memmove_lem 12 10 4 counting 15

memcpy-eq-memmove_example : memcpy 20 10 4 counting ≡ memmove 20 10 4 counting
memcpy-eq-memmove_example = memcpy-eq-memmove 20 10 4 counting (inr (omega arith))

memcmp_zero_iff_example : (memcmp 10 266 3 counting ≡ pos 0) ↔ Agree counting 10 266 0 3
memcmp_zero_iff_example = memcmp_zero_iff 10 266 counting 3

memcmp-first_difference_example :
    memcmp 10 20 3 counting
    ≡ (if ltb (counting (10 + 0)) (counting (20 + 0)) then negsuc 0 else pos 1)
memcmp-first_difference_example =
    memcmp-first_difference 10 20 counting 3 0 (omega arith) (λ k p q. absurd (omega arith))
      (λ e. cc e)
