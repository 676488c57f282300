-- ===== src/Strings.antt =====
-- The string functions of symphony/string.c: strlen, strcmp, strncmp, over byte memory. A loop over
-- a string runs on fuel, and `none` means that the fuel ran out; the laws give enough of it.
-- `signed` tells whether `char` is signed, as it is on x86_64 and is not on aarch64 and riscv64.
mod Tests
pub mod Laws
use orchestr_os.Base.{
  ℕ, zero, suc, ◌+◌, ◌-◌, Bool, true, false, not, ◌&&◌, Option, none, some, ltb, ◌==◌,
  if◌then◌else◌,
}
use orchestr_os.Base.Int.{ℤ, pos, negsuc, ◌-ℤ◌}
use orchestr_os.Memory.{Mem}

-- The value of a `char` whose byte is `b`.
abbrev pub char_value : (signed : Bool) → ℕ → ℤ
char_value signed b = if signed && not (ltb b 128) then negsuc (255 - b) else pos b

strlen_loop : (fuel s count : ℕ) → Mem → Option ℕ
strlen_loop zero s count m = none
strlen_loop (suc fuel) s count m =
    let rest = strlen_loop fuel (s + 1) (count + 1) m in if m s == 0 then some count else rest

unfoldable pub strlen : (fuel s : ℕ) → Mem → Option ℕ
unfolding strlen_loop
strlen fuel s m = strlen_loop fuel s 0 m

unfoldable pub strcmp : (signed : Bool) → (fuel s1 s2 : ℕ) → Mem → Option ℤ
unfolding ◌-ℤ◌
strcmp signed zero s1 s2 m = none
strcmp signed (suc fuel) s1 s2 m =
    let rest = strcmp signed fuel (s1 + 1) (s2 + 1) m in
    if not (m s1 == 0) && (not (m s2 == 0) && m s1 == m s2)
    then rest
    else some (char_value signed (m s1) -ℤ char_value signed (m s2))

-- `n` falls with each round, so this loop needs no fuel.
unfoldable pub strncmp : (signed : Bool) → (n s1 s2 : ℕ) → Mem → ℤ
unfolding ◌-ℤ◌
strncmp signed zero s1 s2 m = pos 0
strncmp signed (suc n) s1 s2 m =
    let rest = strncmp signed n (s1 + 1) (s2 + 1) m in
    if not (m s1 == 0) && (not (m s2 == 0) && m s1 == m s2)
    then rest
    else char_value signed (m s1) -ℤ char_value signed (m s2)
