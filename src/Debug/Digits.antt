-- ===== src/Debug/Digits.antt =====
-- The digits of an integer in `debug_print_int` of symphony/debug.c: first a number with the digits
-- in reverse order is built, in 64 bits, and then its digits are printed from the lowest on.
pub mod Laws
use orchestr_os.Base.{
  ℕ, zero, suc, ◌+◌, ◌*◌, ◌/◌, ◌%◌, Option, none, some, List, [], ◌∷◌, ◌==◌, if◌then◌else◌,
}
use orchestr_os.Base.Word.{u64}

-- The `do … while (n != 0)` loop: `revn` and `dcount` at its end. Each round divides `n` by the
-- base, so 64 rounds serve every 64-bit number; `none` means that the fuel ran out.
unfoldable pub reverse_digits : (fuel base n revn dcount : ℕ) → Option (ℕ × ℕ)
reverse_digits zero base n revn dcount = none
reverse_digits (suc fuel) base n revn dcount =
    let revn' = u64 (u64 (revn * base) + n % base) in
    let rest = reverse_digits fuel base (n / base) revn' (dcount + 1) in
    if n / base == 0 then some (revn', dcount + 1) else rest

-- The digits that the loop `for (i = 0; i < dcount; i++)` prints.
unfoldable pub emit_digits : (dcount base revn : ℕ) → List ℕ
emit_digits zero base revn = []
emit_digits (suc left) base revn = (revn % base) ∷ emit_digits left base (revn / base)
