-- ===== src/Debug/Tests.antt =====
-- The kernel's formatted output at concrete format strings and numbers.
use orchestr_os.Base.{ℕ, ◌*◌, ◌-◌, ◌^◌, ◌≡◌, refl, true, false, some, List, [], arith}
use orchestr_os.Base.Lists.{replicate}
use orchestr_os.Base.Text.{codes}
use orchestr_os.Debug.Digits.{reverse_digits, emit_digits}
use orchestr_os.Debug.Integer.{Printed, print_int, layout, sign_chars, prefix_chars, padding}
use orchestr_os.Debug.Integer.Layout.{IsPrinted, print_int-IsPrinted}
use orchestr_os.Debug.Format.{
  no_flags, vprintf, format, conversion, parse_flags, new_flag, parse_width, parse_length, fetch,
  convert,
}
use orchestr_os.Debug.Format.Total.{vprintf-Ends}
use orchestr_os.Debug.Format.Plain.{vprintf-plain, percents, vprintf-percents}

abbrev no_strings : ℕ → List ℕ
no_strings p = []

abbrev arguments : ℕ → ℕ
arguments i = 0xbeef

-- "%#010llx", as the exception handler prints a register, but for the width.
abbrev register : List ℕ
register = codes "%#010llx!"

print_register :
    vprintf no_strings register arguments
    ≡ some (record { text = codes "0x000000beef!"; chars = 11 })
unfolding vprintf format conversion parse_flags new_flag parse_width parse_length fetch convert
    print_int layout sign_chars prefix_chars padding reverse_digits emit_digits
print_register = refl

-- The largest `unsigned long long` in decimal: the reversed digits do not fit 64 bits.
print_largest :
    print_int (2 ^ 64 - 1) no_flags 0 10 false false
    ≡ some (record { text = codes "94216652698520122741"; chars = 20 })
unfolding print_int layout sign_chars prefix_chars padding reverse_digits emit_digits
print_largest = refl

print_negative :
    print_int (2 ^ 64 - 42) no_flags 6 10 true false
    ≡ some (record { text = codes "-    42"; chars = 7 })
unfolding print_int layout sign_chars prefix_chars padding reverse_digits emit_digits
print_negative = refl

print_int-IsPrinted_example :
    (p : Printed) × (print_int 0xbeef no_flags 8 16 false true ≡ some p)
    × IsPrinted 0xbeef no_flags 8 16 false true p
print_int-IsPrinted_example =
    print_int-IsPrinted 0xbeef 15 no_flags 8 16 false true (omega arith) (omega arith) (omega arith)
      (omega arith) (omega arith)

vprintf-Ends_example : (p : Printed) × (vprintf no_strings register arguments ≡ some p)
vprintf-Ends_example = vprintf-Ends no_strings register arguments (λ i. omega arith)

vprintf-plain_example :
    vprintf no_strings (codes "ok\n") arguments ≡ some (record { text = codes "ok\n"; chars = 3 })
vprintf-plain_example = vprintf-plain no_strings (codes "ok\n") arguments (refl, (refl, (refl, tt)))

vprintf-percents_example :
    vprintf no_strings (percents 3) arguments
    ≡ some (record { text = replicate 3 b'%'; chars = 37 * 3 })
vprintf-percents_example = vprintf-percents no_strings arguments 3
