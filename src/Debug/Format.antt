-- ===== src/Debug/Format.antt =====
-- `debug_vprintf` of symphony/debug.c. A format string is the list of its characters, and a place in
-- it the list of those that are left; a read at or behind the end gives the 0 that ends the string.
-- The arguments are 64-bit slots, taken in order; `string_at` gives the text that a pointer points to.
pub mod Total
pub mod Plain
use orchestr_os.Base.{
  ℕ, zero, suc, ◌+◌, ◌-◌, ◌*◌, ◌%◌, ◌^◌, Bool, true, false, not, ◌&&◌, ◌||◌, Option, none, some,
  List, [], ◌∷◌, ◌++◌, ltb, leb, ◌==◌, if◌then◌else◌,
}
use orchestr_os.Base.Lists.{length}
use orchestr_os.Base.Text.{codes}
use orchestr_os.Debug.Integer.{Flags, Printed, print_int}

-- LENGTH_*
pub data LengthModifier : Type 0 where
  int long long_long size intmax ptrdiff ptr : LengthModifier

-- `fmt[i]` and `i++`
abbrev pub head : List ℕ → ℕ
head [] = 0
head (c ∷ cs) = c

abbrev pub tail : List ℕ → List ℕ
tail [] = []
tail (c ∷ cs) = cs

abbrev pub no_flags : Flags
no_flags = record {
  left_align = false;
  plus_for_positive = false;
  space_for_positive = false;
  prepend_zeroes = false;
  thousands_grouping = false;
  special_hash = false;
}

-- The switch of the flag loop: the flag that a character sets, if it was not set before.
unfoldable pub new_flag : Flags → ℕ → Option Flags
new_flag f c =
    if c == b'-' && not f.left_align
    then some (record f { left_align = true })
    else if c == b'+' && not f.plus_for_positive
    then some (record f { plus_for_positive = true })
    else if c == b' ' && not f.space_for_positive
    then some (record f { space_for_positive = true })
    else if c == b'0' && not f.prepend_zeroes
    then some (record f { prepend_zeroes = true })
    else if c == 0x27 && not f.thousands_grouping
    then some (record f { thousands_grouping = true })
    else if c == b'#' && not f.special_hash
    then some (record f { special_hash = true })
    else none

-- `do { … } while (flags != prevflags)`: the loop stops at the first character that changes nothing.
unfoldable pub parse_flags : Flags → List ℕ → Flags × List ℕ
parse_flags f [] = (f, [])
parse_flags f (c ∷ cs) = elim (new_flag f c) [ some f' ↦ parse_flags f' cs | none ↦ (f, c ∷ cs) ]

-- IS_DIGIT. The width is an `int`: one of more than 2^31 - 1 overflows, which C leaves undefined.
abbrev pub is_digit : ℕ → Bool
is_digit c = leb b'0' c && leb c b'9'

unfoldable pub parse_width : ℕ → List ℕ → ℕ × List ℕ
parse_width width [] = (width, [])
parse_width width (c ∷ cs) = elim (is_digit c) [
  | true ↦ parse_width (width * 10 + (c - b'0')) cs
  | false ↦ (width, c ∷ cs)
]

-- MAX_WIDTH
abbrev pub max_width : ℕ
max_width = 256

abbrev clamp_width : ℕ → ℕ
clamp_width width = if ltb max_width width then max_width else width

unfoldable pub parse_length : List ℕ → LengthModifier × List ℕ
parse_length s =
    let c = head s in
    let next = head (tail s) in
    if c == b'h'
    then (int, if next == b'h' then tail (tail s) else tail s)
    else if c == b'l'
    then (if next == b'l' then (long_long, tail (tail s)) else (long, tail s))
    else if c == b'z'
    then (size, tail s)
    else if c == b'j'
    then (intmax, tail s)
    else if c == b't'
    then (ptrdiff, tail s)
    else if c == b'p' || c == b's'
    then (ptr, s)
    else (int, s)

-- `(uintmax_t)(int)`, and `(uintmax_t)(unsigned int)`, of the low 32 bits of a slot.
abbrev pub from_int : ℕ → ℕ
from_int v = let w = v % 2 ^ 32 in if ltb w (2 ^ 31) then w else w + (2 ^ 64 - 2 ^ 32)

abbrev pub from_unsigned : ℕ → ℕ
from_unsigned v = v % 2 ^ 32

abbrev pub narrow : LengthModifier → (ℕ → ℕ) → ℕ → ℕ
narrow int cut v = cut v
narrow m cut v = v

abbrev is_signed : ℕ → Bool
is_signed c = c == b'd' || c == b'i'

abbrev is_unsigned : ℕ → Bool
is_unsigned c = c == b'u' || c == b'x' || c == b'X' || c == b'o' || c == b'c'

-- "Get the value": it, and the position behind it in the arguments.
unfoldable pub fetch : LengthModifier → (c : ℕ) → (args : ℕ → ℕ) → (pos : ℕ) → ℕ × ℕ
fetch m c args pos =
    if is_signed c
    then (narrow m from_int (args pos), pos + 1)
    else if is_unsigned c
    then (narrow m from_unsigned (args pos), pos + 1)
    else if c == b'p' || c == b's'
    then (args pos, pos + 1)
    else (0, pos)

abbrev printed : List ℕ → ℕ → Option Printed
printed text chars = some (record { text = text; chars = chars })

-- "Do the printing". `debug_putchar` returns its character, which is added to the count for `%`.
unfoldable pub convert : (string_at : ℕ → List ℕ) → Flags → (width c value : ℕ) → Option Printed
convert string_at f width c value =
    if c == b'%'
    then printed (codes "%") b'%'
    else if is_signed c
    then print_int value f width 10 true false
    else if c == b'u'
    then print_int value f width 10 false false
    else if c == b'x'
    then print_int value f width 16 false false
    else if c == b'X'
    then print_int value f width 16 false true
    else if c == b'p'
    then print_int value f width 16 false true
    else if c == b'o'
    then print_int value f width 8 false false
    else if c == b's'
    then (if value == 0
        then printed (codes "(null)") (length (codes "(null)"))
        else printed (string_at value) (length (string_at value)))
    else if c == b'c'
    then printed ((value % 256) ∷ []) 1
    else printed [] 0

-- A conversion, read from behind its `%`: what it prints, the position in the arguments behind it,
-- and the place of its last character.
pub record Conversion : Type 0 where
  pub output : Option Printed
  pub position : ℕ
  pub place : List ℕ

unfoldable pub conversion :
    (string_at : ℕ → List ℕ) → (args : ℕ → ℕ) → (pos : ℕ) → List ℕ → Conversion
conversion string_at args pos cs =
    let (f, at_width) = parse_flags no_flags cs in
    let (width, at_length) = parse_width 0 at_width in
    let (m, at) = parse_length at_length in
    let (value, pos') = fetch m (head at) args pos in
    record {
      output = convert string_at f (clamp_width width) (head at) value;
      position = pos';
      place = at;
    }

abbrev pub printed_then : Option Printed → Option Printed → Option Printed
printed_then none r = none
printed_then (some p) none = none
printed_then (some p) (some q) =
    some (record { text = p.text ++ q.text; chars = p.chars + q.chars })

-- The loop over the format string. `none` means that the fuel ran out.
unfoldable pub format :
    (string_at : ℕ → List ℕ) → (args : ℕ → ℕ) → (fuel pos : ℕ) → List ℕ → Option Printed
format string_at args zero pos s = none
format string_at args (suc fuel) pos [] = printed [] 0
format string_at args (suc fuel) pos (c ∷ cs) = elim (c == b'%') [
  | false ↦ printed_then (printed (c ∷ []) 1) (format string_at args fuel pos cs)
  | true ↦
      let v = conversion string_at args pos cs in
      printed_then v.output (format string_at args fuel v.position (tail v.place))
]

unfoldable pub vprintf : (string_at : ℕ → List ℕ) → List ℕ → (args : ℕ → ℕ) → Option Printed
vprintf string_at fmt args = format string_at args (suc (length fmt)) 0 fmt
