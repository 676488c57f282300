-- ===== src/Debug/Integer.antt =====
-- `debug_print_int` of symphony/debug.c.
pub mod Parts
pub mod Layout
use orchestr_os.Base.{
  ℕ, ◌+◌, ◌-◌, ◌^◌, Bool, true, false, not, ◌&&◌, Option, none, some, List, [], ◌∷◌, ◌++◌, ltb, leb,
  ◌==◌, if◌then◌else◌,
}
use mathlib.Core.List.{map}
use orchestr_os.Base.Lists.{length, get_or, replicate}
use orchestr_os.Base.Text.{codes}
use orchestr_os.Base.Word.{sub64}
use orchestr_os.Debug.Digits.{reverse_digits, emit_digits}

-- The set of the flags LEFT_ALIGN … SPECIAL_HASH.
pub record Flags : Type 0 where
  pub left_align : Bool
  pub plus_for_positive : Bool
  pub space_for_positive : Bool
  pub prepend_zeroes : Bool
  pub thousands_grouping : Bool
  pub special_hash : Bool

-- What a call prints, and the count that it returns.
pub record Printed : Type 0 where
  pub text : List ℕ
  pub chars : ℕ

abbrev pub digit_chars : Bool → List ℕ
digit_chars true = codes "0123456789ABCDEF"
digit_chars false = codes "0123456789abcdef"

-- The sign, counted.
unfoldable pub sign_chars : Flags → (negative : Bool) → List ℕ
sign_chars f negative =
    if negative
    then codes "-"
    else if f.plus_for_positive
    then codes "+"
    else if f.space_for_positive
    then codes " "
    else []

-- The prefix of the alternate form, which is not counted.
unfoldable pub prefix_chars : Flags → (base : ℕ) → (upper : Bool) → List ℕ
prefix_chars f base upper =
    if base == 8 && f.special_hash
    then codes "0"
    else if base == 16 && f.special_hash
    then (if upper then codes "0X" else codes "0x")
    else []

-- The characters that fill up to the width.
unfoldable pub padding : Flags → (width dcount : ℕ) → List ℕ
padding f width dcount =
    if ltb dcount width
    then replicate (width - dcount) (if f.prepend_zeroes then b'0' else b' ')
    else []

-- The part that prints, for the digits that the first loop has counted.
unfoldable pub layout :
    Flags → (width base : ℕ) → (negative upper : Bool) → (revn dcount : ℕ) → Printed
layout f width base negative upper revn dcount =
    let sign = sign_chars f negative in
    let fill = padding f width dcount in
    let digits = map (λ d. get_or (digit_chars upper) d 0) (emit_digits dcount base revn) in
    record {
      text =
          sign
          ++ (prefix_chars f base upper
              ++ (if f.left_align then digits ++ fill else fill ++ digits));
      chars = length sign + length fill + length digits;
    }

-- `none` means that the fuel of the first loop ran out.
unfoldable pub print_int : (n : ℕ) → Flags → (width base : ℕ) → (sign upper : Bool) → Option Printed
print_int n f width base sign upper =
    let negative = leb (2 ^ 63) n && sign in
    let magnitude = if negative then sub64 0 n else n in
    if ltb 16 base
    then some (record { text = []; chars = 0 })
    else elim (reverse_digits 64 base magnitude 0 0) [
      | none ↦ none
      | some (revn, dcount) ↦ some (layout f width base negative upper revn dcount)
    ]
