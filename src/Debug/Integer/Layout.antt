-- ===== src/Debug/Integer/Layout.antt =====
-- What `debug_print_int` of symphony/debug.c prints, and what it counts.
use mathlib.Core.List.{map}
use orchestr_os.Base.{
  ℕ, suc, ◌+◌, ◌-◌, ◌^◌, ◌≤◌, ◌<◌, ◌≡◌, refl, ap, Bool, ◌&&◌, some, List, [], ◌∷◌, ◌++◌, arith, leb,
  if◌then◌else◌, le→not-ltb, Bool-cases, inl, inr,
}
use orchestr_os.Base.Lists.{length, length-append, length-replicate}
use orchestr_os.Base.Word.{sub64}
use orchestr_os.Debug.Digits.{emit_digits}
use orchestr_os.Debug.Digits.Laws.{IsNumeral, print_digits-IsNumeral}
use orchestr_os.Debug.Integer.Parts.{
  digit_char, Chars, IsSign, IsPrefix, sign_chars-IsSign, prefix_chars-IsPrefix, padding-Chars,
  shown-digits,
}
use orchestr_os.Debug.Integer.{Flags, Printed, sign_chars, prefix_chars, padding, layout, print_int}

-- The number whose digits are printed: the absolute value, for a negative one that counts as signed.
abbrev pub is_negative : (n : ℕ) → (sign : Bool) → Bool
is_negative n sign = leb (2 ^ 63) n && sign

abbrev pub magnitude : (n : ℕ) → (sign : Bool) → ℕ
magnitude n sign = if is_negative n sign then sub64 0 n else n

-- The output in its order: the sign, the prefix of the alternate form, and the numeral of the
-- magnitude, filled up to the width on its left or its right with zeroes or spaces.
pub record IsPrinted (n : ℕ) (f : Flags) (width base : ℕ) (sign upper : Bool) (p : Printed)
    : Type 0 where
  pub digits : List ℕ
  pub sign_text : List ℕ
  pub prefix_text : List ℕ
  pub fill : List ℕ
  pub numeral : IsNumeral base (magnitude n sign) digits
  pub is_sign : IsSign f (is_negative n sign) sign_text
  pub is_prefix : IsPrefix f base upper prefix_text
  pub fill_size : length fill ≡ width - length digits
  pub fill_char : Chars (if f.prepend_zeroes then b'0' else b' ') fill
  pub text :
      let shown = map (digit_char upper) digits in
      p.text ≡ sign_text ++ (prefix_text ++ (if f.left_align then shown ++ fill else fill ++ shown))
  pub chars : p.chars + length prefix_text ≡ length p.text

length-map : (f : ℕ → ℕ) (xs : List ℕ) → length (map f xs) ≡ length xs
length-map f [] = refl
length-map f (x ∷ xs) = ap suc (length-map f xs)

length-padding : (f : Flags) (width dcount : ℕ) → length (padding f width dcount) ≡ width - dcount
unfolding padding
length-padding f width dcount = ground (
  arith,
  length-replicate {A = ℕ} (width - dcount) b'0',
  length-replicate {A = ℕ} (width - dcount) b' ',
)

module _ (f : Flags) (width base : ℕ) (negative upper : Bool) (revn dcount : ℕ)
    (count : length (emit_digits dcount base revn) ≡ dcount) where
  abbrev out : Printed
  out = layout f width base negative upper revn dcount

  length-layout : out.chars + length (prefix_chars f base upper) ≡ length out.text
  unfolding layout sign_chars padding prefix_chars
  length-layout = elim (Bool-cases f.left_align) [
    | inl left ↦
        rw left (omega (arith, length-append {0}, length-map, length-padding f width dcount, count))
    | inr right ↦
        rw right
          (omega (arith, length-append {0}, length-map, length-padding f width dcount, count))
  ]

-- `debug_print_int`, for a base up to 16 in which the magnitude has at most `k + 1` digits and every
-- number of `k + 1` digits fits 64 bits, prints the sign, the prefix and the numeral of the number,
-- filled up to the width; it returns the count of all of these but the prefix.
pub print_int-IsPrinted :
    (n k : ℕ) (f : Flags) (width base : ℕ) (sign upper : Bool)
    → 0 < base
    → base ≤ 16
    → k < 64
    → magnitude n sign < base ^ suc k
    → base ^ suc k ≤ 2 ^ 64
    → (p : Printed) × (print_int n f width base sign upper ≡ some p)
      × IsPrinted n f width base sign upper p
unfolding print_int
print_int-IsPrinted n k f width base sign upper pos hex fuel_ok small fit =
    let (revn, dcount, loop, numeral, count) =
      print_digits-IsNumeral k base (magnitude n sign) pos fuel_ok small fit in
    (
      layout f width base (is_negative n sign) upper revn dcount,
      rw (le→not-ltb 16 base hex, loop),
      record {
        digits = emit_digits dcount base revn;
        numeral = numeral;
        sign_text = sign_chars f (is_negative n sign);
        prefix_text = prefix_chars f base upper;
        fill = padding f width dcount;
        is_sign = sign_chars-IsSign f (is_negative n sign);
        is_prefix = prefix_chars-IsPrefix f base upper;
        fill_size = rw count (length-padding f width dcount);
        fill_char = padding-Chars f width dcount;
        text =
            unfold layout in
            rw (← shown-digits upper base (emit_digits dcount base revn) hex numeral.below) refl;
        chars = length-layout f width base (is_negative n sign) upper revn dcount count;
      },
    )
