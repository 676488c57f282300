-- ===== src/Debug/Format/Total.antt =====
-- `debug_vprintf` of symphony/debug.c always comes to its end: the loop over the digits within 64
-- rounds, and the loop over the format string within one round for each of its characters.
use native.Mathlib.Nat.{pow-suc, div-mul-le_self}
use orchestr_os.Base.{
  ℕ, zero, suc, ◌+◌, ◌-◌, ◌*◌, ◌/◌, ◌^◌, ◌≤◌, ◌<◌, ◌≡◌, refl, inl, inr, Bool, true, false, Option,
  none, some, List, [], ◌∷◌, arith, ◌==◌, Bool-cases, Option-cases, is_some, of_is_some,
}
use orchestr_os.Base.Lists.{length}
use orchestr_os.Debug.Digits.{reverse_digits}
use orchestr_os.Debug.Integer.{Flags, Printed, print_int}
use orchestr_os.Debug.Integer.Layout.{magnitude}
use orchestr_os.Debug.Format.{
  LengthModifier, tail, no_flags, new_flag, parse_flags, parse_width, parse_length, fetch, convert,
  conversion, printed_then, format, vprintf,
}

-- There is a result.
abbrev Ends {ℓ} : {A : Type ℓ} → Option A → Type 0
Ends r = is_some r ≡ true

div-halves : (n base : ℕ) → 2 ≤ base → 2 * (n / base) ≤ n
div-halves n base two = omega (arith, div-mul-le_self n base, double (n / base) base two)
  where
    double : (q b : ℕ) → 2 ≤ b → 2 * q ≤ q * b
    double q b h = grind arith

reverse_digits-Ends :
    (fuel base n revn c : ℕ)
    → 2 ≤ base
    → n < 2 ^ suc fuel
    → Ends (reverse_digits (suc fuel) base n revn c)
unfolding reverse_digits
reverse_digits-Ends zero base n revn c two small =
    let last : (n / base == 0) ≡ true = ground (arith, div-halves n base two) in rw last
reverse_digits-Ends (suc fuel) base n revn c two small = elim (Bool-cases (n / base == 0)) [
  | inl last ↦ rw last
  | inr more ↦ rw more (
      reverse_digits-Ends fuel base (n / base) _ (c + 1) two
        (omega (arith, div-halves n base two, pow-suc 2 (suc fuel))))
]

print_int-Ends :
    (n : ℕ) (f : Flags) (width base : ℕ) (sign upper : Bool)
    → 2 ≤ base
    → n < 2 ^ 64
    → Ends (print_int n f width base sign upper)
unfolding print_int
print_int-Ends n f width base sign upper two small =
    ground (arith, reverse_digits-Ends 63 base (magnitude n sign) 0 0)

parse_flags-length : (f : Flags) (cs : List ℕ) → length (parse_flags f cs).1 ≤ length cs
unfolding parse_flags
parse_flags-length f [] = omega arith
parse_flags-length f (c ∷ cs) = elim (Option-cases (new_flag f c)) [
  | inl stop ↦ rw (stop, parse_flags) (omega arith)
  | inr (f', more) ↦ rw (more, parse_flags) (omega (arith, parse_flags-length f' cs))
]

parse_width-length : (w : ℕ) (cs : List ℕ) → length (parse_width w cs).1 ≤ length cs
unfolding parse_width
parse_width-length w [] = omega arith
parse_width-length w (c ∷ cs) = ground (arith, parse_width-length (w * 10 + (c - b'0')) cs)

tail-length : (cs : List ℕ) → length (tail cs) ≤ length cs
tail-length [] = omega arith
tail-length (c ∷ cs) = omega arith

parse_length-length : (cs : List ℕ) → length (parse_length cs).1 ≤ length cs
unfolding parse_length
parse_length-length cs = ground (arith, tail-length cs, tail-length (tail cs))

conversion-length :
    (string_at : ℕ → List ℕ) (args : ℕ → ℕ) (pos : ℕ) (cs : List ℕ)
    → length (tail (conversion string_at args pos cs).place) ≤ length cs
unfolding conversion
conversion-length string_at args pos cs =
    let (f, s) = parse_flags no_flags cs in
    let (w, t) = parse_width 0 s in
    omega (
      arith,
      parse_flags-length no_flags cs,
      parse_width-length 0 s,
      parse_length-length t,
      tail-length (parse_length t).1,
    )

fetch-lt :
    (m : LengthModifier) (c : ℕ) (args : ℕ → ℕ) (pos : ℕ)
    → ((i : ℕ) → args i < 2 ^ 64)
    → (fetch m c args pos).0 < 2 ^ 64
unfolding fetch
fetch-lt m c args pos slots = ground (arith, slots pos)

convert-Ends :
    (string_at : ℕ → List ℕ) (f : Flags) (width c value : ℕ)
    → value < 2 ^ 64
    → Ends (convert string_at f width c value)
unfolding convert
convert-Ends string_at f width c value small = ground (
  arith,
  print_int-Ends value f width 10 true false,
  print_int-Ends value f width 10 false false,
  print_int-Ends value f width 16 false false,
  print_int-Ends value f width 16 false true,
  print_int-Ends value f width 8 false false,
)

conversion-Ends :
    (string_at : ℕ → List ℕ) (args : ℕ → ℕ) (pos : ℕ) (cs : List ℕ)
    → ((i : ℕ) → args i < 2 ^ 64)
    → Ends (conversion string_at args pos cs).output
unfolding conversion
conversion-Ends string_at args pos cs slots =
    convert-Ends string_at _ _ _ _ (fetch-lt _ _ args pos slots)

printed_then-Ends : (r q : Option Printed) → Ends r → Ends q → Ends (printed_then r q)
printed_then-Ends (some p) (some p') e e' = refl
printed_then-Ends none q e e' = cc
printed_then-Ends (some p) none e e' = cc

pub format-Ends :
    (string_at : ℕ → List ℕ) (args : ℕ → ℕ) (fuel pos : ℕ) (s : List ℕ)
    → ((i : ℕ) → args i < 2 ^ 64)
    → length s < fuel
    → Ends (format string_at args fuel pos s)
unfolding format
format-Ends string_at args zero pos s slots enough = absurd (omega arith)
format-Ends string_at args (suc fuel) pos [] slots enough = refl
format-Ends string_at args (suc fuel) pos (c ∷ cs) slots enough = elim (Bool-cases (c == b'%')) [
  | inr plain ↦
      rw (plain, format)
        (printed_then-Ends (some (record { text = c ∷ []; chars = 1 })) _ refl
          (format-Ends string_at args fuel pos cs slots (omega arith)))
  | inl percent ↦
      let v = conversion string_at args pos cs in
      rw (percent, format)
        (printed_then-Ends v.output _ (conversion-Ends string_at args pos cs slots) (
          format-Ends string_at args fuel v.position (tail v.place) slots
            (omega (arith, conversion-length string_at args pos cs))))
]

-- `debug_vprintf` returns on every format string and all arguments: its loops end.
pub vprintf-Ends :
    (string_at : ℕ → List ℕ) (fmt : List ℕ) (args : ℕ → ℕ)
    → ((i : ℕ) → args i < 2 ^ 64)
    → (p : Printed) × (vprintf string_at fmt args ≡ some p)
unfolding vprintf
vprintf-Ends string_at fmt args slots =
    of_is_some _ (format-Ends string_at args (suc (length fmt)) 0 fmt slots (omega arith))
