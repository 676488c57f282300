-- ===== src/Debug/Integer/Parts.antt =====
-- The parts of what `debug_print_int` of symphony/debug.c prints: sign, prefix, fill and digits.
use mathlib.Core.List.{map}
use orchestr_os.Base.{
  ℕ, zero, suc, ◌+◌, ◌-◌, ◌≤◌, ◌<◌, ◌≡◌, ◌≢◌, refl, Bool, true, false, ◌&&◌, List, [], ◌∷◌, arith,
  ltb, ◌==◌, ==_iff, if◌then◌else◌, Bool-cases, inl, inr,
}
use native.Mathlib.Decide.{ℕ_discrete}
use orchestr_os.Base.Lists.{get_or, replicate}
use orchestr_os.Base.Text.{codes}
use orchestr_os.Debug.Digits.Laws.{AllBelow}
use orchestr_os.Debug.Integer.{Flags, digit_chars, sign_chars, prefix_chars, padding}

-- The character of a digit below 16.
abbrev pub digit_char : (upper : Bool) → ℕ → ℕ
digit_char upper d = if ltb d 10 then b'0' + d else (if upper then b'A' else b'a') + (d - 10)

abbrev pub Chars : (c : ℕ) → List ℕ → Type 0
Chars c [] = Unit {0}
Chars c (x ∷ xs) = (x ≡ c) × Chars c xs

-- The sign of a number: a minus where it is negative, else by the flags a plus or a space.
pub record IsSign (f : Flags) (negative : Bool) (sign : List ℕ) : Type 0 where
  pub minus : negative ≡ true → sign ≡ b'-' ∷ []
  pub plus : negative ≡ false → f.plus_for_positive ≡ true → sign ≡ b'+' ∷ []
  pub space :
      negative ≡ false
      → f.plus_for_positive ≡ false
      → f.space_for_positive ≡ true
      → sign ≡ b' ' ∷ []
  pub no_sign :
      negative ≡ false → f.plus_for_positive ≡ false → f.space_for_positive ≡ false → sign ≡ []

-- The prefix of the alternate form, in octal and in hexadecimal.
pub record IsPrefix (f : Flags) (base : ℕ) (upper : Bool) (prefix : List ℕ) : Type 0 where
  pub octal : base ≡ 8 → f.special_hash ≡ true → prefix ≡ b'0' ∷ []
  pub hexadecimal :
      base ≡ 16 → f.special_hash ≡ true → prefix ≡ b'0' ∷ (if upper then b'X' else b'x') ∷ []
  pub plain : f.special_hash ≡ false → prefix ≡ []
  pub other_base : base ≢ 8 → base ≢ 16 → prefix ≡ []

pub sign_chars-IsSign : (f : Flags) (negative : Bool) → IsSign f negative (sign_chars f negative)
unfolding sign_chars
sign_chars-IsSign f negative = record {
  minus = λ e. rw e refl;
  plus = λ e e'. rw (e, e') refl;
  space = λ e e' e''. rw (e, e', e'') refl;
  no_sign = λ e e' e''. rw (e, e', e'') refl;
}

pub prefix_chars-IsPrefix :
    (f : Flags) (base : ℕ) (upper : Bool) → IsPrefix f base upper (prefix_chars f base upper)
unfolding prefix_chars
prefix_chars-IsPrefix f base upper = record {
  octal = λ e e'. rw (e, e') refl;
  hexadecimal = λ e e'. rw (e, e') (letter upper);
  plain = λ e. no_hash (base == 8) (base == 16) upper f.special_hash e;
  other_base = λ e e'. no_base base upper f.special_hash e e';
}
  where
    letter :
        (u : Bool) → (if u then codes "0X" else codes "0x") ≡ b'0' ∷ (if u then b'X' else b'x') ∷ []
    letter true = refl
    letter false = refl

    no_hash :
        (octal hex upper hash : Bool)
        → hash ≡ false
        → (if octal && hash
            then codes "0"
            else if hex && hash
            then (if upper then codes "0X" else codes "0x")
            else [])
          ≡ []
    no_hash true true upper hash e = rw e refl
    no_hash true false upper hash e = rw e refl
    no_hash false true upper hash e = rw e refl
    no_hash false false upper hash e = refl

    no_base :
        (base : ℕ) (upper hash : Bool)
        → base ≢ 8
        → base ≢ 16
        → (if base == 8 && hash
            then codes "0"
            else if base == 16 && hash
            then (if upper then codes "0X" else codes "0x")
            else [])
          ≡ []
    no_base base upper hash e e' =
        let t : (base == 8) ≡ false = ground (arith, e) in
        let t' : (base == 16) ≡ false = ground (arith, e') in rw (t, t') refl

pub padding-Chars :
    (f : Flags) (width dcount : ℕ)
    → Chars (if f.prepend_zeroes then b'0' else b' ') (padding f width dcount)
unfolding padding
padding-Chars f width dcount = elim (Bool-cases (ltb dcount width)) [
  | inl t ↦ rw t (all_same (width - dcount) _)
  | inr t ↦ rw t tt
]
  where
    all_same : (n c : ℕ) → Chars c (replicate n c)
    all_same zero c = tt
    all_same (suc n) c = (refl, all_same n c)

abbrev test_below : ℕ → (ℕ → Bool) → Bool
test_below zero p = true
test_below (suc n) p = p n && test_below n p

test_below_lem : (n : ℕ) (p : ℕ → Bool) → test_below n p ≡ true → (d : ℕ) → d < n → p d ≡ true
test_below_lem zero p h d lt = absurd (omega (arith, lt))
test_below_lem (suc n) p h d lt = elim (ℕ_discrete d n) [
  | yes e ↦ rw e (both_left (p n) _ h)
  | no ne ↦ test_below_lem n p (both_right (p n) _ h) d (omega (arith, lt, ne))
]
  where
    both_left : (x y : Bool) → (x && y) ≡ true → x ≡ true
    both_left true y e = refl
    both_left false y e = e

    both_right : (x y : Bool) → (x && y) ≡ true → y ≡ true
    both_right true y e = e
    both_right false true e = refl
    both_right false false e = e

by_test :
    (upper : Bool) (d : ℕ) → d < 16 → (get_or (digit_chars upper) d 0 == digit_char upper d) ≡ true
by_test true = test_below_lem 16 (λ d. get_or (digit_chars true) d 0 == digit_char true d) refl
by_test false = test_below_lem 16 (λ d. get_or (digit_chars false) d 0 == digit_char false d) refl

-- The characters in the table are those of the digits.
digit_chars_lem :
    (upper : Bool) (d : ℕ) → d < 16 → get_or (digit_chars upper) d 0 ≡ digit_char upper d
digit_chars_lem upper d h = (==_iff _ _).0 (by_test upper d h)

pub shown-digits :
    (upper : Bool) (base : ℕ) (ds : List ℕ)
    → base ≤ 16
    → AllBelow base ds
    → map (λ d. get_or (digit_chars upper) d 0) ds ≡ map (digit_char upper) ds
unfolding AllBelow
shown-digits upper base [] hex below = refl
shown-digits upper base (d ∷ ds) hex (h, below) =
    rw (digit_chars_lem upper d (omega (arith, h, hex)), shown-digits upper base ds hex below) refl
