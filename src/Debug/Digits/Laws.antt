-- ===== src/Debug/Digits/Laws.antt =====
-- The printed digits are those of the number, most significant first, where the reversed number
-- fits 64 bits.

use mathlib.Core.List.{reverse, reverse_aux}
use native.Mathlib.Nat.{
  mul-add-mod_self_right, mod-eq_of_lt, mul-add-div_right, div-eq_of_lt, zero-add, pow-suc, mod-lt,
  div-lt_iff_lt-mul, one-le-pow, pow-zero, div-add-mod',
}
use orchestr_os.Base.{
  ℕ, Option, zero, suc, ◌+◌, ◌*◌, ◌/◌, ◌%◌, ◌^◌, ◌≤◌, ◌<◌, ◌≡◌, ◌≢◌, refl, ap, ◌∙◌, some, true,
  List, [], ◌∷◌, arith, Bool-cases, inl, inr, ◌==◌,
}
use orchestr_os.Base.Lists.{length}
use orchestr_os.Base.Word.{u64}
use orchestr_os.Debug.Digits.{reverse_digits, emit_digits}

-- The number that digits stand for, most significant first, behind the number `acc`.
pub value_from : (base acc : ℕ) → List ℕ → ℕ
value_from base acc [] = acc
value_from base acc (d ∷ ds) = value_from base (acc * base + d) ds

-- The number that digits stand for, least significant first.
low_value : (base : ℕ) → List ℕ → ℕ
low_value base [] = 0
low_value base (d ∷ ds) = low_value base ds * base + d

unfoldable pub AllBelow : ℕ → List ℕ → Type 0
AllBelow b [] = Unit {0}
AllBelow b (d ∷ ds) = (d < b) × AllBelow b ds

div_digit : (acc b d : ℕ) → d < b → ((acc * b + d) % b ≡ d) × ((acc * b + d) / b ≡ acc)
div_digit acc b d h = (
  mul-add-mod_self_right acc b d ∙ mod-eq_of_lt h,
  omega (arith, mul-add-div_right {m = b} (omega arith) acc d, div-eq_of_lt h),
)

-- The digits of the reversed number, from the lowest on, are the digits in reverse.
emit_digits-value_from :
    (base acc j : ℕ) (ds : List ℕ)
    → AllBelow base ds
    → emit_digits (length ds + j) base (value_from base acc ds)
      ≡ reverse_aux ds (emit_digits j base acc)
unfolding emit_digits value_from AllBelow
emit_digits-value_from base acc j [] below = rw zero-add
emit_digits-value_from base acc j (d ∷ ds) below =
    let count : suc (length ds) + j ≡ length ds + suc j = omega arith in
    let (m, q) = div_digit acc base d below.0 in
    rw (count, emit_digits-value_from base (acc * base + d) (suc j) ds below.1, m, q)

value_from-reverse :
    (base : ℕ) (ds xs : List ℕ)
    → value_from base 0 (reverse_aux ds xs) ≡ value_from base (low_value base ds) xs
unfolding value_from low_value
value_from-reverse base [] xs = refl
value_from-reverse base (d ∷ ds) xs = value_from-reverse base ds (d ∷ xs)

AllBelow-reverse :
    (base : ℕ) (ds xs : List ℕ)
    → AllBelow base ds
    → AllBelow base xs
    → AllBelow base (reverse_aux ds xs)
unfolding AllBelow
AllBelow-reverse base [] xs p q = q
AllBelow-reverse base (d ∷ ds) xs (p, ps) q = AllBelow-reverse base ds (d ∷ xs) ps (p, q)

length-reverse : (ds xs : List ℕ) → length (reverse_aux ds xs) ≡ length ds + length xs
length-reverse [] xs = omega arith
length-reverse (d ∷ ds) xs = omega (arith, length-reverse ds (d ∷ xs))

-- What the first loop leaves: the digits of `n`, least significant first, as `ds`.
record Reversed (base n revn c : ℕ) (r : Option (ℕ × ℕ)) : Type 0 where
  ds : List ℕ
  result : r ≡ some (value_from base revn ds, c + length ds)
  below : AllBelow base ds
  value : low_value base ds ≡ n
  nonempty : 0 < length ds
  shortest : (j : ℕ) → n < base ^ suc j → length ds ≤ suc j

div-lt-pow : (n base k : ℕ) → 0 < base → n < base ^ suc k → n / base < base ^ k
div-lt-pow n base k pos h = (div-lt_iff_lt-mul pos).1 (omega (arith, pow-suc base k))

mul_room : (revn p base d : ℕ) → revn < p → d < base → revn * base + d < p * base
mul_room revn p base d h b = grind arith

le-mul_pos : (a b : ℕ) → 0 < b → a ≤ a * b
le-mul_pos a b h = grind arith

-- One more round, without overflow.
next_revn :
    (base k n revn p : ℕ)
    → 0 < base
    → revn < p
    → p * base ^ suc k ≤ 2 ^ 64
    → (u64 (u64 (revn * base) + n % base) ≡ revn * base + n % base)
      × (revn * base + n % base < p * base)
      × (p * base * base ^ k ≤ 2 ^ 64)
next_revn base k n revn p pos h fit =
    let room = mul_room revn p base (n % base) h (mod-lt n pos) in
    let total : p * base * base ^ k ≤ 2 ^ 64 = omega (arith, ap (λ t. p * t) (pow-suc base k)) in
    let grown = le-mul_pos (p * base) (base ^ k) (one-le-pow k base pos) in
    (omega arith, room, total)

module _ (base n revn c : ℕ) (pos : 0 < base) where
  one_digit : n / base ≡ 0 → Reversed base n revn c (some (revn * base + n % base, c + 1))
  unfolding value_from low_value AllBelow
  one_digit last = record {
    ds = n % base ∷ [];
    result = refl;
    below = (mod-lt n pos, tt);
    value = omega (arith, div-add-mod' n base, ap (λ t. t * base) last);
    nonempty = omega arith;
    shortest = λ j h. omega arith;
  }

  shorter :
      (count : ℕ)
      → n / base ≢ 0
      → ((j : ℕ) → n / base < base ^ suc j → count ≤ suc j)
      → (j : ℕ) → n < base ^ suc j
      → suc count ≤ suc j
  shorter count more ih zero h =
      absurd (more (omega (arith, div-lt-pow n base 0 pos h, pow-zero base)))
  shorter count more ih (suc j) h = omega (arith, ih j (div-lt-pow n base (suc j) pos h))

  more_digits :
      {r : Option (ℕ × ℕ)}
      → n / base ≢ 0
      → Reversed base (n / base) (revn * base + n % base) (c + 1) r
      → Reversed base n revn c r
  unfolding value_from low_value AllBelow
  more_digits more rest = record {
    ds = n % base ∷ rest.ds;
    result =
        rest.result
        ∙ ap (λ t. some (value_from base (revn * base + n % base) rest.ds, t)) (omega arith);
    below = (mod-lt n pos, rest.below);
    value = rw rest.value (div-add-mod' n base);
    nonempty = omega arith;
    shortest = shorter (length rest.ds) more rest.shortest;
  }

reverse_digits-Reversed :
    (fuel k base n revn c p : ℕ)
    → 0 < base
    → k < fuel
    → n < base ^ suc k
    → revn < p
    → p * base ^ suc k ≤ 2 ^ 64
    → Reversed base n revn c (reverse_digits fuel base n revn c)
unfolding reverse_digits
reverse_digits-Reversed zero k base n revn c p pos fuel_ok small h fit = absurd (omega arith)
reverse_digits-Reversed (suc fuel) zero base n revn c p pos fuel_ok small h fit =
    let (same, room, total) = next_revn base zero n revn p pos h fit in
    let last : n / base ≡ 0 = omega (arith, div-lt-pow n base 0 pos small, pow-zero base) in
    let done : (n / base == 0) ≡ true = ground arith in
    rw (same, done) (one_digit base n revn c pos last)
reverse_digits-Reversed (suc fuel) (suc k) base n revn c p pos fuel_ok small h fit =
    let (same, room, total) = next_revn base (suc k) n revn p pos h fit in
    elim (Bool-cases (n / base == 0)) [
      | inl done ↦ rw (same, done) (one_digit base n revn c pos (ground arith))
      | inr more ↦
          rw (same, more)
            (more_digits base n revn c pos (ground arith) (
              reverse_digits-Reversed fuel k base (n / base) (revn * base + n % base) (c + 1)
                (p * base) pos (omega arith) (div-lt-pow n base (suc k) pos small) room total))
    ]

-- What is printed for `n` in base `base`: its digits, most significant first, and no leading zero.
pub record IsNumeral (base n : ℕ) (digits : List ℕ) : Type 0 where
  pub value : value_from base 0 digits ≡ n
  pub below : AllBelow base digits
  pub nonempty : 0 < length digits
  pub shortest : (j : ℕ) → n < base ^ suc j → length digits ≤ suc j

emitted :
    (base : ℕ) (ds : List ℕ)
    → AllBelow base ds
    → emit_digits (length ds) base (value_from base 0 ds) ≡ reverse ds
unfolding emit_digits
emitted base ds below =
    ap (λ t. emit_digits t base (value_from base 0 ds)) (omega arith)
    ∙ emit_digits-value_from base 0 0 ds below

-- The two loops together print the numeral of `n`, if `n` has at most `k + 1` digits in the base and
-- every number of `k + 1` digits fits 64 bits.
pub print_digits-IsNumeral :
    (k base n : ℕ)
    → 0 < base
    → k < 64
    → n < base ^ suc k
    → base ^ suc k ≤ 2 ^ 64
    → (r : ℕ) × (count : ℕ) × (reverse_digits 64 base n 0 0 ≡ some (r, count))
      × IsNumeral base n (emit_digits count base r)
      × (length (emit_digits count base r) ≡ count)
unfolding value_from AllBelow
print_digits-IsNumeral k base n pos fuel_ok small fit =
    let r =
      reverse_digits-Reversed 64 k base n 0 0 1 pos fuel_ok small (omega arith) (omega arith) in
    let printed = emitted base r.ds r.below in
    (
      value_from base 0 r.ds,
      length r.ds,
      r.result ∙ ap (λ t. some (value_from base 0 r.ds, t)) (omega arith),
      rw printed (record {
        value = value_from-reverse base r.ds [] ∙ r.value;
        below = AllBelow-reverse base r.ds [] r.below tt;
        nonempty = rw length-reverse (omega (arith, r.nonempty));
        shortest = λ j h. rw length-reverse (omega (arith, r.shortest j h));
      }),
      rw (printed, length-reverse) (omega arith),
    )
