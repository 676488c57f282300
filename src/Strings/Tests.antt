-- ===== src/Strings/Tests.antt =====
-- The string functions on the strings "ab" and "b" in memory.
use orchestr_os.Base.{ℕ, ◌≡◌, ◌↔◌, refl, some, true, List, [], ◌∷◌, arith, if◌then◌else◌, ◌==◌}
use orchestr_os.Base.Int.{ℤ, pos, negsuc, negate}
use orchestr_os.Memory.{Mem}
use orchestr_os.Strings.{strcmp, strncmp}
use orchestr_os.Strings.Laws.{IsString, strcmp_zero_iff, strcmp-swap, take_chars, strncmp_zero_iff}

abbrev texts : Mem
texts a = if a == 10 then b'a' else if a == 11 then b'b' else if a == 20 then b'b' else 0

abbrev ab : List ℕ
ab = b'a' ∷ b'b' ∷ []

abbrev b : List ℕ
b = b'b' ∷ []

ab-IsString : IsString texts 10 ab
ab-IsString = (refl, omega arith, omega arith, (refl, omega arith, omega arith, refl))

b-IsString : IsString texts 20 b
b-IsString = (refl, omega arith, omega arith, refl)

ab_before_b : strcmp true 5 10 20 texts ≡ some (negsuc 0)
unfolding strcmp
ab_before_b = refl

no_characters_differ : strncmp true 0 10 20 texts ≡ pos 0
unfolding strncmp
no_characters_differ = refl

strcmp_zero_iff_example : (r : ℤ) × (strcmp true 3 10 20 texts ≡ some r) × ((r ≡ pos 0) ↔ (ab ≡ b))
strcmp_zero_iff_example =
    strcmp_zero_iff true texts 3 10 20 ab b ab-IsString b-IsString (omega arith)

strcmp-swap_example :
    (r : ℤ) × (strcmp true 3 10 20 texts ≡ some r) × (strcmp true 3 20 10 texts ≡ some (negate r))
strcmp-swap_example =
    strcmp-swap true texts 3 10 20 ab b ab-IsString b-IsString (omega arith) (omega arith)

strncmp_zero_iff_example : (strncmp true 1 10 20 texts ≡ pos 0) ↔ (take_chars 1 ab ≡ take_chars 1 b)
strncmp_zero_iff_example = strncmp_zero_iff true texts 1 10 20 ab b ab-IsString b-IsString
