-- ===== src/Strings/Laws.antt =====
-- strlen, strcmp and strncmp of symphony/string.c against the strings that they read.
use orchestr_os.Base.{
  ℕ, zero, suc, ◌+◌, ◌<◌, ◌≡◌, ◌↔◌, refl, ap, sym, ◌∙◌, Bool, some, List, [], ◌∷◌, arith, ◌==◌,
  if◌then◌else◌,
}
use orchestr_os.Base.Int.{ℤ, pos, ◌-ℤ◌, negate, negate-sub}
use orchestr_os.Base.Lists.{length}
use orchestr_os.Memory.{Mem}
use orchestr_os.Strings.{char_value, strlen_loop, strlen, strcmp, strncmp}

-- The bytes `cs`, none of them 0, and a 0 stand at `s`.
abbrev pub IsString : Mem → ℕ → List ℕ → Type 0
IsString m s [] = m s ≡ 0
IsString m s (c ∷ cs) = (m s ≡ c) × (0 < c) × (c < 256) × IsString m (s + 1) cs

strlen_loop-length :
    (m : Mem) (fuel s count : ℕ) (cs : List ℕ)
    → IsString m s cs
    → length cs < fuel
    → strlen_loop fuel s count m ≡ some (count + length cs)
unfolding strlen_loop
strlen_loop-length m zero s count cs h enough = absurd (omega arith)
strlen_loop-length m (suc fuel) s count [] h enough = ground arith
strlen_loop-length m (suc fuel) s count (c ∷ cs) (at, some_char, byte, rest) enough =
    ground (arith, strlen_loop-length m fuel (s + 1) (count + 1) cs rest (omega arith))

-- `strlen` gives the number of bytes before the terminating 0.
pub strlen-length :
    (m : Mem) (fuel s : ℕ) (cs : List ℕ)
    → IsString m s cs
    → length cs < fuel
    → strlen fuel s m ≡ some (length cs)
unfolding strlen
strlen-length m fuel s cs h enough = ground (arith, strlen_loop-length m fuel s 0 cs h enough)

-- The difference of the characters at the first place where two strings differ, the ends included.
pub difference : (signed : Bool) → List ℕ → List ℕ → ℤ
difference signed [] [] = pos 0
difference signed [] (d ∷ ds) = pos 0 -ℤ char_value signed d
difference signed (c ∷ cs) [] = char_value signed c -ℤ pos 0
difference signed (c ∷ cs) (d ∷ ds) =
    let rest = difference signed cs ds in
    if c == d then rest else char_value signed c -ℤ char_value signed d

-- `strcmp` computes it, within one round for each character of the first string and one more.
pub strcmp-difference :
    (signed : Bool) (m : Mem) (fuel s1 s2 : ℕ) (cs ds : List ℕ)
    → IsString m s1 cs
    → IsString m s2 ds
    → length cs < fuel
    → strcmp signed fuel s1 s2 m ≡ some (difference signed cs ds)
unfolding strcmp difference
strcmp-difference signed m zero s1 s2 cs ds h k enough = absurd (omega arith)
strcmp-difference signed m (suc fuel) s1 s2 [] [] h k enough = ground arith
strcmp-difference signed m (suc fuel) s1 s2 [] (d ∷ ds) h k enough = ground arith
strcmp-difference signed m (suc fuel) s1 s2 (c ∷ cs) [] h k enough = ground arith
strcmp-difference signed m (suc fuel) s1 s2 (c ∷ cs) (d ∷ ds) (at, some_char, byte, h)
      (at', some_char', byte', k) enough =
    ground (arith, strcmp-difference signed m fuel (s1 + 1) (s2 + 1) cs ds h k (omega arith))

-- The bytes of a string.
abbrev pub IsBytes : List ℕ → Type 0
IsBytes [] = Unit {0}
IsBytes (c ∷ cs) = (0 < c) × (c < 256) × IsBytes cs

-- It is 0 exactly for equal strings.
pub difference_zero_iff :
    (signed : Bool) (cs ds : List ℕ)
    → IsBytes cs
    → IsBytes ds
    → (difference signed cs ds ≡ pos 0) ↔ (cs ≡ ds)
unfolding difference ◌-ℤ◌
difference_zero_iff signed [] [] h k = (λ e. refl, λ e. refl)
difference_zero_iff signed [] (d ∷ ds) h k = (λ e. absurd (ground arith), λ e. cc)
difference_zero_iff signed (c ∷ cs) [] h k = (λ e. absurd (ground arith), λ e. cc)
difference_zero_iff signed (c ∷ cs) (d ∷ ds) h k =
    let (to, from) = difference_zero_iff signed cs ds h.2 k.2 in
    (λ e. ground (arith, to), λ e. ground (arith, from))

-- Swapping the strings negates it.
pub difference-swap :
    (signed : Bool) (cs ds : List ℕ) → negate (difference signed cs ds) ≡ difference signed ds cs
unfolding difference
difference-swap signed [] [] = unfold negate in refl
difference-swap signed [] (d ∷ ds) = negate-sub (pos 0) (char_value signed d)
difference-swap signed (c ∷ cs) [] = negate-sub (char_value signed c) (pos 0)
difference-swap signed (c ∷ cs) (d ∷ ds) =
    ground
      (arith, difference-swap signed cs ds, negate-sub (char_value signed c) (char_value signed d))

IsString-IsBytes : (m : Mem) (s : ℕ) (cs : List ℕ) → IsString m s cs → IsBytes cs
IsString-IsBytes m s [] h = tt
IsString-IsBytes m s (c ∷ cs) (at, some_char, byte, h) =
    (some_char, byte, IsString-IsBytes m (s + 1) cs h)

-- `strcmp` of two strings in memory returns, and returns 0 exactly if they are equal.
pub strcmp_zero_iff :
    (signed : Bool) (m : Mem) (fuel s1 s2 : ℕ) (cs ds : List ℕ)
    → IsString m s1 cs
    → IsString m s2 ds
    → length cs < fuel
    → (r : ℤ) × (strcmp signed fuel s1 s2 m ≡ some r) × ((r ≡ pos 0) ↔ (cs ≡ ds))
strcmp_zero_iff signed m fuel s1 s2 cs ds h k enough = (
  difference signed cs ds,
  strcmp-difference signed m fuel s1 s2 cs ds h k enough,
  difference_zero_iff signed cs ds (IsString-IsBytes m s1 cs h) (IsString-IsBytes m s2 ds k),
)

-- `strcmp` with its strings swapped returns the negative.
pub strcmp-swap :
    (signed : Bool) (m : Mem) (fuel s1 s2 : ℕ) (cs ds : List ℕ)
    → IsString m s1 cs
    → IsString m s2 ds
    → length cs < fuel
    → length ds < fuel
    → (r : ℤ) × (strcmp signed fuel s1 s2 m ≡ some r)
      × (strcmp signed fuel s2 s1 m ≡ some (negate r))
strcmp-swap signed m fuel s1 s2 cs ds h k enough enough' = (
  difference signed cs ds,
  strcmp-difference signed m fuel s1 s2 cs ds h k enough,
  strcmp-difference signed m fuel s2 s1 ds cs k h enough'
      ∙ ap some (sym (difference-swap signed cs ds)),
)

-- The first `n` characters that a comparison reads.
pub take_chars : ℕ → List ℕ → List ℕ
take_chars zero cs = []
take_chars (suc n) [] = []
take_chars (suc n) (c ∷ cs) = c ∷ take_chars n cs

-- `strncmp` compares the strings cut to their first `n` characters.
pub strncmp-difference :
    (signed : Bool) (m : Mem) (n s1 s2 : ℕ) (cs ds : List ℕ)
    → IsString m s1 cs
    → IsString m s2 ds
    → strncmp signed n s1 s2 m ≡ difference signed (take_chars n cs) (take_chars n ds)
unfolding strncmp difference take_chars
strncmp-difference signed m zero s1 s2 cs ds h k = refl
strncmp-difference signed m (suc n) s1 s2 [] [] h k = ground arith
strncmp-difference signed m (suc n) s1 s2 [] (d ∷ ds) h k = ground arith
strncmp-difference signed m (suc n) s1 s2 (c ∷ cs) [] h k = ground arith
strncmp-difference signed m (suc n) s1 s2 (c ∷ cs) (d ∷ ds) (at, some_char, byte, h)
      (at', some_char', byte', k) =
    ground (arith, strncmp-difference signed m n (s1 + 1) (s2 + 1) cs ds h k)

IsBytes-take : (n : ℕ) (cs : List ℕ) → IsBytes cs → IsBytes (take_chars n cs)
unfolding take_chars
IsBytes-take zero cs h = tt
IsBytes-take (suc n) [] h = tt
IsBytes-take (suc n) (c ∷ cs) (p, q, h) = (p, q, IsBytes-take n cs h)

-- `strncmp` returns 0 exactly if the two strings agree in their first `n` characters.
pub strncmp_zero_iff :
    (signed : Bool) (m : Mem) (n s1 s2 : ℕ) (cs ds : List ℕ)
    → IsString m s1 cs
    → IsString m s2 ds
    → (strncmp signed n s1 s2 m ≡ pos 0) ↔ (take_chars n cs ≡ take_chars n ds)
strncmp_zero_iff signed m n s1 s2 cs ds h k = rw (strncmp-difference signed m n s1 s2 cs ds h k) (
    difference_zero_iff signed (take_chars n cs) (take_chars n ds)
      (IsBytes-take n cs (IsString-IsBytes m s1 cs h))
      (IsBytes-take n ds (IsString-IsBytes m s2 ds k)))
