-- ===== src/Pmm/Find/FirstFit.antt =====
-- `pmm_find_free_pages` finds the first run of free pages that is long enough, and finds one
-- whenever there is one.
use orchestr_os.Base.{
  ℕ, zero, suc, ◌+◌, ◌*◌, ◌/◌, ◌%◌, ◌≤◌, ◌<◌, ◌≡◌, refl, ap, ◌∙◌, ◌-◌, ==_iff, Bool, true, false,
  arith, ◌==◌, if◌then◌else◌, Bool-cases, inl, inr, ◌⊎◌,
}
use native.Mathlib.Decide.{ℕ_discrete, dec_le, dec_lt}
use mathlib.Core.Path.{subst}
use native.Mathlib.Nat.{add_assoc}
use orchestr_os.Base.Bits.{bit_is_set}
use orchestr_os.Base.Run.{Returns, returns, halt, out_of_memory}
use orchestr_os.Pmm.State.{Pmm, is_used}
use orchestr_os.Pmm.Find.{
  Search, found, searching, find_step, find_in_byte, find_in_bytes, conclude, find_free_pages,
}

-- The `n` pages from `q` on are free.
abbrev pub AllFree : Pmm → (q n : ℕ) → Type 0
AllFree s q n = (k : ℕ) → q ≤ k → k < q + n → is_used s k ≡ false

-- No run of `n` free pages ends at or before page `p`.
abbrev NoRun : Pmm → (n p : ℕ) → Type 0
NoRun s n p = (q : ℕ) → q + n ≤ p → ¬ AllFree s q n

-- The page before `b`, if there is one, is used.
abbrev Boundary : Pmm → ℕ → Type 0
Boundary s b = (k : ℕ) → suc k ≡ b → is_used s k ≡ true

-- The first run of `n` free pages, among the pages below `limit`, begins at `b`.
pub record FirstFit (s : Pmm) (n limit b : ℕ) : Type 0 where
  pub fits : b + n ≤ limit
  pub free : AllFree s b n
  pub first : (q : ℕ) → q < b → ¬ AllFree s q n

-- Before page `p` stand exactly the `m` free pages from `b` on, and they are too few.
record Chunk (s : Pmm) (n p m b : ℕ) : Type 0 where
  ends : b + m ≡ p
  short : m < n
  free : AllFree s b m
  none_before : NoRun s n p
  boundary : Boundary s b

-- What the scan knows when it has seen the pages below `p`.
abbrev Scanned : Pmm → (n p : ℕ) → Search → Type 0
Scanned s n p (found b) = FirstFit s n p b
Scanned s n p (searching true m b) = Chunk s n p m b
Scanned s n p (searching false m b) = (m ≡ 0) × Chunk s n p 0 p

FirstFit-mono : {s : Pmm} {n p r b : ℕ} → p ≤ r → FirstFit s n p b → FirstFit s n r b
FirstFit-mono h f = record { fits = omega arith; free = f.free; first = f.first }

module _ (s : Pmm) (n p m b : ℕ) (c : Chunk s n p m b) where
  -- A run before `b` would hold the used page below `b`, or end too early.
  first-Chunk : (q : ℕ) → q < b → ¬ AllFree s q n
  first-Chunk q h all = elim (dec_le (q + n) p) [
    | yes early ↦ c.none_before q early all
    | no late ↦
        let below : suc (b - 1) ≡ b = omega arith in
        let e = c.ends in
        let l = c.short in
        ground (arith, c.boundary (b - 1) below, all (b - 1) (omega arith) (omega arith))
  ]

  -- One more free page.
  free-grow : is_used s p ≡ false → AllFree s b (m + 1)
  free-grow h k lo hi = elim (ℕ_discrete k p) [
    | yes e ↦ ap (is_used s) e ∙ h
    | no ne ↦ let e = c.ends in c.free k lo (omega arith)
  ]

  grow-Scanned :
      is_used s p ≡ false
      → Scanned s n (p + 1) (if (m + 1) == n then found b else searching true (m + 1) b)
  grow-Scanned h = elim (Bool-cases ((m + 1) == n)) [
    | inl done ↦
        let full : m + 1 ≡ n = (==_iff _ _).0 done in
        rw done (record {
          fits = let e = c.ends in omega arith;
          free = rw (← full) (free-grow h);
          first = first-Chunk;
        })
    | inr more ↦ rw more (record {
      ends = let e = c.ends in omega arith;
      short = let l = c.short in ground arith;
      free = free-grow h;
      none_before = λ q end all.
          let l = c.short in
          let e = c.ends in
          elim (dec_lt q b) [ yes early ↦ first-Chunk q early all | no late ↦ ground arith ];
      boundary = c.boundary;
    })
  ]

  -- A used page ends the chunk, and a run that holds it is none.
  cut-Chunk : is_used s p ≡ true → Chunk s n (p + 1) 0 (p + 1)
  cut-Chunk h = record {
    ends = omega arith;
    short = let l = c.short in omega arith;
    free = λ k lo hi. absurd (omega arith);
    none_before = λ q end all. elim (dec_le (q + n) p) [
      | yes early ↦ c.none_before q early all
      | no late ↦ let l = c.short in ground (arith, h, all p (omega arith) (omega arith))
    ];
    boundary = λ k e. let e' : k ≡ p = omega arith in ap (is_used s) e' ∙ h;
  }

module _ (s : Pmm) (n : ℕ) where
  -- The bit that a round tests is the one of its page.
  bit-is_used : (i j : ℕ) → j < 8 → bit_is_set (s.memory (s.bitmap + i)) j ≡ is_used s (i * 8 + j)
  unfolding is_used
  bit-is_used i j h =
      let e : i ≡ (i * 8 + j) / 8 = omega arith in
      let e' : j ≡ (i * 8 + j) % 8 = omega arith in
      ap (λ t. bit_is_set (s.memory (s.bitmap + t)) j) e
      ∙ ap (bit_is_set (s.memory (s.bitmap + (i * 8 + j) / 8))) e'

  find_step-Scanned :
      (i j : ℕ) (c : Bool) (m b : ℕ)
      → j < 8
      → Scanned s n (i * 8 + j) (searching c m b)
      → Scanned s n (i * 8 + j + 1) (find_step n s i j c m b)
  unfolding find_step
  find_step-Scanned i j true m b h inv = elim (Bool-cases (is_used s (i * 8 + j))) [
    | inl used ↦ rw (bit-is_used i j h, used) (refl, cut-Chunk s n _ m b inv used)
    | inr unused ↦ rw (bit-is_used i j h, unused) (grow-Scanned s n _ m b inv unused)
  ]
  find_step-Scanned i j false m b h (e, inv) = elim (Bool-cases (is_used s (i * 8 + j))) [
    | inl used ↦ rw (bit-is_used i j h, used) (refl, cut-Chunk s n _ 0 _ inv used)
    | inr unused ↦ rw (bit-is_used i j h, unused, e) (grow-Scanned s n _ 0 _ inv unused)
  ]

  find_in_byte-Scanned :
      (left i j : ℕ) (r : Search)
      → j + left ≡ 8
      → Scanned s n (i * 8 + j) r
      → Scanned s n (i * 8 + 8) (find_in_byte n s i left j r)
  unfolding find_in_byte
  find_in_byte-Scanned left i j (found b) e inv = FirstFit-mono (omega arith) inv
  find_in_byte-Scanned zero i j (searching c m b) e inv =
      subst (λ t. Scanned s n (i * 8 + t) (searching c m b)) (omega arith) inv
  find_in_byte-Scanned (suc left) i j (searching c m b) e inv =
      find_in_byte-Scanned left i (j + 1) (find_step n s i j c m b) (omega arith)
        (rw (← add_assoc (i * 8) j 1) (find_step-Scanned i j c m b (omega arith) inv))

  find_in_bytes-Scanned :
      (left i size : ℕ) (r : Search)
      → i + left ≡ size
      → Scanned s n (i * 8) r
      → Scanned s n (size * 8) (find_in_bytes n s left i r)
  unfolding find_in_bytes
  find_in_bytes-Scanned left i size (found b) e inv = FirstFit-mono (omega arith) inv
  find_in_bytes-Scanned zero i size (searching c m b) e inv =
      subst (λ t. Scanned s n (t * 8) (searching c m b)) (omega arith) inv
  find_in_bytes-Scanned (suc left) i size (searching c m b) e inv =
      find_in_bytes-Scanned left (i + 1) size (find_in_byte n s i 8 0 (searching c m b))
        (omega arith)
        (let e' : (i + 1) * 8 ≡ i * 8 + 8 = omega arith in
          rw e' (
            find_in_byte-Scanned 8 i 0 (searching c m b) refl
              (subst (λ t. Scanned s n t (searching c m b)) (omega arith) inv)))

-- The whole scan, from the first page on.
scan-Scanned :
    (s : Pmm) (n : ℕ)
    → 0 < n
    → Scanned s n (s.bitmap_size * 8) (find_in_bytes n s s.bitmap_size 0 (searching false 0 0))
scan-Scanned s n pos = find_in_bytes-Scanned s n s.bitmap_size 0 s.bitmap_size _ (omega arith) (
  refl,
  record {
    ends = refl;
    short = pos;
    free = λ k lo hi. absurd (omega arith);
    none_before = λ q end all. absurd (omega arith);
    boundary = λ k e. absurd (omega arith);
  },
)

-- `pmm_find_free_pages(n)`, for a positive `n`, returns the base of the first run of `n` free pages
-- that the bitmap has, whenever it has one: every page of the run is free, the run lies within the
-- bitmap, and no run of `n` free pages begins below it.
pub find_free_pages-FirstFit :
    (s : Pmm) (n q : ℕ)
    → 0 < n
    → q + n ≤ s.bitmap_size * 8
    → AllFree s q n
    → Returns (λ b s'. FirstFit s n (s.bitmap_size * 8) b × (s' ≡ s)) (find_free_pages n s)
unfolding find_free_pages
find_free_pages-FirstFit s n q pos fits free =
    go (find_in_bytes n s s.bitmap_size 0 (searching false 0 0)) (scan-Scanned s n pos)
  where
    go :
        (r : Search)
        → Scanned s n (s.bitmap_size * 8) r
        → Returns (λ b s'. FirstFit s n (s.bitmap_size * 8) b × (s' ≡ s)) (conclude r s)
    go (found b) inv = returns (inv, refl)
    go (searching true m b) inv = absurd (inv.none_before q fits free)
    go (searching false m b) (e, inv) = absurd (inv.none_before q fits free)

-- There is a first run of `n` free pages or none.
pub some_run :
    (s : Pmm) (n : ℕ)
    → 0 < n
    → ((b : ℕ) × FirstFit s n (s.bitmap_size * 8) b)
      ⊎ ((q : ℕ) → q + n ≤ s.bitmap_size * 8 → ¬ AllFree s q n)
some_run s n pos =
    go (find_in_bytes n s s.bitmap_size 0 (searching false 0 0)) (scan-Scanned s n pos)
  where
    go :
        (r : Search)
        → Scanned s n (s.bitmap_size * 8) r
        → ((b : ℕ) × FirstFit s n (s.bitmap_size * 8) b)
          ⊎ ((q : ℕ) → q + n ≤ s.bitmap_size * 8 → ¬ AllFree s q n)
    go (found b) inv = inl (b, inv)
    go (searching true m b) inv = inr inv.none_before
    go (searching false m b) (e, inv) = inr inv.none_before

-- Where it has no such run, the kernel panics with "Out of Memory!".
pub find_free_pages-out_of_memory :
    (s : Pmm) (n : ℕ)
    → 0 < n
    → ((q : ℕ) → q + n ≤ s.bitmap_size * 8 → ¬ AllFree s q n)
    → find_free_pages n s ≡ halt out_of_memory
unfolding find_free_pages
find_free_pages-out_of_memory s n pos none =
    go (find_in_bytes n s s.bitmap_size 0 (searching false 0 0)) (scan-Scanned s n pos)
  where
    go : (r : Search) → Scanned s n (s.bitmap_size * 8) r → conclude r s ≡ halt out_of_memory
    go (found b) inv = absurd (none b inv.fits inv.free)
    go (searching true m b) inv = refl
    go (searching false m b) inv = refl
