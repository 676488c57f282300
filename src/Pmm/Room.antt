-- ===== src/Pmm/Room.antt =====
-- How many pages the frame allocator still has, and code that ends although it may run out of them.
use orchestr_os.Base.{
  ℕ, zero, suc, ◌+◌, ◌*◌, ◌≤◌, ◌<◌, ◌≡◌, refl, sym, ◌∙◌, true, false, ltb, ◌⊎◌, inl, inr,
  Bool-cases, arith,
}
use mathlib.Core.Path.{subst}
use native.Mathlib.Decide.{ℕ_discrete}
use orchestr_os.Base.Run.{Run, Returns, returns, ok, halt, Cmd, followed_by, out_of_memory}
use orchestr_os.Memory.{within}
use orchestr_os.BootProto.{Limine}
use orchestr_os.Pmm.State.{Pmm, is_used}
use orchestr_os.Pmm.Find.FirstFit.{AllFree, find_free_pages-out_of_memory, some_run}
use orchestr_os.Pmm.Frames.{alloc}
use orchestr_os.Pmm.Frames.Laws.{IsPmm, Allocated, alloc-Allocated}
use orchestr_os.Pmm.Pages.{true_ne_false}

-- From page `from` on, `n` pages are free, and `run` pages in a row behind them.
abbrev pub HasFree : Pmm → (run from n : ℕ) → Type 0
HasFree s run from zero = (b : ℕ) × (from ≤ b) × (b + run ≤ s.bitmap_size * 8) × AllFree s b run
HasFree s run from (suc n) =
    (k : ℕ) × (from ≤ k) × (k < s.bitmap_size * 8) × (is_used s k ≡ false) × HasFree s run (k + 1) n

pub HasFree-kept :
    (s t : Pmm) (run from n : ℕ)
    → t.bitmap_size ≡ s.bitmap_size
    → ((k : ℕ) → from ≤ k → k < s.bitmap_size * 8 → is_used s k ≡ false → is_used t k ≡ false)
    → HasFree s run from n
    → HasFree t run from n
HasFree-kept s t run from zero e same (b, lo, fits, free) = (
  b,
  lo,
  rw e fits,
  λ k lo' hi. same k (omega (arith, lo, lo')) (omega (arith, hi, fits)) (free k lo' hi),
)
HasFree-kept s t run from (suc n) e same (k, lo, lt, free, more) = (
  k,
  lo,
  rw e lt,
  same k lo lt free,
  HasFree-kept s t run (k + 1) n e (λ j h. same j (omega (arith, lo, h))) more,
)

pub HasFree-down :
    (s : Pmm) (run from to n : ℕ) → to ≤ from → HasFree s run from n → HasFree s run to n
HasFree-down s run from to zero below (b, lo, fits, free) =
    (b, omega (arith, lo, below), fits, free)
HasFree-down s run from to (suc n) below (k, lo, lt, free, more) =
    (k, omega (arith, lo, below), lt, free, more)

pub HasFree-less : (s : Pmm) (run from n : ℕ) → HasFree s run from (suc n) → HasFree s run from n
HasFree-less s run from zero (k, lo, lt, free, more) =
    HasFree-down s run (k + 1) from zero (omega (arith, lo)) more
HasFree-less s run from (suc n) (k, lo, lt, free, more) =
    (k, lo, lt, free, HasFree-less s run (k + 1) n more)

pub HasFree-fewer : (s : Pmm) (run m n : ℕ) → n ≤ m → HasFree s run 0 m → HasFree s run 0 n
HasFree-fewer s run zero n le h =
    let e : n ≡ 0 = omega (arith, le) in subst (λ x. HasFree s run 0 x) (sym e) h
HasFree-fewer s run (suc m) n le h = elim (ℕ_discrete n (suc m)) [
  | yes e ↦ subst (λ x. HasFree s run 0 x) (sym e) h
  | no ne ↦ HasFree-fewer s run m n (omega (arith, le, ne)) (HasFree-less s run 0 m h)
]

-- At most `n` of the first free pages were given out.
abbrev pub Spent : (s : Pmm) (n : ℕ) (s' : Pmm) → Type 0
Spent s n s' = (run k m : ℕ) → k + n ≤ m → HasFree s run 0 m → HasFree s' run 0 k

pub Spent-none : (s : Pmm) (n : ℕ) → Spent s n s
Spent-none s n run k m le h = HasFree-fewer s run m k (omega (arith, le)) h

pub Spent-more : (s t : Pmm) (a b : ℕ) → a ≤ b → Spent s a t → Spent s b t
Spent-more s t a b more spent run k m le h = spent run k m (omega (arith, le, more)) h

pub Spent-trans : (s t u : Pmm) (a b : ℕ) → Spent s a t → Spent t b u → Spent s (a + b) u
Spent-trans s t u a b first next run k m le h =
    next run k (k + b) (omega arith) (first run (k + b) m (omega (arith, le)) h)

-- What is too little after some pages were given out.
pub Spent-few :
    (s t : Pmm) (run a b : ℕ) → Spent s a t → ¬ HasFree t run 0 b → ¬ HasFree s run 0 (a + b)
Spent-few s t run a b spent few h = few (spent run b (a + b) (omega arith) h)

pub HasFree-one : (s : Pmm) (run n : ℕ) → HasFree s run 0 (suc n) → HasFree s 0 0 1
HasFree-one s run n (k, lo, lt, free, more) = (
  k,
  lo,
  lt,
  free,
  (k + 1, omega arith, omega (arith, lt), λ j a b. absurd (omega (arith, a, b))),
)

-- The first free page stands before any other, and giving it out spares those behind.
first_before :
    (s : Pmm) (k base : ℕ) (t : Pmm)
    → (got : Allocated s 1 base t) → is_used s k ≡ false
    → got.page ≤ k
first_before s k base t got free = elim (Bool-cases (ltb k got.page)) [
  | inl early ↦ absurd (got.fit.first k (ground (arith, early)) one)
  | inr late ↦ ground (arith, late)
]
  where
    one : (j : ℕ) → k ≤ j → j < k + 1 → is_used s j ≡ false
    one j a b = let e : j ≡ k = omega (arith, a, b) in rw e free

not_within_one : (page k j : ℕ) → page ≤ k → k + 1 ≤ j → within page 1 j ≡ false
not_within_one page k j h h' = ground (arith, h, h')

spared :
    (s : Pmm) (k base : ℕ) (t : Pmm) (got : Allocated s 1 base t)
    → got.page ≤ k
    → (j : ℕ) → k + 1 ≤ j
    → j < s.bitmap_size * 8
    → is_used s j ≡ false
    → is_used t j ≡ false
spared s k base t got first j h b f = got.marked.used j ∙ rw (not_within_one got.page k j first h) f

-- The pages that are left when the first free one is given out.
pub HasFree-Allocated :
    (s : Pmm) (run n base : ℕ) (t : Pmm)
    → Allocated s 1 base t
    → HasFree s run 0 (suc n)
    → HasFree t run 0 n
HasFree-Allocated s run n base t got (k, lo, lt, free, more) =
    HasFree-down t run (k + 1) 0 n (omega arith) (
      HasFree-kept s t run (k + 1) n got.marked.bitmap_size
        (spared s k base t got (first_before s k base t got free)) more)

some_free :
    (s : Pmm) (n : ℕ)
    → ((k : ℕ) × (k < n) × (is_used s k ≡ false)) ⊎ ((k : ℕ) → k < n → is_used s k ≡ true)
some_free s zero = inr (λ k h. absurd (omega (arith, h)))
some_free s (suc n) = elim (Bool-cases (is_used s n)) [
  | inr free ↦ inl (n, omega arith, free)
  | inl used ↦ elim (some_free s n) [
    | inl (k, lt, free) ↦ inl (k, omega (arith, lt), free)
    | inr all ↦
        inr (λ k h. elim (ℕ_discrete k n) [
          | yes e ↦ rw e used
          | no ne ↦ all k (omega (arith, h, ne))
        ])
  ]
]

-- A run ends with a result for which `P` holds, or with the panic for want of memory, and then `Few`
-- holds.
pub data Ends {S A : Type 0} (Few : Type 0) (P : A → S → Type 0) : Run S A → Type 0 where
  done : {a : A} {s : S} → P a s → Ends Few P (ok a s)
  exhausted : Few → Ends Few P (halt out_of_memory)

module _ {S A : Type 0} {Few : Type 0} {P : A → S → Type 0} where
  pub Ends-bind :
      {B : Type 0} {Few' : Type 0} {Q : B → S → Type 0} {r : Run S A} {k : A → Cmd S B}
      → Ends Few P r
      → (Few → Few')
      → ((a : A) (s : S) → P a s → Ends Few' Q (k a s))
      → Ends Few' Q (followed_by r k)
  Ends-bind (done p) few next = next _ _ p
  Ends-bind (exhausted h) few next = exhausted (few h)

  pub Ends-mono :
      {Few' : Type 0} {Q : A → S → Type 0} {r : Run S A}
      → Ends Few P r
      → (Few → Few')
      → ((a : A) (s : S) → P a s → Q a s)
      → Ends Few' Q r
  Ends-mono (done p) few weaken = done (weaken _ _ p)
  Ends-mono (exhausted h) few weaken = exhausted (few h)

  -- Where there is memory enough, the run returns.
  pub Ends-Returns : {r : Run S A} → Ends Few P r → ¬ Few → Returns P r
  Ends-Returns (done p) enough = returns p
  Ends-Returns (exhausted h) enough = absurd (enough h)

  pub Returns-Ends : {r : Run S A} → Returns P r → Ends Few P r
  Returns-Ends (returns p) = done p

-- The brackets do not matter.
pub Ends-inner :
    {S A B C : Type 0} {Few : Type 0} {P : C → S → Type 0} (r : Run S A) (k : A → Cmd S B)
    (k' : B → Cmd S C)
    → Ends Few P (followed_by (followed_by r k) k')
    → Ends Few P (followed_by r (λ a s. followed_by (k a s) k'))
Ends-inner (ok a s) k k' h = h
Ends-inner (halt e) k k' h = h

alloc_none :
    (s : Pmm)
    → ((k : ℕ) → k < s.bitmap_size * 8 → is_used s k ≡ true)
    → alloc 1 s ≡ halt out_of_memory
unfolding alloc
alloc_none s all = rw (find_free_pages-out_of_memory s 1 (omega arith) none_fits) refl
  where
    none_fits : (q : ℕ) → q + 1 ≤ s.bitmap_size * 8 → ¬ AllFree s q 1
    none_fits q fits free =
        true_ne_false (sym (all q (omega (arith, fits))) ∙ free q (omega arith) (omega arith))

-- `pmm_alloc` of one page gives out a free page where there is one, and panics otherwise.
pub alloc-Ends :
    (l : Limine) (s : Pmm)
    → IsPmm l s
    → Ends (¬ HasFree s 0 0 1) (λ a t. Allocated s 1 a t) (alloc 1 s)
alloc-Ends l s inv = elim (some_free s (s.bitmap_size * 8)) [
  | inl (k, lt, free) ↦
      Returns-Ends (alloc-Allocated l s 1 k inv (omega arith) (omega (arith, lt)) (one k free))
  | inr all ↦
      rw (alloc_none s all)
        (exhausted (λ (k, lo, lt, free, more). true_ne_false (sym (all k lt) ∙ free)))
]
  where
    one : (k : ℕ) → is_used s k ≡ false → AllFree s k 1
    one k free j a b = let e : j ≡ k = omega (arith, a, b) in rw e free

-- No `n` free pages stand in a row.
abbrev pub NoRun : Pmm → (n : ℕ) → Type 0
NoRun s n = (q : ℕ) → q + n ≤ s.bitmap_size * 8 → ¬ AllFree s q n

-- `pmm_alloc` of several pages gives out the first that are free in a row, and panics if there are
-- none.
pub alloc_run-Ends :
    (l : Limine) (s : Pmm) (n : ℕ)
    → IsPmm l s
    → 0 < n
    → Ends (NoRun s n) (λ a t. Allocated s n a t) (alloc n s)
unfolding alloc
alloc_run-Ends l s n inv pos = elim (some_run s n pos) [
  | inl (b, fit) ↦ Returns-Ends (alloc-Allocated l s n b inv pos fit.fits fit.free)
  | inr none_fits ↦ rw (find_free_pages-out_of_memory s n pos none_fits) (exhausted none_fits)
]
