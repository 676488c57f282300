-- ===== src/Vmm/Needs.antt =====
-- How many page tables the calls of `vmm_map` in symphony/mm/vmm.c make: one of each level for the first
-- call that needs it.
use orchestr_os.Base.{
  ℕ, ◌+◌, ◌/◌, ◌%◌, ◌^◌, ◌≡◌, refl, sym, ◌∙◌, Bool, ◌||◌, true, false, Bool-cases, inl, inr, List,
  [], ◌∷◌, ◌++◌, ◌==◌, ==_iff, if◌then◌else◌, arith,
}
use mathlib.Core.Path.{subst}
use orchestr_os.Memory.{Mem}
use orchestr_os.BootProto.{Limine}
use orchestr_os.Pmm.Pages.{true_ne_false}
use orchestr_os.Paging.Index.{page_index}
use orchestr_os.Paging.Tables.{path}
use orchestr_os.Paging.Tables.Reach.{There, Costs}
use orchestr_os.Vmm.{MapCall}

-- The addresses are reached through the same last table, or the same table one or two levels higher.
abbrev pub same_table : (v w : ℕ) → Bool
same_table v w = (v / 2 ^ 21 % 2 ^ 27) == (w / 2 ^ 21 % 2 ^ 27)

abbrev pub same_directory : (v w : ℕ) → Bool
same_directory v w = (v / 2 ^ 30 % 2 ^ 18) == (w / 2 ^ 30 % 2 ^ 18)

abbrev pub same_pointer : (v w : ℕ) → Bool
same_pointer v w = (v / 2 ^ 39 % 2 ^ 9) == (w / 2 ^ 39 % 2 ^ 9)

abbrev any_call : (same : ℕ → ℕ → Bool) → (v : ℕ) → List MapCall → Bool
any_call same v [] = false
any_call same v (c ∷ cs) = same v c.virt_addr || any_call same v cs

abbrev pub needed : (same : ℕ → ℕ → Bool) → (v : ℕ) → (seen : List MapCall) → ℕ
needed same v seen = if any_call same v seen then 0 else 1

abbrev pub tables_for : (seen calls : List MapCall) → ℕ
tables_for seen [] = 0
tables_for seen (c ∷ cs) =
    (needed same_pointer c.virt_addr seen
      + (needed same_directory c.virt_addr seen + needed same_table c.virt_addr seen))
    + tables_for (c ∷ seen) cs

-- The calls so far, the last one first.
abbrev pub after : (calls seen : List MapCall) → List MapCall
after [] seen = seen
after (c ∷ cs) seen = after cs (c ∷ seen)

pub after-append : (xs ys seen : List MapCall) → after (xs ++ ys) seen ≡ after ys (after xs seen)
after-append [] ys seen = refl
after-append (x ∷ xs) ys seen = after-append xs ys (x ∷ seen)

pub tables_for-append :
    (xs ys seen : List MapCall)
    → tables_for seen (xs ++ ys) ≡ tables_for seen xs + tables_for (after xs seen) ys
tables_for-append [] ys seen = omega arith
tables_for-append (x ∷ xs) ys seen = omega (arith, tables_for-append xs ys (x ∷ seen))

-- The tables for the calls are there.
abbrev pub AllThere : Limine → Mem → (root : ℕ) → (seen : List MapCall) → Type 0
AllThere l m root [] = Unit {0}
AllThere l m root (c ∷ cs) = There l m root (path (page_index c.virt_addr)) × AllThere l m root cs

one-There :
    (l : Limine) (m : Mem) (root : ℕ) (same : ℕ → ℕ → Bool) (v : ℕ) (seen : List MapCall)
    → AllThere l m root seen
    → any_call same v seen ≡ true
    → (w : ℕ) × (same v w ≡ true) × There l m root (path (page_index w))
one-There l m root same v [] there e = absurd (true_ne_false (sym e))
one-There l m root same v (c ∷ cs) (here, there) e = elim (Bool-cases (same v c.virt_addr)) [
  | inl yes_same ↦ (c.virt_addr, yes_same, here)
  | inr no_same ↦ one-There l m root same v cs there (sym (rw no_same refl) ∙ e)
]

above : (l : Limine) (m : Mem) (root i : ℕ) (p : List ℕ) → There l m root (i ∷ p) → There l m root p
above l m root i p (u, (t, at, link)) = (t, at)

above_two :
    (l : Limine) (m : Mem) (root i j : ℕ) (p : List ℕ)
    → There l m root (i ∷ j ∷ p)
    → There l m root p
above_two l m root i j p h = above l m root j p (above l m root i (j ∷ p) h)

same_path :
    (v w : ℕ)
    → (same_table v w ≡ true → path (page_index v) ≡ path (page_index w))
      × (same_directory v w ≡ true
          → (page_index v).directory ∷ (page_index v).pointer ∷ []
            ≡ (page_index w).directory ∷ (page_index w).pointer ∷ [])
      × (same_pointer v w ≡ true → (page_index v).pointer ∷ [] ≡ (page_index w).pointer ∷ [])
unfolding page_index
same_path v w = (
  (λ e. ground (arith, (==_iff _ _).0 e)),
  (λ e. ground (arith, (==_iff _ _).0 e)),
  (λ e. ground (arith, (==_iff _ _).0 e)),
)

pub calls-Costs :
    (l : Limine) (m : Mem) (root v : ℕ) (seen : List MapCall)
    → AllThere l m root seen
    → Costs l m root
        (page_index v)
        (needed same_pointer v seen)
        (needed same_directory v seen)
        (needed same_table v seen)
calls-Costs l m root v seen there = record {
  top = elim (Bool-cases (any_call same_pointer v seen)) [
    | inl found ↦
        let (w, same, at) = one-There l m root same_pointer v seen there found in
        inl (
          subst (λ p. There l m root p) (sym ((same_path v w).2 same))
            (above_two l m root _ _ ((page_index w).pointer ∷ []) at))
    | inr none_found ↦ rw none_found (inr (omega arith))
  ];
  middle = elim (Bool-cases (any_call same_directory v seen)) [
    | inl found ↦
        let (w, same, at) = one-There l m root same_directory v seen there found in
        inl (
          subst (λ p. There l m root p) (sym ((same_path v w).1 same))
            (above l m root _ ((page_index w).directory ∷ (page_index w).pointer ∷ []) at))
    | inr none_found ↦ rw none_found (inr (omega arith))
  ];
  low = elim (Bool-cases (any_call same_table v seen)) [
    | inl found ↦
        let (w, same, at) = one-There l m root same_table v seen there found in
        inl (subst (λ p. There l m root p) (sym ((same_path v w).0 same)) at)
    | inr none_found ↦ rw none_found (inr (omega arith))
  ];
}
