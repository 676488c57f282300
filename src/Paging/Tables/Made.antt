-- ===== src/Paging/Tables/Made.antt =====
-- The tree of the page tables of symphony/arch/x86_64/mm.c after a missing table was made.
use orchestr_os.Base.{
  ℕ, ◌≤◌, ◌<◌, ◌≡◌, ◌≢◌, sym, ap, ap₂, ◌∙◌, false, List, [], ◌∷◌, ◌⊎◌, inl, inr, arith,
}
use mathlib.Core.Path.{subst}
use native.Mathlib.Decide.{ℕ_discrete}
use orchestr_os.Base.Lists.{length}
use orchestr_os.Memory.{Mem}
use orchestr_os.BootProto.{Limine}
use orchestr_os.Pmm.Pages.{true_ne_false}
use orchestr_os.Paging.Walk.{read_entry, entry_at, table_of}
use orchestr_os.Paging.Tables.{Link, TableAt}
use orchestr_os.Paging.Tables.Frame.{Link-entry}

-- The missing table of the entry `i` of the table `t`, at the path `p`, is now at `new`; no other entry
-- of a table has changed, and the new table has none that is present.
pub record Made (l : Limine) (m m' : Mem) (root : ℕ) (p : List ℕ) (t i new : ℕ) : Type 0 where
  pub at : TableAt l m root p t
  pub absent : (read_entry m (entry_at t i)).present ≡ false
  pub other :
      (q : List ℕ) (u j : ℕ)
      → length q ≤ 3
      → TableAt l m root q u
      → j < 512
      → (u ≢ t) ⊎ (j ≢ i)
      → read_entry m' (entry_at u j) ≡ read_entry m (entry_at u j)
  pub link : Link l m' t i new
  pub empty : (j : ℕ) → j < 512 → (read_entry m' (entry_at new j)).present ≡ false

pub same_place : (u j t i : ℕ) → ((u ≢ t) ⊎ (j ≢ i)) ⊎ ((u ≡ t) × (j ≡ i))
same_place u j t i = elim (ℕ_discrete u t) [
  | no ne ↦ inl (inl ne)
  | yes e ↦ elim (ℕ_discrete j i) [ no ne ↦ inl (inr ne) | yes e' ↦ inr (e, e') ]
]

module _ (l : Limine) (m m' : Mem) (root : ℕ) (p : List ℕ) (t i new : ℕ)
    (made : Made l m m' root p t i new) where
  -- The tables from before are where they were.
  pub Made-kept : (q : List ℕ) (u : ℕ) → length q ≤ 3 → TableAt l m root q u → TableAt l m' root q u
  Made-kept [] u h at = at
  Made-kept (j ∷ q) u h (v, at, link) = elim (same_place v j t i) [
    | inl else_where ↦ (
      v,
      Made-kept q v (omega (arith, h)) at,
      Link-entry (made.other q v j (omega (arith, h)) at link.index else_where) link,
    )
    | inr (e, e') ↦ absurd (
        true_ne_false (
          sym link.present ∙ ap₂ (λ x y. (read_entry m (entry_at x y)).present) e e' ∙ made.absent))
  ]

  -- And the new one is the only other.
  pub Made-back :
      ((q : List ℕ) (u : ℕ) → length q ≤ 3 → TableAt l m root p u → TableAt l m root q u → q ≡ p)
      → (q : List ℕ) (u : ℕ) → length q ≤ 3
      → TableAt l m' root q u
      → TableAt l m root q u ⊎ ((q ≡ i ∷ p) × (u ≡ new))
  Made-back alone [] u h at = inl at
  Made-back alone (j ∷ q) u h (v, at, link) = elim (Made-back alone q v (omega (arith, h)) at) [
    | inr (e, e') ↦ absurd (
        true_ne_false (
          sym link.present
          ∙ ap (λ x. (read_entry m' (entry_at x j)).present) e'
          ∙ made.empty j link.index))
    | inl old ↦ elim (same_place v j t i) [
      | inl else_where ↦ inl (
        v,
        old,
        Link-entry (sym (made.other q v j (omega (arith, h)) old link.index else_where)) link,
      )
      | inr (e, e') ↦ inr (
        ap₂ (λ (x : ℕ) (y : List ℕ). x ∷ y) e'
            (alone q v (omega (arith, h)) (subst (λ x. TableAt l m root p x) (sym e) made.at) old),
        sym link.points
            ∙ ap₂ (λ x y. table_of l (read_entry m' (entry_at x y))) e e'
            ∙ made.link.points,
      )
    ]
  ]
