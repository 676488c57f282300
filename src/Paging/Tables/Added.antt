-- ===== src/Paging/Tables/Added.antt =====
-- The page tables of symphony/arch/x86_64/mm.c with one more table.
use orchestr_os.Base.{
  ℕ, suc, ◌+◌, ◌-◌, ◌*◌, ◌/◌, ◌≤◌, ◌<◌, ◌≡◌, ◌≢◌, refl, sym, ap, ◌∙◌, true, false, not, List, ◌∷◌,
  ◌⊎◌, inl, inr, arith, Bool-cases, if◌then◌else◌,
}
use mathlib.Core.Path.{subst}
use orchestr_os.Base.Lists.{length}
use orchestr_os.Base.Word.{page_size}
use orchestr_os.Memory.{within}
use orchestr_os.Memory.Words.{store64-outside}
use orchestr_os.BootProto.{Limine}
use orchestr_os.Pmm.State.{Pmm, is_used}
use orchestr_os.Pmm.Frames.Laws.{Allocated}
use orchestr_os.Pmm.Pages.{
  Owned, true_ne_false, stays_used, becomes_used, outside_of, page_of, fresh-Owned,
}
use orchestr_os.Pmm.Room.{HasFree, HasFree-kept, HasFree-Allocated}
use orchestr_os.Paging.Entry.{Opens}
use orchestr_os.Paging.Walk.{read_entry, entry_at}
use orchestr_os.Paging.Tables.{TableAt, IsTable, IsPaging}
use orchestr_os.Paging.Tables.Made.{Made, same_place, Made-kept, Made-back}
use orchestr_os.Paging.Tables.Grow.{Untouched, Grown}
use orchestr_os.Paging.Tables.Next

same_page_number : (x page : ℕ) → page ≤ x → x < page + 1 → x ≡ page
same_page_number x page h h' = omega arith

at_least_one : (page : ℕ) → page < page + 1
at_least_one page = omega arith

module _ (l : Limine) (s : Pmm) (root : ℕ) (p : List ℕ) (t i : ℕ) (inv : IsPaging l s root)
    (short : length p ≤ 2) (at : TableAt l s.memory root p t) (lt : i < 512)
    (absent : (read_entry s.memory (entry_at t i)).present ≡ false) (base : ℕ) (q : Pmm)
    (got : Allocated s 1 base q) where
  abbrev s' : Pmm
  s' = Next.s' l s root p t i inv short at lt absent base q got

  abbrev new : ℕ
  new = base + l.hhdm_offset

  made : Made l s.memory s'.memory root p t i new
  made = Next.made l s root p t i inv short at lt absent base q got

  used :
      (k : ℕ)
      → k < s.bitmap_size * 8
      → is_used s' k ≡ (if within got.page 1 k then true else is_used s k)
  used = Next.used' l s root p t i inv short at lt absent base q got

  back :
      (r : List ℕ) (u : ℕ)
      → length r ≤ 3
      → TableAt l s'.memory root r u
      → TableAt l s.memory root r u ⊎ ((r ≡ i ∷ p) × (u ≡ new))
  back =
      Made-back l s.memory s'.memory root p t i new made
        (λ r u h here there. inv.apart r p u h (omega (arith, short)) there here)

  old-IsTable : (u : ℕ) → IsTable l s u → IsTable l s' u
  old-IsTable u is = record {
    page = is.page;
    address = is.address;
    tracked = rw (got.marked.bitmap_size) is.tracked;
    used = stays_used got.page 1 is.page s s' (used is.page is.tracked) is.used;
    apart = λ a h. rw (got.marked.bitmap, got.marked.bitmap_size) (is.apart a h);
  }

  tracked : got.page < s.bitmap_size * 8
  tracked = let fits = got.fit.fits in omega (arith, fits)

  new-IsTable : IsTable l s' new
  new-IsTable = record {
    page = got.page;
    address = Next.new_address l s root p t i inv short at lt absent base q got;
    tracked = rw (got.marked.bitmap_size) tracked;
    used =
        becomes_used got.page 1 got.page s s' (used got.page tracked) (omega arith)
          (at_least_one got.page);
    apart = λ a h. (fresh-Owned l s 1 base q inv.pmm got a h).apart;
  }

  not_new : (r : List ℕ) (u : ℕ) → length r ≤ 3 → TableAt l s.memory root r u → u ≢ new
  not_new r u h there =
      Next.new_apart l s root p t i inv short at lt absent base q got u (inv.tables r u h there)

  added-Opens :
      (r : List ℕ) (u j : ℕ)
      → length r ≤ 2
      → TableAt l s'.memory root r u
      → j < 512
      → Opens (read_entry s'.memory (entry_at u j))
  added-Opens r u j h there small = elim (back r u (omega (arith, h)) there) [
    | inr (e, e') ↦
        rw (e') (Next.new-Opens l s root p t i inv short at lt absent base q got j small)
    | inl old ↦ elim (same_place u j t i) [
      | inl else_where ↦
          rw (made.other r u j (omega (arith, h)) old small else_where)
            (inv.opens r u j h old small)
      | inr (e, e') ↦ rw (e, e') (Next.link-Opens l s root p t i inv short at lt absent base q got)
    ]
  ]

  added-IsPaging : IsPaging l s' root
  added-IsPaging = record {
    pmm = Next.pmm' l s root p t i inv short at lt absent base q got;
    below = rw (got.marked.bitmap_size) inv.below;
    physical = rw (got.marked.bitmap_size) inv.physical;
    tables = λ r u h there. elim (back r u h there) [
      | inl old ↦ old-IsTable u (inv.tables r u h old)
      | inr (e, e') ↦ subst (λ x. IsTable l s' x) (sym e') new-IsTable
    ];
    apart = λ r r' u h h' there there'. elim (back r u h there) [
      | inl old ↦ elim (back r' u h' there') [
        | inl old' ↦ inv.apart r r' u h h' old old'
        | inr (e, e') ↦ absurd (not_new r u h old e')
      ]
      | inr (e, e') ↦ elim (back r' u h' there') [
        | inl old' ↦ absurd (not_new r' u h' old' e')
        | inr (f, f') ↦ e ∙ sym f
      ]
    ];
    opens = added-Opens;
  }

  -- The table with the missing entry is not of the last level.
  not_last : (r : List ℕ) (u : ℕ) → length r ≡ 3 → TableAt l s.memory root r u → u ≢ t
  not_last r u h there e =
      let same =
        inv.apart r p u (omega (arith, h)) (omega (arith, short)) there
          (subst (λ x. TableAt l s.memory root p x) (sym e) at) in
      let n : length r ≡ length p = ap length same in absurd (omega (arith, n, h, short))

  out_of_new : (a : ℕ) → Owned l s a → within new page_size a ≡ false
  out_of_new a owned = elim (Bool-cases (within new page_size a)) [
    | inr out ↦ out
    | inl in_new ↦
        let (mapped, lo, hi) = page_of base got.page l.hhdm_offset 1 a got.address in_new in
        let e = same_page_number ((a - l.hhdm_offset) / page_size) got.page lo hi in
        absurd (
          true_ne_false (
            sym owned.used
            ∙ ap (is_used s) e
            ∙ Next.page_free l s root p t i inv short at lt absent base q got))
  ]

  kept : (a : ℕ) → Untouched l s root a → Untouched l s' root a × (s'.memory a ≡ s.memory a)
  kept a h =
      let out = out_of_new a h.owned in
      (
        record {
          owned = record {
            mapped = h.owned.mapped;
            tracked = rw (got.marked.bitmap_size) h.owned.tracked;
            used = stays_used got.page 1 _ s s' (used _ h.owned.tracked) h.owned.used;
            apart = rw (got.marked.bitmap, got.marked.bitmap_size) h.owned.apart;
          };
          no_table = λ r u short' there. elim (back r u short' there) [
            | inl old ↦ h.no_table r u short' old
            | inr (e, e') ↦ rw (e') out
          ];
        },
        store64-outside _ (entry_at t i) _ a (
              outside_of (entry_at t i) 8 a (λ x. not (within t page_size x))
                (λ w. ap not (Next.in_table l s root p t i inv short at lt absent base q got a w))
                (ap not (h.no_table p t (omega (arith, short)) at)))
            ∙ Next.cleared_old l s root p t i inv short at lt absent base q got a out h.owned.apart,
      )

  pub added-Grown : Grown l s root s'
  added-Grown = record {
    paging = added-IsPaging;
    bitmap_size = got.marked.bitmap_size;
    tables = Made-kept l s.memory s'.memory root p t i new made;
    leaves = λ r u j h there small.
        made.other r u j (omega (arith, h)) there small (inl (not_last r u h there));
    fresh = λ r u h there. elim (back r u (omega (arith, h)) there) [
      | inl old ↦ inl old
      | inr (e, e') ↦ inr (λ j small. rw (e') (made.empty j small))
    ];
    used = λ k small h. stays_used got.page 1 k s s' (used k small) h;
    kept = kept;
  }

  pub added-TableAt : TableAt l s'.memory root (i ∷ p) new
  added-TableAt = (
    t,
    Made-kept l s.memory s'.memory root p t i new made p t (omega (arith, short)) at,
    made.link,
  )

  pub added-HasFree : (run n : ℕ) → HasFree s run 0 (suc n) → HasFree s' run 0 n
  added-HasFree run n h =
      HasFree-kept q s' run 0 n refl
        (λ k lo small f.
          Next.used_same l s root p t i inv short at lt absent base q got k small ∙ f)
        (HasFree-Allocated s run n base q got h)
