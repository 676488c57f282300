-- ===== src/Paging/Tables/Grow.antt =====
-- The page tables of symphony/arch/x86_64/mm.c after tables were made and an entry was written.
use orchestr_os.Base.{ℕ, ◌*◌, ◌≤◌, ◌<◌, ◌≡◌, refl, ap, ◌∙◌, true, false, List, ◌⊎◌, inl, inr, arith}
use orchestr_os.Base.Lists.{length}
use orchestr_os.Base.Word.{page_size}
use orchestr_os.Memory.{within}
use orchestr_os.BootProto.{Limine}
use orchestr_os.Pmm.State.{Pmm, is_used}
use orchestr_os.Pmm.Pages.{Owned}
use orchestr_os.Paging.Entry.{PageTableEntry}
use orchestr_os.Paging.Walk.{read_entry, entry_at}
use orchestr_os.Paging.Tables.{TableAt, IsPaging}

-- A byte of a page in use that is in no table.
pub record Untouched (l : Limine) (s : Pmm) (root a : ℕ) : Type 0 where
  pub owned : Owned l s a
  pub no_table :
      (p : List ℕ) (t : ℕ)
      → length p ≤ 3
      → TableAt l s.memory root p t
      → within t page_size a ≡ false

-- Tables were made: those from before and their last level are as they were, and no entry of a new
-- last table is present; other bytes in use have not changed.
pub record Grown (l : Limine) (s : Pmm) (root : ℕ) (s' : Pmm) : Type 0 where
  pub paging : IsPaging l s' root
  pub bitmap_size : s'.bitmap_size ≡ s.bitmap_size
  pub tables :
      (p : List ℕ) (t : ℕ)
      → length p ≤ 3
      → TableAt l s.memory root p t
      → TableAt l s'.memory root p t
  pub leaves :
      (p : List ℕ) (t i : ℕ)
      → length p ≡ 3
      → TableAt l s.memory root p t
      → i < 512
      → read_entry s'.memory (entry_at t i) ≡ read_entry s.memory (entry_at t i)
  pub fresh :
      (p : List ℕ) (t : ℕ)
      → length p ≡ 3
      → TableAt l s'.memory root p t
      → TableAt l s.memory root p t
        ⊎ ((i : ℕ) → i < 512 → (read_entry s'.memory (entry_at t i)).present ≡ false)
  pub used : (k : ℕ) → k < s.bitmap_size * 8 → is_used s k ≡ true → is_used s' k ≡ true
  pub kept : (a : ℕ) → Untouched l s root a → Untouched l s' root a × (s'.memory a ≡ s.memory a)

pub Grown-refl : {l : Limine} {s : Pmm} {root : ℕ} → IsPaging l s root → Grown l s root s
Grown-refl inv = record {
  paging = inv;
  bitmap_size = refl;
  tables = λ p t h at. at;
  leaves = λ p t i h at lt. refl;
  fresh = λ p t h at. inl at;
  used = λ k lt h. h;
  kept = λ a h. (h, refl);
}

pub Grown-trans :
    {l : Limine} {s t u : Pmm} {root : ℕ} → Grown l s root t → Grown l t root u → Grown l s root u
Grown-trans {l} {s} {t} {u} {root} a b = record {
  paging = b.paging;
  bitmap_size = b.bitmap_size ∙ a.bitmap_size;
  tables = λ p x h at. b.tables p x h (a.tables p x h at);
  leaves = λ p x i h at lt.
      b.leaves p x i h (a.tables p x (omega (arith, h)) at) lt ∙ a.leaves p x i h at lt;
  fresh = fresh;
  used = λ k lt h. b.used k (rw (a.bitmap_size) lt) (a.used k lt h);
  kept = λ x h. let (h', e) = a.kept x h in let (h'', e') = b.kept x h' in (h'', e' ∙ e);
}
  where
    fresh :
        (p : List ℕ) (x : ℕ)
        → length p ≡ 3
        → TableAt l u.memory root p x
        → TableAt l s.memory root p x
          ⊎ ((i : ℕ) → i < 512 → (read_entry u.memory (entry_at x i)).present ≡ false)
    fresh p x h at = elim (b.fresh p x h at) [
      | inr empty ↦ inr empty
      | inl mid ↦ elim (a.fresh p x h mid) [
        | inl old ↦ inl old
        | inr empty ↦
            inr (λ i lt.
              ap (λ (e : PageTableEntry). e.present) (b.leaves p x i h mid lt) ∙ empty i lt)
      ]
    ]
