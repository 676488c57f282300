-- ===== src/Paging/Tables/Change.antt =====
-- The map from pages to entries after a walk of symphony/arch/x86_64/mm.c and a change of the entry that it
-- finds.
use orchestr_os.Base.{
  List, ◌≤◌, ℕ, ◌*◌, ◌<◌, ◌^◌, ◌≡◌, ◌≢◌, refl, sym, ap, ◌∙◌, true, ◌⊎◌, inl, inr, arith,
}
use mathlib.Core.Path.{subst}
use native.Mathlib.Decide.{ℕ_discrete}
use orchestr_os.Memory.Words.{store64}
use orchestr_os.BootProto.{Limine}
use orchestr_os.Pmm.State.{Pmm, is_used}
use orchestr_os.Pmm.Pages.{true_ne_false}
use orchestr_os.Base.Lists.{length}
use orchestr_os.Pmm.Room.{HasFree-kept, Spent}
use orchestr_os.Paging.Index.{Indexes}
use orchestr_os.Paging.Entry.{PageTableEntry, entry_word}
use orchestr_os.Paging.Walk.{read_entry, entry_at}
use orchestr_os.Paging.Tables.{TableAt, IsPaging, path, LeafAt, Maps}
use orchestr_os.Paging.Tables.Frame.{TableAt-unique}
use orchestr_os.Paging.Tables.Grow.{Untouched, Grown}
use orchestr_os.Paging.Tables.Reach.{IsIndexes}
use orchestr_os.Paging.Tables.Write

-- The entry for the indexes was `old`, where its table was there, and is `new`; every other page is
-- mapped as before, and other bytes in use have not changed.
pub record Changed (l : Limine) (s : Pmm) (root : ℕ) (i : Indexes) (n : ℕ)
    (old new : PageTableEntry) (s' : Pmm) : Type 0 where
  pub paging : IsPaging l s' root
  pub bitmap_size : s'.bitmap_size ≡ s.bitmap_size
  pub leaf : LeafAt l s'.memory root i new
  pub before : (e : PageTableEntry) → LeafAt l s.memory root i e → e ≡ old
  pub maps :
      (j : Indexes) (e : PageTableEntry)
      → IsIndexes j
      → j ≢ i
      → Maps l s.memory root j e
      → Maps l s'.memory root j e
  pub maps_back :
      (j : Indexes) (e : PageTableEntry)
      → IsIndexes j
      → j ≢ i
      → Maps l s'.memory root j e
      → Maps l s.memory root j e
  pub tables :
      (p : List ℕ) (x : ℕ)
      → length p ≤ 3
      → TableAt l s.memory root p x
      → TableAt l s'.memory root p x
  pub spent : Spent s n s'
  pub used : (k : ℕ) → k < s.bitmap_size * 8 → is_used s k ≡ true → is_used s' k ≡ true
  pub kept : (a : ℕ) → Untouched l s root a → Untouched l s' root a × (s'.memory a ≡ s.memory a)

pub Changed-trans :
    {l : Limine} {s t u : Pmm} {root : ℕ} {i : Indexes} {n : ℕ} {old mid mid' new : PageTableEntry}
    → Changed l s root i n old mid t
    → Changed l t root i 0 mid' new u
    → Changed l s root i n old new u
Changed-trans {n = n} a b = record {
  paging = b.paging;
  bitmap_size = b.bitmap_size ∙ a.bitmap_size;
  leaf = b.leaf;
  before = a.before;
  maps = λ j e is ne h. b.maps j e is ne (a.maps j e is ne h);
  maps_back = λ j e is ne h. a.maps_back j e is ne (b.maps_back j e is ne h);
  tables = λ p x h at. b.tables p x h (a.tables p x h at);
  spent = λ run k m le h. b.spent run k k (omega arith) (a.spent run k m le h);
  used = λ k lt h. b.used k (rw (a.bitmap_size) lt) (a.used k lt h);
  kept = λ x h. let (h', e) = a.kept x h in let (h'', e') = b.kept x h' in (h'', e' ∙ e);
}

-- Indexes with the same path and the same entry in the last table are the same.
same_indexes : (i j : Indexes) → path j ≡ path i → j.page ≡ i.page → j ≡ i
same_indexes i j e e' = ground (arith, e, e')

-- Equal tables are at equal paths.
else_where :
    (l : Limine) (s : Pmm) (root : ℕ) (i j : Indexes) (last last' : ℕ)
    → IsPaging l s root
    → TableAt l s.memory root (path i) last
    → TableAt l s.memory root (path j) last'
    → j ≢ i
    → (last' ≢ last) ⊎ (j.page ≢ i.page)
else_where l s root i j last last' inv at at' ne = elim (ℕ_discrete last' last) [
  | no differ ↦ inl differ
  | yes e ↦ elim (ℕ_discrete j.page i.page) [
    | no differ ↦ inr differ
    | yes e' ↦
        let same =
          inv.apart (path j) (path i) last (omega arith) (omega arith)
            (subst (λ x. TableAt l s.memory root (path j) x) e at') at in
        absurd (ne (same_indexes i j same e'))
  ]
]

module _ (l : Limine) (s t : Pmm) (root : ℕ) (i : Indexes) (last : ℕ) (new : PageTableEntry)
    (grown : Grown l s root t) (at : TableAt l t.memory root (path i) last) (is : IsIndexes i)
    (small : new.avl1 < 2 ^ 4) (small' : new.addr < 2 ^ 51) (n : ℕ) (spent : Spent s n t) where
  abbrev pte : ℕ
  pte = entry_at last i.page

  abbrev t' : Pmm
  t' = record t { memory = store64 t.memory pte (entry_word new) }

  other :
      (j : Indexes) (u : ℕ)
      → IsIndexes j
      → j ≢ i
      → TableAt l t.memory root (path j) u
      → read_entry t'.memory (entry_at u j.page) ≡ read_entry t.memory (entry_at u j.page)
  other j u is' ne there =
      Write.written-other l t root (path i) last i.page new grown.paging refl at is.page small
        small' (path j) u j.page (omega arith) there is'.page
        (else_where l t root i j last u grown.paging at there ne)

  Maps-kept :
      (j : Indexes) (e : PageTableEntry)
      → IsIndexes j
      → j ≢ i
      → Maps l s.memory root j e
      → Maps l t'.memory root j e
  Maps-kept j e is' ne h =
      let there = grown.tables (path j) h.leaf.last (omega arith) h.leaf.at in
      record {
        leaf = record {
          last = h.leaf.last;
          at =
              Write.written-TableAt l t root (path i) last i.page new grown.paging refl at is.page
                small small' (path j) h.leaf.last (omega arith) there;
          entry =
              other j h.leaf.last is' ne there
              ∙ grown.leaves (path j) h.leaf.last j.page refl h.leaf.at is'.page
              ∙ h.leaf.entry;
        };
        present = h.present;
      }

  Maps-back :
      (j : Indexes) (e : PageTableEntry)
      → IsIndexes j
      → j ≢ i
      → Maps l t'.memory root j e
      → Maps l s.memory root j e
  Maps-back j e is' ne h =
      let there =
        Write.written-back l t root (path i) last i.page new grown.paging refl at is.page small
          small' (path j) h.leaf.last (omega arith) h.leaf.at in
      let same = sym (other j h.leaf.last is' ne there) ∙ h.leaf.entry in
      elim (grown.fresh (path j) h.leaf.last refl there) [
        | inl old ↦ record {
          leaf = record {
            last = h.leaf.last;
            at = old;
            entry = sym (grown.leaves (path j) h.leaf.last j.page refl old is'.page) ∙ same;
          };
          present = h.present;
        }
        | inr empty ↦ absurd (
            true_ne_false (
              sym h.present
              ∙ ap (λ (x : PageTableEntry). x.present) (sym same)
              ∙ empty j.page is'.page))
      ]

  before : (e : PageTableEntry) → LeafAt l s.memory root i e → e ≡ read_entry t.memory pte
  before e h =
      let there = grown.tables (path i) h.last (omega arith) h.at in
      let same = TableAt-unique l t.memory root (path i) h.last last there at in
      sym h.entry
      ∙ sym (grown.leaves (path i) h.last i.page refl h.at is.page)
      ∙ ap (λ x. read_entry t.memory (entry_at x i.page)) same

  pub written-Changed : Changed l s root i n (read_entry t.memory pte) new t'
  written-Changed = record {
    paging =
        Write.written-IsPaging l t root (path i) last i.page new grown.paging refl at is.page small
          small';
    bitmap_size = grown.bitmap_size;
    leaf = record {
      last = last;
      at =
          Write.written-TableAt l t root (path i) last i.page new grown.paging refl at is.page small
            small' (path i) last (omega arith) at;
      entry =
          Write.written-entry l t root (path i) last i.page new grown.paging refl at is.page small
            small';
    };
    before = before;
    maps = Maps-kept;
    maps_back = Maps-back;
    tables = λ p x h there.
        Write.written-TableAt l t root (path i) last i.page new grown.paging refl at is.page small
          small' p x h (grown.tables p x h there);
    spent = λ run k m le h.
        HasFree-kept t t' run 0 k refl
          (λ j lo lt free.
            Write.written_used l t root (path i) last i.page new grown.paging refl at is.page small
              small' j lt
            ∙ free)
          (spent run k m le h);
    used = λ k lt h.
        Write.written_used l t root (path i) last i.page new grown.paging refl at is.page small
          small' k (rw (grown.bitmap_size) lt)
        ∙ grown.used k lt h;
    kept = λ a h.
        let (h', e) = grown.kept a h in
        let (h'', e') =
          Write.written_kept l t root (path i) last i.page new grown.paging refl at is.page small
            small' a h' in
        (h'', e' ∙ e);
  }
