-- ===== src/Paging/Tables/Empty.antt =====
-- `arch_vmm_new_pt` of symphony/arch/x86_64/mm.c makes page tables that map nothing.
use orchestr_os.Base.{
  ℕ, suc, ◌+◌, ◌*◌, ◌≤◌, ◌<◌, ◌^◌, ◌≡◌, refl, sym, ap, ◌∙◌, false, List, [], ◌∷◌, arith,
}
use orchestr_os.Base.Word.{page_size}
use orchestr_os.Memory.{Mem, memset}
use orchestr_os.BootProto.{Limine}
use orchestr_os.Pmm.State.{Pmm}
use orchestr_os.Pmm.Frames.Laws.{IsPmm, Allocated}
use orchestr_os.Pmm.Pages.{true_ne_false, is_used-write, becomes_used, fresh-Owned}
use orchestr_os.Pmm.Room.{
  HasFree, HasFree-kept, HasFree-fewer, HasFree-Allocated, Spent, Ends, done, Ends-bind, alloc-Ends,
}
use orchestr_os.Paging.Index.{Indexes}
use orchestr_os.Paging.Entry.{PageTableEntry, Opens}
use orchestr_os.Paging.Walk.{read_entry, entry_at, new_pt}
use orchestr_os.Paging.Walk.NewTable.{
  memset-empty, memset-Opens, word_below, cleared_same, table-IsPmm, fits,
}
use orchestr_os.Paging.Tables.{TableAt, IsTable, IsPaging, path, Maps}

-- A root with no entry that is present is the only table.
alone :
    (l : Limine) (m : Mem) (root : ℕ)
    → ((i : ℕ) → i < 512 → (read_entry m (entry_at root i)).present ≡ false)
    → (p : List ℕ) (t : ℕ) → TableAt l m root p t
    → (p ≡ []) × (t ≡ root)
alone l m root empty [] t at = (refl, at)
alone l m root empty (i ∷ p) t (u, at, link) =
    let (_, e) = alone l m root empty p u at in
    absurd (
      true_ne_false
        (sym link.present ∙ ap (λ x. (read_entry m (entry_at x i)).present) e ∙ empty i link.index))

-- A table with no entry that is present is page tables at work, which map no page.
module _ (l : Limine) (s : Pmm) (root : ℕ) (inv : IsPmm l s)
    (below : s.bitmap_size * 8 * page_size + l.hhdm_offset < 2 ^ 64)
    (physical : s.bitmap_size * 8 ≤ 2 ^ 40) (is : IsTable l s root)
    (empty : (i : ℕ) → i < 512 → (read_entry s.memory (entry_at root i)).present ≡ false)
    (opens : (i : ℕ) → i < 512 → Opens (read_entry s.memory (entry_at root i))) where
  pub empty-IsPaging : IsPaging l s root
  empty-IsPaging = record {
    pmm = inv;
    below = below;
    physical = physical;
    tables = λ p t h at. let (_, e) = alone l s.memory root empty p t at in rw (e) is;
    apart = λ p r t h h' at at'.
        let (e, _) = alone l s.memory root empty p t at in
        let (e', _) = alone l s.memory root empty r t at' in e ∙ sym e';
    opens = λ p t i h at lt. let (_, e) = alone l s.memory root empty p t at in rw (e) (opens i lt);
  }

  pub Maps-empty : (i : Indexes) (e : PageTableEntry) → ¬ Maps l s.memory root i e
  Maps-empty i e h =
      let (e', _) = alone l s.memory root empty (path i) h.leaf.last h.leaf.at in not_nil i e'
    where
      not_nil : (i : Indexes) → path i ≡ [] → ⊥
      not_nil i e = cc e

module _ (l : Limine) (s : Pmm) (base : ℕ) (q : Pmm) (inv : IsPmm l s)
    (below : s.bitmap_size * 8 * page_size + l.hhdm_offset < 2 ^ 64)
    (physical : s.bitmap_size * 8 ≤ 2 ^ 40) (got : Allocated s 1 base q) where
  abbrev root : ℕ
  root = base + l.hhdm_offset

  abbrev q' : Pmm
  q' = record q { memory = memset root 0 page_size q.memory }

  empty : (i : ℕ) → i < 512 → (read_entry q'.memory (entry_at root i)).present ≡ false
  empty i lt = memset-empty q.memory root i (fits l s base q inv below got) lt

  root-Opens : (i : ℕ) → i < 512 → Opens (read_entry q'.memory (entry_at root i))
  root-Opens i lt = memset-Opens q.memory root i (fits l s base q inv below got) lt

  tracked : got.page < s.bitmap_size * 8
  tracked = let h = got.fit.fits in omega (arith, h)

  root-IsTable : IsTable l q' root
  root-IsTable = record {
    page = got.page;
    address = ap (λ x. x + l.hhdm_offset) got.address;
    tracked = rw (got.marked.bitmap_size) tracked;
    used =
        is_used-write q q'.memory (cleared_same l s base q inv below got) got.page
          (rw (got.marked.bitmap_size) tracked)
        ∙ becomes_used got.page 1 got.page s q (got.marked.used got.page) (omega arith)
            (omega arith);
    apart = λ a h. (fresh-Owned l s 1 base q inv got a h).apart;
  }

  root-Spent : Spent s 1 q'
  root-Spent run k m le h =
      HasFree-kept q q' run 0 k refl
        (λ j lo lt free.
          is_used-write q q'.memory (cleared_same l s base q inv below got) j lt ∙ free)
        (HasFree-Allocated s run k base q got (HasFree-fewer s run m (suc k) (omega (arith, le)) h))

  fresh-IsPaging :
      IsPaging l q' root × ((i : Indexes) (e : PageTableEntry) → ¬ Maps l q'.memory root i e)
  fresh-IsPaging =
      let pmm' = table-IsPmm l s base q inv below got in
      let below' : q.bitmap_size * 8 * page_size + l.hhdm_offset < 2 ^ 64 =
        rw (got.marked.bitmap_size) below in
      let physical' : q.bitmap_size * 8 ≤ 2 ^ 40 = rw (got.marked.bitmap_size) physical in
      (
        empty-IsPaging l q' root pmm' below' physical' root-IsTable empty root-Opens,
        Maps-empty l q' root pmm' below' physical' root-IsTable empty root-Opens,
      )

-- `arch_vmm_new_pt` returns page tables at work that map no page, or panics for want of memory, and
-- then no page was free; it gives out the first free page only.
pub new_pt-IsPaging :
    (l : Limine) (s : Pmm)
    → IsPmm l s
    → s.bitmap_size * 8 * page_size + l.hhdm_offset < 2 ^ 64
    → s.bitmap_size * 8 ≤ 2 ^ 40
    → Ends
        (¬ HasFree s 0 0 1)
        (λ root t.
          IsPaging l t root
          × ((i : Indexes) (e : PageTableEntry) → ¬ Maps l t.memory root i e)
          × Spent s 1 t)
        (new_pt l s)
unfolding new_pt
new_pt-IsPaging l s inv below physical =
    Ends-bind (alloc-Ends l s inv) (λ few. few)
      λ base q got. rw (word_below (fits l s base q inv below got)) (
        let (paging, empty) = fresh-IsPaging l s base q inv below physical got in
        done (paging, empty, root-Spent l s base q inv below physical got))
