-- ===== src/Paging/Tables/Keep.antt =====
-- The page tables of symphony/arch/x86_64/mm.c while other pages change.
use orchestr_os.Base.{ℕ, ◌+◌, ◌-◌, ◌*◌, ◌/◌, ◌≤◌, ◌<◌, ◌≡◌, sym, ◌∙◌, true, ◌↔◌, List, arith}
use orchestr_os.Base.Lists.{length}
use orchestr_os.Base.Word.{page_size}
use orchestr_os.Memory.{within}
use orchestr_os.BootProto.{Limine}
use orchestr_os.Pmm.State.{Pmm}
use orchestr_os.Pmm.Frames.Laws.{IsPmm}
use orchestr_os.Pmm.Pages.{Owned, KeepsPages}
use orchestr_os.Paging.Index.{Indexes}
use orchestr_os.Paging.Entry.{PageTableEntry}
use orchestr_os.Paging.Walk.{read_entry, entry_at}
use orchestr_os.Paging.Tables.{TableAt, IsTable, IsPaging, path, Maps}
use orchestr_os.Paging.Tables.Frame.{IsTable-entry, read-SamePage, TableAt-same, TableAt-back}
use orchestr_os.Paging.Tables.Reach.{IsIndexes}

page_number :
    (t page hhdm a : ℕ)
    → t ≡ page * page_size + hhdm
    → within t page_size a ≡ true
    → (hhdm ≤ a) × ((a - hhdm) / page_size ≡ page)
page_number t page hhdm a e h = ground (arith, e, h)

-- A byte of a table is one of a page in use.
IsTable-Owned :
    {l : Limine} {s : Pmm} {t : ℕ} (a : ℕ)
    → IsTable l s t
    → within t page_size a ≡ true
    → Owned l s a
IsTable-Owned {l} {s} {t} a is h =
    let (mapped, e) = page_number t is.page l.hhdm_offset a is.address h in
    record {
      mapped = mapped;
      tracked = rw (e) is.tracked;
      used = rw (e) is.used;
      apart = is.apart a h;
    }

module _ (l : Limine) (s s' : Pmm) (root : ℕ) (inv : IsPaging l s root) (pmm' : IsPmm l s')
    (keeps : KeepsPages l s s') where
  same_entry :
      (p : List ℕ) (t i : ℕ)
      → length p ≤ 3
      → TableAt l s.memory root p t
      → i < 512
      → read_entry s'.memory (entry_at t i) ≡ read_entry s.memory (entry_at t i)
  same_entry p t i h at lt =
      let is = inv.tables p t h at in
      read-SamePage s.memory s'.memory t i (λ a w. keeps.bytes a (IsTable-Owned a is w))
        (IsTable-entry i is inv.below lt) lt

  on_the_way :
      (p : List ℕ) (t i : ℕ)
      → length p < 3
      → TableAt l s.memory root p t
      → i < 512
      → read_entry s'.memory (entry_at t i) ≡ read_entry s.memory (entry_at t i)
  on_the_way p t i h at lt = same_entry p t i (omega (arith, h)) at lt

  back :
      (p : List ℕ) (t : ℕ)
      → length p ≤ 3
      → TableAt l s'.memory root p t
      → TableAt l s.memory root p t
  back p t h at = TableAt-back l s.memory s'.memory root p t 3 h on_the_way at

  pub kept-IsPaging : IsPaging l s' root
  kept-IsPaging = record {
    pmm = pmm';
    below = rw (keeps.bitmap_size) inv.below;
    physical = rw (keeps.bitmap_size) inv.physical;
    tables = λ p t h at.
        let is = inv.tables p t h (back p t h at) in
        record {
          page = is.page;
          address = is.address;
          tracked = rw (keeps.bitmap_size) is.tracked;
          used = keeps.used is.page is.tracked is.used;
          apart = λ a w. rw (keeps.bitmap, keeps.bitmap_size) (is.apart a w);
        };
    apart = λ p q t h h' at at'. inv.apart p q t h h' (back p t h at) (back q t h' at');
    opens = λ p t i h at lt.
        let old = back p t (omega (arith, h)) at in
        rw (same_entry p t i (omega (arith, h)) old lt) (inv.opens p t i h old lt);
  }

  pub Maps-kept :
      (i : Indexes) (e : PageTableEntry)
      → IsIndexes i
      → Maps l s.memory root i e ↔ Maps l s'.memory root i e
  Maps-kept i e is = (
    λ h. record {
      leaf = record {
        last = h.leaf.last;
        at =
            TableAt-same l s.memory s'.memory root (path i) h.leaf.last 3 (omega arith) on_the_way
              h.leaf.at;
        entry =
            same_entry (path i) h.leaf.last i.page (omega arith) h.leaf.at is.page ∙ h.leaf.entry;
      };
      present = h.present;
    },
    λ h.
        let at = back (path i) h.leaf.last (omega arith) h.leaf.at in
        record {
          leaf = record {
            last = h.leaf.last;
            at = at;
            entry =
                sym (same_entry (path i) h.leaf.last i.page (omega arith) at is.page)
                ∙ h.leaf.entry;
          };
          present = h.present;
        },
  )
