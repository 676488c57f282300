-- ===== src/Paging/Tables/Map.antt =====
-- arch_vmm_map, arch_vmm_unmap and arch_vmm_set_flags of symphony/arch/x86_64/mm.c as changes of the
-- map from pages to entries.
use orchestr_os.Base.{ℕ, ◌+◌, inr, ◌/◌, ◌%◌, ◌<◌, ◌^◌, ◌≡◌, sym, ap, ◌∙◌, arith}
use mathlib.Core.Path.{subst}
use orchestr_os.Base.Run.{Returns, returns, Returns-mono}
use orchestr_os.Memory.{Mem}
use orchestr_os.Memory.Words.{store64}
use orchestr_os.BootProto.{Limine}
use orchestr_os.Pmm.State.{Pmm}
use orchestr_os.Pmm.Pages.{true_ne_false}
use orchestr_os.Pmm.Room.{HasFree, Spent-none, Ends, done, Ends-bind, Ends-mono, Returns-Ends}
use orchestr_os.Paging.Index.{Indexes, page_index}
use orchestr_os.Paging.Entry.{PageTableEntry, entry_word, set_entry_flags, map_entry, unmap_entry}
use orchestr_os.Paging.Walk.{
  read_entry, write_entry, entry_at, update_page, vmm_map, vmm_set_flags, vmm_unmap,
}
use orchestr_os.Paging.Walk.Present.{Walk, Walk-found, read_entry-bounds}
use orchestr_os.Paging.Tables.{Link, TableAt, IsPaging, path, LeafAt, Maps}
use orchestr_os.Paging.Tables.Frame.{TableAt-unique}
use orchestr_os.Paging.Tables.Grow.{Grown-refl}
use orchestr_os.Paging.Tables.Reach.{IsIndexes, Costs, page_from_index-Ends}
use orchestr_os.Paging.Tables.Change.{Changed, Changed-trans, written-Changed}

pub page_index-IsIndexes : (v : ℕ) → IsIndexes (page_index v)
unfolding page_index
page_index-IsIndexes v = record {
  page = omega arith;
  table = omega arith;
  directory = omega arith;
  pointer = omega arith;
}

-- The entry fits its bit fields.
pub record FitsFields (e : PageTableEntry) : Type 0 where
  pub avl1 : e.avl1 < 2 ^ 4
  pub addr : e.addr < 2 ^ 51

read_entry-FitsFields : (m : Mem) (at : ℕ) → FitsFields (read_entry m at)
read_entry-FitsFields m at = record {
  avl1 = (read_entry-bounds m at).0;
  addr = (read_entry-bounds m at).1;
}

-- A change of an entry within its bit fields.
abbrev pub KeepsFields : (PageTableEntry → PageTableEntry) → Type 0
KeepsFields change = (e : PageTableEntry) → FitsFields e → FitsFields (change e)

-- What a walk that makes at most `n` tables, and a change of the entry, leave.
abbrev pub Updates :
    Limine → Pmm → (root : ℕ) → Indexes → (n : ℕ) → (PageTableEntry → PageTableEntry) → Pmm → Type 0
Updates l s root i n change s' =
    (old : PageTableEntry) × FitsFields old × Changed l s root i n old (change old) s'

-- One table of each level, at most, is missing.
pub three_missing : (l : Limine) (m : Mem) (root : ℕ) (i : Indexes) → Costs l m root i 1 1 1
three_missing l m root i = record {
  top = inr (omega arith);
  middle = inr (omega arith);
  low = inr (omega arith);
}

pub update_page-Ends :
    (l : Limine) (s : Pmm) (root virt_addr : ℕ) (change : PageTableEntry → PageTableEntry)
    (run a b c : ℕ)
    → IsPaging l s root
    → KeepsFields change
    → Costs l s.memory root (page_index virt_addr) a b c
    → Ends
        (¬ HasFree s run 0 (a + (b + c)))
        (λ _ s'. Updates l s root (page_index virt_addr) (a + (b + c)) change s')
        (update_page l root virt_addr change s)
unfolding update_page write_entry
update_page-Ends l s root virt_addr change run a b c inv keeps costs =
    let i = page_index virt_addr in
    Ends-bind (page_from_index-Ends l s root i run a b c inv (page_index-IsIndexes virt_addr) costs)
      (λ few. few)
      λ pte t found.
        let old = read_entry t.memory (entry_at found.last i.page) in
        let fits = read_entry-FitsFields t.memory (entry_at found.last i.page) in
        let fits' = keeps old fits in
        rw (found.pte_lem) (
          done (
            old,
            fits,
            written-Changed l s t root i found.last (change old) found.grown found.at
                (page_index-IsIndexes virt_addr) fits'.avl1 fits'.addr (a + (b + c)) found.spent,
          ))

TableAt-Walk :
    (l : Limine) (m : Mem) (root : ℕ) (i : Indexes) (last : ℕ)
    → TableAt l m root (path i) last
    → (pdp : ℕ) × (pd : ℕ) × Walk l m root i pdp pd last
TableAt-Walk l m root i last (pd, (pdp, (r, e, link0), link1), link2) =
    let top : Link l m root i.pointer pdp = subst (λ x. Link l m x i.pointer pdp) e link0 in
    (
      pdp,
      pd,
      record {
        present_1 = top.present;
        pdp_lem = top.points;
        present_2 = link1.present;
        pd_lem = link1.points;
        present_3 = link2.present;
        last_lem = link2.points;
      },
    )

-- Where the table is there, no memory is needed.
pub update_page-there :
    (l : Limine) (s : Pmm) (root virt_addr : ℕ) (change : PageTableEntry → PageTableEntry)
    (e : PageTableEntry)
    → IsPaging l s root
    → FitsFields (change e)
    → LeafAt l s.memory root (page_index virt_addr) e
    → Returns
        (λ _ s'. Changed l s root (page_index virt_addr) 0 e (change e) s')
        (update_page l root virt_addr change s)
unfolding update_page write_entry
update_page-there l s root virt_addr change e inv fits leaf =
    let i = page_index virt_addr in
    let (pdp, pd, walk) = TableAt-Walk l s.memory root i leaf.last leaf.at in
    let s' = record s {
      memory = store64 s.memory (entry_at leaf.last i.page) (entry_word (change e));
    } in
    rw (Walk-found l s root i pdp pd leaf.last walk, leaf.entry)
      (returns (
        subst (λ x. Changed l s root i 0 x (change e) s') leaf.entry
          (written-Changed l s s root i leaf.last (change e) (Grown-refl inv) leaf.at
            (page_index-IsIndexes virt_addr) fits.avl1 fits.addr 0 (Spent-none s 0))))

abbrev set_addr : (phys_addr : ℕ) → PageTableEntry → PageTableEntry
set_addr phys_addr e = record e { addr = phys_addr / 2 ^ 12 % 2 ^ 51 }

set_addr-KeepsFields : (phys_addr : ℕ) → KeepsFields (set_addr phys_addr)
set_addr-KeepsFields phys_addr e fits = record { avl1 = fits.avl1; addr = omega arith }

set_entry_flags-KeepsFields : (flags : ℕ) → KeepsFields (set_entry_flags flags)
unfolding set_entry_flags
set_entry_flags-KeepsFields flags e fits = record { avl1 = fits.avl1; addr = fits.addr }

unmap_entry-KeepsFields : KeepsFields unmap_entry
unfolding unmap_entry
unmap_entry-KeepsFields e fits = record { avl1 = fits.avl1; addr = omega arith }

-- `arch_vmm_map` on page tables at work, with at most `a`, `b` and `c` tables missing on the three
-- levels below the top, returns, or panics for want of memory, and then fewer than `a + (b + c)` pages
-- were free with `run` more in a row behind them. After it the page tables are at work, the page of
-- the address has the entry with the new address and flags, every other page is mapped by the same
-- entry as before or is not mapped as before, all tables from before are there, at most the first
-- `a + (b + c)` free pages were given out, and the bytes of pages in use that are no page tables have
-- not changed.
pub vmm_map-Updates :
    (l : Limine) (s : Pmm) (root phys_addr virt_addr flags run a b c : ℕ)
    → IsPaging l s root
    → Costs l s.memory root (page_index virt_addr) a b c
    → Ends
        (¬ HasFree s run 0 (a + (b + c)))
        (λ _ s'.
          Updates l s root (page_index virt_addr) (a + (b + c)) (map_entry phys_addr flags) s')
        (vmm_map l root phys_addr virt_addr flags s)
unfolding vmm_map vmm_set_flags map_entry
vmm_map-Updates l s root phys_addr virt_addr flags run a b c inv costs =
    let addressed = set_addr phys_addr in
    Ends-bind
      (update_page-Ends l s root virt_addr addressed run a b c inv (set_addr-KeepsFields phys_addr)
        costs)
      (λ few. few)
      λ _ t (old, fits, first). Returns-Ends (
        Returns-mono
          (update_page-there l t root virt_addr (set_entry_flags flags) (addressed old) first.paging
            (set_entry_flags-KeepsFields flags (addressed old)
              (set_addr-KeepsFields phys_addr old fits))
            first.leaf)
          λ _ u second. (old, fits, Changed-trans first second))

pub vmm_set_flags-Updates :
    (l : Limine) (s : Pmm) (root virt_addr flags : ℕ)
    → IsPaging l s root
    → Ends
        (¬ HasFree s 0 0 3)
        (λ _ s'. Updates l s root (page_index virt_addr) 3 (set_entry_flags flags) s')
        (vmm_set_flags l root virt_addr flags s)
unfolding vmm_set_flags
vmm_set_flags-Updates l s root virt_addr flags inv =
    update_page-Ends l s root virt_addr (set_entry_flags flags) 0 1 1 1 inv
      (set_entry_flags-KeepsFields flags) (three_missing l s.memory root (page_index virt_addr))

-- The tables lead to one entry only.
pub LeafAt-unique :
    {l : Limine} {m : Mem} {root : ℕ} {i : Indexes} {e e' : PageTableEntry}
    → LeafAt l m root i e
    → LeafAt l m root i e'
    → e ≡ e'
LeafAt-unique {l} {m} {root} {i} a b =
    sym a.entry
    ∙ ap (λ t. read_entry m (entry_at t i.page))
        (TableAt-unique l m root (path i) a.last b.last a.at b.at)
    ∙ b.entry

-- `arch_vmm_unmap` on page tables at work returns, or panics for want of memory, and then fewer than
-- three pages were free. After it the page of the address is not mapped, and every other page is
-- mapped or not as before.
pub vmm_unmap-unmaps :
    (l : Limine) (s : Pmm) (root virt_addr : ℕ)
    → IsPaging l s root
    → Ends
        (¬ HasFree s 0 0 3)
        (λ _ s'.
          Updates l s root (page_index virt_addr) 3 unmap_entry s'
          × ((e : PageTableEntry) → ¬ Maps l s'.memory root (page_index virt_addr) e))
        (vmm_unmap l root virt_addr s)
unfolding vmm_unmap unmap_entry
vmm_unmap-unmaps l s root virt_addr inv =
    Ends-mono
      (update_page-Ends l s root virt_addr unmap_entry 0 1 1 1 inv unmap_entry-KeepsFields
        (three_missing l s.memory root (page_index virt_addr)))
      (λ few. few)
      λ _ t (old, fits, a). (
        (old, fits, a),
        λ e h.
            true_ne_false (
              sym h.present ∙ ap (λ (x : PageTableEntry). x.present) (LeafAt-unique h.leaf a.leaf)),
      )
