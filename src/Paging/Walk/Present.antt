-- ===== src/Paging/Walk/Present.antt =====
-- arch_vmm_map, arch_vmm_unmap and arch_vmm_set_flags of symphony/arch/x86_64/mm.c where the tables
-- for the address are present.
use orchestr_os.Base.{
  ℕ, ◌+◌, ◌/◌, ◌%◌, ◌≤◌, ◌<◌, ◌^◌, ◌≡◌, ◌⊎◌, ◌==◌, refl, ap, ◌∙◌, Bool, true, false, arith,
}
use orchestr_os.Base.Run.{Returns, returns, Returns-bind, Returns-mono, ok}
use orchestr_os.Base.Word.{u64}
use orchestr_os.Memory.{Mem, within}
use orchestr_os.Memory.Words.{store64, load64-same, load64-store64, store64-outside}
use orchestr_os.BootProto.{Limine}
use orchestr_os.Pmm.State.{Pmm}
use orchestr_os.Paging.Index.{Indexes, page_index}
use orchestr_os.Paging.Entry.{
  PageTableEntry, bit, bit_le, entry_word, set_entry_flags, map_entry, unmap_entry,
}
use orchestr_os.Paging.Walk.{
  read_entry, write_entry, word_entry, entry_at, table_of, next_table, page_from_index, update_page,
  vmm_map, vmm_set_flags, vmm_unmap,
}

bit_back : (b : Bool) (n : ℕ) → n ≡ bit b → (n == 1) ≡ b
bit_back true n h = rw (h) refl
bit_back false n h = rw (h) refl

-- The fields of an entry are read back from its word.
pub word_entry-entry_word :
    (e : PageTableEntry) → e.avl1 < 2 ^ 4 → e.addr < 2 ^ 51 → word_entry (entry_word e) ≡ e
unfolding word_entry
word_entry-entry_word e small small' =
    let b0 = bit_le e.present in
    let b1 = bit_le e.read_write in
    let b2 = bit_le e.user_supervisor in
    let b3 = bit_le e.write_through in
    let b4 = bit_le e.cache_disable in
    let b5 = bit_le e.accessed in
    let b6 = bit_le e.avl0 in
    let b7 = bit_le e.page_size in
    let b8 = bit_le e.nx in
    λ i. record {
      present = bit_back e.present (entry_word e % 2) (omega arith) i;
      read_write = bit_back e.read_write (entry_word e / 2 % 2) (omega arith) i;
      user_supervisor = bit_back e.user_supervisor (entry_word e / 2 ^ 2 % 2) (omega arith) i;
      write_through = bit_back e.write_through (entry_word e / 2 ^ 3 % 2) (omega arith) i;
      cache_disable = bit_back e.cache_disable (entry_word e / 2 ^ 4 % 2) (omega arith) i;
      accessed = bit_back e.accessed (entry_word e / 2 ^ 5 % 2) (omega arith) i;
      avl0 = bit_back e.avl0 (entry_word e / 2 ^ 6 % 2) (omega arith) i;
      page_size = bit_back e.page_size (entry_word e / 2 ^ 7 % 2) (omega arith) i;
      nx = bit_back e.nx (entry_word e / 2 ^ 63 % 2) (omega arith) i;
      avl1 = fields_1 i;
      addr = fields_2 i;
    }
  where
    fields_1 : entry_word e / 2 ^ 8 % 2 ^ 4 ≡ e.avl1
    fields_1 = omega (
      arith,
      bit_le e.present,
      bit_le e.read_write,
      bit_le e.user_supervisor,
      bit_le e.write_through,
      bit_le e.cache_disable,
      bit_le e.accessed,
      bit_le e.avl0,
      bit_le e.page_size,
      bit_le e.nx,
      small,
      small',
    )

    fields_2 : entry_word e / 2 ^ 12 % 2 ^ 51 ≡ e.addr
    fields_2 = omega (
      arith,
      bit_le e.present,
      bit_le e.read_write,
      bit_le e.user_supervisor,
      bit_le e.write_through,
      bit_le e.cache_disable,
      bit_le e.accessed,
      bit_le e.avl0,
      bit_le e.page_size,
      bit_le e.nx,
      small,
      small',
    )

-- The tables for the indexes `i` in the table `pt`, and the address of the entry.
pub record Walk (l : Limine) (m : Mem) (pt : ℕ) (i : Indexes) (pdp pd last : ℕ) : Type 0 where
  pub present_1 : (read_entry m (entry_at pt i.pointer)).present ≡ true
  pub pdp_lem : table_of l (read_entry m (entry_at pt i.pointer)) ≡ pdp
  pub present_2 : (read_entry m (entry_at pdp i.directory)).present ≡ true
  pub pd_lem : table_of l (read_entry m (entry_at pdp i.directory)) ≡ pd
  pub present_3 : (read_entry m (entry_at pd i.table)).present ≡ true
  pub last_lem : table_of l (read_entry m (entry_at pd i.table)) ≡ last

pub next_table-present :
    (l : Limine) (at table : ℕ) (s : Pmm)
    → (read_entry s.memory at).present ≡ true
    → table_of l (read_entry s.memory at) ≡ table
    → next_table l at s ≡ ok table s
unfolding next_table
next_table-present l at table s there e = rw (e, there) refl

pub Walk-found :
    (l : Limine) (s : Pmm) (pt : ℕ) (i : Indexes) (pdp pd last : ℕ)
    → Walk l s.memory pt i pdp pd last
    → page_from_index l pt i s ≡ ok (entry_at last i.page) s
unfolding page_from_index
Walk-found l s pt i pdp pd last w =
    rw
      (
        next_table-present l (entry_at pt i.pointer) pdp s w.present_1 w.pdp_lem,
        next_table-present l (entry_at pdp i.directory) pd s w.present_2 w.pd_lem,
        next_table-present l (entry_at pd i.table) last s w.present_3 w.last_lem,
      )
      refl

-- A word that is apart from another is left by a write to the other.
read-apart :
    (m : Mem) (at to w : ℕ)
    → (at + 8 ≤ to) ⊎ (to + 8 ≤ at)
    → read_entry (store64 m to w) at ≡ read_entry m at
unfolding read_entry
read-apart m at to w apart =
    ap word_entry
      (load64-same m (store64 m to w) at (λ a lo hi. store64-outside m to w a (ground arith)))

pub read-written :
    (m : Mem) (at : ℕ) (e : PageTableEntry)
    → e.avl1 < 2 ^ 4
    → e.addr < 2 ^ 51
    → read_entry (store64 m at (entry_word e)) at ≡ e
unfolding read_entry
read-written m at e small small' =
    let word : u64 (entry_word e) ≡ entry_word e = word_small e small small' in
    ap word_entry (load64-store64 m at (entry_word e) ∙ word) ∙ word_entry-entry_word e small small'
  where
    word_small :
        (e : PageTableEntry) → e.avl1 < 2 ^ 4 → e.addr < 2 ^ 51 → u64 (entry_word e) ≡ entry_word e
    word_small e small small' = omega (
      arith,
      bit_le e.present,
      bit_le e.read_write,
      bit_le e.user_supervisor,
      bit_le e.write_through,
      bit_le e.cache_disable,
      bit_le e.accessed,
      bit_le e.avl0,
      bit_le e.page_size,
      bit_le e.nx,
      small,
      small',
    )

-- The entry lies apart from the three that lead to it.
pub record Leaf (pt : ℕ) (i : Indexes) (pdp pd pte : ℕ) : Type 0 where
  pub apart_1 : (entry_at pt i.pointer + 8 ≤ pte) ⊎ (pte + 8 ≤ entry_at pt i.pointer)
  pub apart_2 : (entry_at pdp i.directory + 8 ≤ pte) ⊎ (pte + 8 ≤ entry_at pdp i.directory)
  pub apart_3 : (entry_at pd i.table + 8 ≤ pte) ⊎ (pte + 8 ≤ entry_at pd i.table)

Walk-write :
    (l : Limine) (m : Mem) (pt : ℕ) (i : Indexes) (pdp pd last w : ℕ)
    → Walk l m pt i pdp pd last
    → Leaf pt i pdp pd (entry_at last i.page)
    → Walk l (store64 m (entry_at last i.page) w) pt i pdp pd last
Walk-write l m pt i pdp pd last w walk leaf =
    let pte = entry_at last i.page in
    let e1 = read-apart m (entry_at pt i.pointer) pte w leaf.apart_1 in
    let e2 = read-apart m (entry_at pdp i.directory) pte w leaf.apart_2 in
    let e3 = read-apart m (entry_at pd i.table) pte w leaf.apart_3 in
    record {
      present_1 = ap (λ (e : PageTableEntry). e.present) e1 ∙ walk.present_1;
      pdp_lem = ap (table_of l) e1 ∙ walk.pdp_lem;
      present_2 = ap (λ (e : PageTableEntry). e.present) e2 ∙ walk.present_2;
      pd_lem = ap (table_of l) e2 ∙ walk.pd_lem;
      present_3 = ap (λ (e : PageTableEntry). e.present) e3 ∙ walk.present_3;
      last_lem = ap (table_of l) e3 ∙ walk.last_lem;
    }

-- The state after the entry was changed to `e`: the walk finds it, and no other byte has changed.
pub record Updated (l : Limine) (s : Pmm) (pt : ℕ) (i : Indexes) (pdp pd last : ℕ)
    (e : PageTableEntry) (s' : Pmm) : Type 0 where
  pub walk : Walk l s'.memory pt i pdp pd last
  pub found : page_from_index l pt i s' ≡ ok (entry_at last i.page) s'
  pub entry : read_entry s'.memory (entry_at last i.page) ≡ e
  pub outside : (a : ℕ) → within (entry_at last i.page) 8 a ≡ false → s'.memory a ≡ s.memory a
  pub bitmap : (s'.bitmap ≡ s.bitmap) × (s'.bitmap_size ≡ s.bitmap_size)

update_page-Updated :
    (l : Limine) (s : Pmm) (pt virt_addr pdp pd last : ℕ) (change : PageTableEntry → PageTableEntry)
    (e : PageTableEntry)
    → Walk l s.memory pt (page_index virt_addr) pdp pd last
    → Leaf pt (page_index virt_addr) pdp pd (entry_at last (page_index virt_addr).page)
    → change (read_entry s.memory (entry_at last (page_index virt_addr).page)) ≡ e
    → e.avl1 < 2 ^ 4
    → e.addr < 2 ^ 51
    → Returns
        (λ _ s'. Updated l s pt (page_index virt_addr) pdp pd last e s')
        (update_page l pt virt_addr change s)
unfolding update_page write_entry
update_page-Updated l s pt virt_addr pdp pd last change e walk leaf changed small small' =
    let i = page_index virt_addr in
    let pte = entry_at last i.page in
    let walk' = Walk-write l s.memory pt i pdp pd last (entry_word e) walk leaf in
    rw (Walk-found l s pt i pdp pd last walk, changed)
      (returns record {
        walk = walk';
        found =
            Walk-found l (record s { memory = store64 s.memory pte (entry_word e) }) pt i pdp pd
              last walk';
        entry = read-written s.memory pte e small small';
        outside = λ a h. store64-outside s.memory pte (entry_word e) a h;
        bitmap = (refl, refl);
      })

-- The bit fields of an entry that was read are in their bounds.
pub read_entry-bounds :
    (m : Mem) (at : ℕ) → ((read_entry m at).avl1 < 2 ^ 4) × ((read_entry m at).addr < 2 ^ 51)
unfolding read_entry word_entry
read_entry-bounds m at = (omega arith, omega arith)

Updated-trans :
    {l : Limine} {s t u : Pmm} {pt pdp pd last : ℕ} {i : Indexes} {e e' : PageTableEntry}
    → Updated l s pt i pdp pd last e t
    → Updated l t pt i pdp pd last e' u
    → Updated l s pt i pdp pd last e' u
Updated-trans a b = record {
  walk = b.walk;
  found = b.found;
  entry = b.entry;
  outside = λ x h. b.outside x h ∙ a.outside x h;
  bitmap = (b.bitmap.0 ∙ a.bitmap.0, b.bitmap.1 ∙ a.bitmap.1);
}

module _ (l : Limine) (s : Pmm) (pt virt_addr pdp pd last : ℕ)
    (walk : Walk l s.memory pt (page_index virt_addr) pdp pd last)
    (leaf : Leaf pt (page_index virt_addr) pdp pd (entry_at last (page_index virt_addr).page)) where
  abbrev i : Indexes
  i = page_index virt_addr

  abbrev old : PageTableEntry
  old = read_entry s.memory (entry_at last i.page)

  -- `arch_vmm_map`, where the tables for the address are present and lie apart from the entry,
  -- returns, and the walk then finds the entry with the address and the flags; no byte outside the
  -- entry has changed.
  pub vmm_map-Updated :
      (phys_addr flags : ℕ)
      → Returns
          (λ _ s'. Updated l s pt i pdp pd last (map_entry phys_addr flags old) s')
          (vmm_map l pt phys_addr virt_addr flags s)
  unfolding vmm_map vmm_set_flags map_entry set_entry_flags
  vmm_map-Updated phys_addr flags =
      let (small, _) = read_entry-bounds s.memory (entry_at last i.page) in
      Returns-bind
        (update_page-Updated l s pt virt_addr pdp pd last _
          (record old { addr = phys_addr / 2 ^ 12 % 2 ^ 51 }) walk leaf refl small (omega arith))
        λ _ t got.
          Returns-mono
            (update_page-Updated l t pt virt_addr pdp pd last (set_entry_flags flags) _ got.walk
              leaf (ap (set_entry_flags flags) got.entry) small (omega arith))
            λ _ u more. Updated-trans got more

  -- `arch_vmm_unmap`, where the tables for the address are present and lie apart from the entry,
  -- returns, and the walk then finds the entry without its address and not present; no byte outside
  -- the entry has changed.
  pub vmm_unmap-Updated :
      Returns
        (λ _ s'. Updated l s pt i pdp pd last (unmap_entry old) s')
        (vmm_unmap l pt virt_addr s)
  unfolding vmm_unmap unmap_entry
  vmm_unmap-Updated =
      let (small, _) = read_entry-bounds s.memory (entry_at last i.page) in
      update_page-Updated l s pt virt_addr pdp pd last unmap_entry _ walk leaf refl small
        (omega arith)
