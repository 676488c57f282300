-- ===== src/Paging/Walk.antt =====
-- The page tables of symphony/arch/x86_64/mm.c in byte memory, over the frame allocator's state: a
-- table is 512 words of 64 bits, one for each entry. Reloading the processor's address cache
-- (`invlpg`) is not modelled.
pub mod NewTable
pub mod Present
pub mod Destroy
use orchestr_os.Base.{
  ℕ, Bool, zero, suc, ◌+◌, ◌*◌, ◌/◌, ◌%◌, ◌^◌, true, false, not, ◌==◌, ◌&&◌, if◌then◌else◌,
}
use orchestr_os.Base.Word.{u64, sub64, page_size}
use orchestr_os.Base.Run.{Run, ok, Cmd, pure, followed_by}
use orchestr_os.Memory.{Mem, memset}
use orchestr_os.Memory.Words.{load64, store64}
use orchestr_os.BootProto.{Limine}
use orchestr_os.Pmm.State.{Pmm}
use orchestr_os.Pmm.Frames.{alloc, free}
use orchestr_os.Paging.Index.{Indexes, page_index}
use orchestr_os.Paging.Entry.{PageTableEntry, set_entry_flags, unmap_entry, entry_word}

-- The entry in a 64-bit word, field by field.
unfoldable pub word_entry : ℕ → PageTableEntry
word_entry w = record {
  present = w % 2 == 1;
  read_write = w / 2 % 2 == 1;
  user_supervisor = w / 2 ^ 2 % 2 == 1;
  write_through = w / 2 ^ 3 % 2 == 1;
  cache_disable = w / 2 ^ 4 % 2 == 1;
  accessed = w / 2 ^ 5 % 2 == 1;
  avl0 = w / 2 ^ 6 % 2 == 1;
  page_size = w / 2 ^ 7 % 2 == 1;
  avl1 = w / 2 ^ 8 % 2 ^ 4;
  addr = w / 2 ^ 12 % 2 ^ 51;
  nx = w / 2 ^ 63 % 2 == 1;
}

unfoldable pub read_entry : Mem → (at : ℕ) → PageTableEntry
read_entry m at = word_entry (load64 m at)

unfoldable pub write_entry : (at : ℕ) → PageTableEntry → Cmd Pmm (Unit {0})
write_entry at e s = ok tt (record s { memory = store64 s.memory at (entry_word e) })

-- The address of `pt->entries[i]`.
abbrev pub entry_at : (pt i : ℕ) → ℕ
entry_at pt i = u64 (pt + 8 * i)

-- `arch_vmm_new_pt`, and how `page_from_index` makes a table that is missing.
unfoldable pub new_pt : Limine → Cmd Pmm ℕ
new_pt l s = followed_by (alloc 1 s) λ base t.
    let pt = u64 (base + l.hhdm_offset) in
    ok pt (record t { memory = memset pt 0 page_size t.memory })

-- The table that an entry points to.
unfoldable pub table_of : Limine → PageTableEntry → ℕ
table_of l e = u64 (e.addr * 2 ^ 12 + l.hhdm_offset)

-- One level of `page_from_index`: the table behind the entry at `at`, made where it is missing.
unfoldable pub next_table : Limine → (at : ℕ) → Cmd Pmm ℕ
next_table l at s =
    let e = read_entry s.memory at in
    let made = followed_by (new_pt l s) λ table t.
      followed_by
        (write_entry at
          (record e {
            addr = sub64 table l.hhdm_offset / 2 ^ 12 % 2 ^ 51;
            present = true;
            read_write = true;
            user_supervisor = true;
          })
          t)
        λ _ u. ok table u in
    if not e.present then made else ok (table_of l e) s

-- The address of the entry for the indexes.
unfoldable pub page_from_index : Limine → (pt : ℕ) → Indexes → Cmd Pmm ℕ
page_from_index l pt i s = followed_by (next_table l (entry_at pt i.pointer) s) λ pdp t.
    followed_by (next_table l (entry_at pdp i.directory) t) λ pd u.
      followed_by (next_table l (entry_at pd i.table) u) λ last v. ok (entry_at last i.page) v

-- The walk for an address, and a change of the entry that it finds.
unfoldable pub update_page :
    Limine → (pt virt_addr : ℕ) → (PageTableEntry → PageTableEntry) → Cmd Pmm (Unit {0})
update_page l pt virt_addr change s =
    followed_by (page_from_index l pt (page_index virt_addr) s)
      λ pte t. write_entry pte (change (read_entry t.memory pte)) t

unfoldable pub vmm_set_flags : Limine → (pt virt_addr flags : ℕ) → Cmd Pmm (Unit {0})
vmm_set_flags l pt virt_addr flags = update_page l pt virt_addr (set_entry_flags flags)

unfoldable pub vmm_map : Limine → (pt phys_addr virt_addr flags : ℕ) → Cmd Pmm (Unit {0})
vmm_map l pt phys_addr virt_addr flags s =
    followed_by
      (update_page l pt virt_addr (λ e. record e { addr = phys_addr / 2 ^ 12 % 2 ^ 51 }) s)
      λ _ t. vmm_set_flags l pt virt_addr flags t

unfoldable pub vmm_unmap : Limine → (pt virt_addr : ℕ) → Cmd Pmm (Unit {0})
vmm_unmap l pt virt_addr = update_page l pt virt_addr unmap_entry

-- The loop over the entries of a table from `i` on in `arch_vmm_destroy_pt`, where `inner` is the loop
-- over the table behind an entry, and `there` the test of the table's address.
unfoldable pub free_tables :
    Limine → (there : Bool) (inner : ℕ → Cmd Pmm (Unit {0})) (pt left i : ℕ) → Cmd Pmm (Unit {0})
free_tables l there inner pt zero i s = ok tt s
free_tables l there inner pt (suc left) i s =
    let e = read_entry s.memory (entry_at pt i) in
    let table = table_of l e in
    let freed = followed_by (inner table s) λ _ t. free l (sub64 table l.hhdm_offset) 1 t in
    let next = if there && e.present then freed else ok 0 s in
    followed_by next λ _ u. free_tables l there inner pt left (i + 1) u

unfoldable pub free_level : Limine → (inner : ℕ → Cmd Pmm (Unit {0})) (pt : ℕ) → Cmd Pmm (Unit {0})
free_level l inner pt = free_tables l (not (pt == 0)) inner pt 512 0

-- Only the lower half of the tables goes.
unfoldable pub destroy_pt : Limine → (pt : ℕ) → Cmd Pmm ℕ
destroy_pt l pt s =
    let pages = free_level l (λ _. pure tt) in
    followed_by (free_tables l true (free_level l (free_level l pages)) pt 256 0 s)
      λ _ t. free l (sub64 pt l.hhdm_offset) 1 t
