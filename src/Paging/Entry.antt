-- ===== src/Paging/Entry.antt =====
-- The page table entry of include/symphony/arch/x86_64.h, and what arch_vmm_map, arch_vmm_unmap and
-- arch_vmm_set_flags of symphony/arch/x86_64/mm.c do to the entry that they have found.
use orchestr_os.Base.{
  ℕ, ◌+◌, ◌*◌, ◌/◌, ◌%◌, ◌^◌, ◌≤◌, ◌<◌, ◌≡◌, Bool, true, false, not, ◌==◌, arith,
}

pub record PageTableEntry : Type 0 where
  pub present : Bool
  pub read_write : Bool
  pub user_supervisor : Bool
  pub write_through : Bool
  pub cache_disable : Bool
  pub accessed : Bool
  pub avl0 : Bool
  pub page_size : Bool
  pub avl1 : ℕ
  pub addr : ℕ
  pub nx : Bool

-- An entry of an upper level: of no large page, and where it is present, it takes no right away from
-- what the entries behind it give.
pub record Opens (e : PageTableEntry) : Type 0 where
  pub large : e.page_size ≡ false
  pub executable : e.nx ≡ false
  pub writable : e.present ≡ true → e.read_write ≡ true
  pub user : e.present ≡ true → e.user_supervisor ≡ true

-- VMM_PRESENT, VMM_RW, VMM_EXEC and VMM_USER, the bits of the flags.
abbrev pub has_present : (flags : ℕ) → Bool
has_present flags = flags % 2 == 1

abbrev pub has_rw : (flags : ℕ) → Bool
has_rw flags = flags / 2 % 2 == 1

abbrev pub has_exec : (flags : ℕ) → Bool
has_exec flags = flags / 4 % 2 == 1

abbrev pub has_user : (flags : ℕ) → Bool
has_user flags = flags / 8 % 2 == 1

-- The assignments at the end of `arch_vmm_set_flags`.
unfoldable pub set_entry_flags : (flags : ℕ) → PageTableEntry → PageTableEntry
set_entry_flags flags pte = record pte {
  present = has_present flags;
  read_write = has_rw flags;
  user_supervisor = has_user flags;
  page_size = false;
  nx = not (has_exec flags);
}

-- `arch_vmm_map` on the entry: the address, a field of 51 bits, then the flags.
unfoldable pub map_entry : (phys_addr flags : ℕ) → PageTableEntry → PageTableEntry
unfolding set_entry_flags
map_entry phys_addr flags pte =
    set_entry_flags flags (record pte { addr = phys_addr / 2 ^ 12 % 2 ^ 51 })

-- `arch_vmm_unmap` on the entry.
unfoldable pub unmap_entry : PageTableEntry → PageTableEntry
unmap_entry pte = record pte { present = false; addr = 0 }

abbrev pub bit : Bool → ℕ
bit true = 1
bit false = 0

-- The 64-bit word of an entry, its bit fields from the lowest bit on.
abbrev pub entry_word : PageTableEntry → ℕ
entry_word e =
    bit e.present
    + bit e.read_write * 2
    + bit e.user_supervisor * 2 ^ 2
    + bit e.write_through * 2 ^ 3
    + bit e.cache_disable * 2 ^ 4
    + bit e.accessed * 2 ^ 5
    + bit e.avl0 * 2 ^ 6
    + bit e.page_size * 2 ^ 7
    + e.avl1 * 2 ^ 8
    + e.addr * 2 ^ 12
    + bit e.nx * 2 ^ 63

-- How the processor reads an entry: bits 0, 1, 2 and 63, the size bit 7, and the address of the
-- frame in bits 12 to 51.
pub record Reads (present writable user no_execute large : Bool) (frame word : ℕ) : Type 0 where
  pub is_word : word < 2 ^ 64
  pub bit_0 : word % 2 ≡ bit present
  pub bit_1 : word / 2 % 2 ≡ bit writable
  pub bit_2 : word / 2 ^ 2 % 2 ≡ bit user
  pub bit_7 : word / 2 ^ 7 % 2 ≡ bit large
  pub bit_63 : word / 2 ^ 63 ≡ bit no_execute
  pub address : word / 2 ^ 12 % 2 ^ 40 * 2 ^ 12 ≡ frame

pub bit_le : (b : Bool) → bit b ≤ 1
bit_le true = omega arith
bit_le false = omega arith

-- The processor reads the fields of an entry back from its word.
entry_word-Reads :
    (e : PageTableEntry) (frame : ℕ)
    → e.avl1 < 16
    → e.addr < 2 ^ 40
    → e.addr * 2 ^ 12 ≡ frame
    → Reads e.present e.read_write e.user_supervisor e.nx e.page_size frame (entry_word e)
entry_word-Reads e frame h h' at =
    let b0 = bit_le e.present in
    let b1 = bit_le e.read_write in
    let b2 = bit_le e.user_supervisor in
    let b3 = bit_le e.write_through in
    let b4 = bit_le e.cache_disable in
    let b5 = bit_le e.accessed in
    let b6 = bit_le e.avl0 in
    let b7 = bit_le e.page_size in
    let b8 = bit_le e.nx in
    record {
      is_word = omega arith;
      bit_0 = omega arith;
      bit_1 = omega arith;
      bit_2 = omega arith;
      bit_7 = omega arith;
      bit_63 = omega arith;
      address = omega arith;
    }

-- After `arch_vmm_map` the processor reads from the entry, whatever it held, the frame of the
-- physical address, which has at most 52 bits, a page of the standard size, and as its rights those
-- that the flags ask for: it may be executed exactly if they have VMM_EXEC. After `arch_vmm_unmap`
-- it reads an entry that is not present and has no frame.
pub map_entry-Reads :
    (phys_addr flags : ℕ) (e : PageTableEntry)
    → e.avl1 < 16
    → phys_addr < 2 ^ 52
    → Reads
        (has_present flags)
        (has_rw flags)
        (has_user flags)
        (not (has_exec flags))
        false
        (phys_addr / 2 ^ 12 * 2 ^ 12)
        (entry_word (map_entry phys_addr flags e))
      × Reads false e.read_write e.user_supervisor e.nx e.page_size 0 (entry_word (unmap_entry e))
unfolding map_entry unmap_entry
map_entry-Reads phys_addr flags e h h' = (
  entry_word-Reads (map_entry phys_addr flags e) (phys_addr / 2 ^ 12 * 2 ^ 12) h (omega arith)
      (omega arith),
  entry_word-Reads (unmap_entry e) 0 h (omega arith) (omega arith),
)
