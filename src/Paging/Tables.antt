-- ===== src/Paging/Tables.antt =====
-- The tree of the page tables of symphony/arch/x86_64/mm.c in byte memory. A path is the list of the
-- indexes that lead to a table, the last one first.
pub mod Frame
pub mod Made
pub mod Grow
pub mod Next
pub mod Added
pub mod Reach
pub mod Write
pub mod Change
pub mod Map
pub mod Empty
pub mod Keep
mod Tests
use orchestr_os.Base.{ℕ, ◌+◌, ◌*◌, ◌≤◌, ◌<◌, ◌^◌, ◌≡◌, true, false, List, [], ◌∷◌}
use orchestr_os.Base.Lists.{length}
use orchestr_os.Base.Word.{page_size}
use orchestr_os.Memory.{Mem, within}
use orchestr_os.BootProto.{Limine}
use orchestr_os.Pmm.State.{Pmm, is_used}
use orchestr_os.Pmm.Frames.Laws.{IsPmm}
use orchestr_os.Paging.Index.{Indexes}
use orchestr_os.Paging.Entry.{PageTableEntry, Opens}
use orchestr_os.Paging.Walk.{read_entry, entry_at, table_of}

-- The entry `i` of the table at `t` is present and points to the table at `u`.
pub record Link (l : Limine) (m : Mem) (t i u : ℕ) : Type 0 where
  pub index : i < 512
  pub present : (read_entry m (entry_at t i)).present ≡ true
  pub points : table_of l (read_entry m (entry_at t i)) ≡ u

-- From the table at `root`, the path leads to the table at `t`.
abbrev pub TableAt : Limine → Mem → (root : ℕ) → List ℕ → (t : ℕ) → Type 0
TableAt l m root [] t = t ≡ root
TableAt l m root (i ∷ p) u = (t : ℕ) × TableAt l m root p t × Link l m t i u

-- The table is a page that the frame allocator has given out, and does not meet its bitmap.
pub record IsTable (l : Limine) (s : Pmm) (t : ℕ) : Type 0 where
  pub page : ℕ
  pub address : t ≡ page * page_size + l.hhdm_offset
  pub tracked : page < s.bitmap_size * 8
  pub used : is_used s page ≡ true
  pub apart : (a : ℕ) → within t page_size a ≡ true → within s.bitmap s.bitmap_size a ≡ false

-- Page tables at work: every table of the four levels is a page of its own, and no entry of the upper
-- three levels is of a large page or takes rights away. Physical addresses have at most 52 bits.
pub record IsPaging (l : Limine) (s : Pmm) (root : ℕ) : Type 0 where
  pub pmm : IsPmm l s
  pub below : s.bitmap_size * 8 * page_size + l.hhdm_offset < 2 ^ 64
  pub physical : s.bitmap_size * 8 ≤ 2 ^ 40
  pub tables : (p : List ℕ) (t : ℕ) → length p ≤ 3 → TableAt l s.memory root p t → IsTable l s t
  pub apart :
      (p q : List ℕ) (t : ℕ)
      → length p ≤ 3
      → length q ≤ 3
      → TableAt l s.memory root p t
      → TableAt l s.memory root q t
      → p ≡ q
  pub opens :
      (p : List ℕ) (t i : ℕ)
      → length p ≤ 2
      → TableAt l s.memory root p t
      → i < 512
      → Opens (read_entry s.memory (entry_at t i))

-- The indexes of the three tables on the way, the last one first.
abbrev pub path : Indexes → List ℕ
path i = i.table ∷ i.directory ∷ i.pointer ∷ []

-- The tables on the way are there, and the entry for the indexes is `e`.
pub record LeafAt (l : Limine) (m : Mem) (root : ℕ) (i : Indexes) (e : PageTableEntry)
    : Type 0 where
  pub last : ℕ
  pub at : TableAt l m root (path i) last
  pub entry : read_entry m (entry_at last i.page) ≡ e

-- The tables map the page with the indexes `i` by the entry `e`.
pub record Maps (l : Limine) (m : Mem) (root : ℕ) (i : Indexes) (e : PageTableEntry) : Type 0 where
  pub leaf : LeafAt l m root i e
  pub present : e.present ≡ true

-- Memory that is the same in a page.
abbrev pub SamePage : (m m' : Mem) (t : ℕ) → Type 0
SamePage m m' t = (a : ℕ) → within t page_size a ≡ true → m' a ≡ m a
