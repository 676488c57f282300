-- ===== src/Paging/Tables/Frame.antt =====
-- What the page tables of symphony/arch/x86_64/mm.c do not depend on.
use orchestr_os.Base.{
  ℕ, ◌+◌, ◌*◌, ◌≤◌, ◌<◌, ◌^◌, ◌≡◌, ◌≢◌, sym, ap, ◌∙◌, true, false, List, [], ◌∷◌, arith,
}
use orchestr_os.Base.Lists.{length}
use orchestr_os.Base.Word.{page_size}
use orchestr_os.Memory.{Mem, within}
use orchestr_os.Memory.Words.{load64-same}
use orchestr_os.BootProto.{Limine}
use orchestr_os.Pmm.State.{Pmm}
use orchestr_os.Paging.Entry.{PageTableEntry}
use orchestr_os.Paging.Walk.{read_entry, word_entry, entry_at, table_of}
use orchestr_os.Paging.Tables.{Link, TableAt, IsTable, SamePage}

entry_in_page :
    (t i page hhdm tracked : ℕ)
    → t ≡ page * page_size + hhdm
    → page < tracked
    → tracked * page_size + hhdm < 2 ^ 64
    → i < 512
    → (entry_at t i ≡ t + 8 * i) × (t + page_size ≤ 2 ^ 64)
entry_in_page t i page hhdm tracked e lt below h = (omega arith, omega arith)

-- The entries of a table stand in its page.
pub IsTable-entry :
    {l : Limine} {s : Pmm} {t : ℕ} (i : ℕ)
    → IsTable l s t
    → s.bitmap_size * 8 * page_size + l.hhdm_offset < 2 ^ 64
    → i < 512
    → entry_at t i ≡ t + 8 * i
IsTable-entry {l} {s} {t} i is below h =
    (entry_in_page t i is.page l.hhdm_offset _ is.address is.tracked below h).0

pub entry_bytes :
    (t i at a : ℕ) → at ≡ t + 8 * i → i < 512 → at ≤ a → a < at + 8 → within t page_size a ≡ true
entry_bytes t i at a e h lo hi = ground (arith, e, h, lo, hi)

pub read-same :
    (m m' : Mem) (at : ℕ)
    → ((a : ℕ) → at ≤ a → a < at + 8 → m' a ≡ m a)
    → read_entry m' at ≡ read_entry m at
unfolding read_entry
read-same m m' at same = ap word_entry (load64-same m m' at same)

pub read-SamePage :
    (m m' : Mem) (t i : ℕ)
    → SamePage m m' t
    → entry_at t i ≡ t + 8 * i
    → i < 512
    → read_entry m' (entry_at t i) ≡ read_entry m (entry_at t i)
read-SamePage m m' t i same e h =
    read-same m m' (entry_at t i) (λ a lo hi. same a (entry_bytes t i (entry_at t i) a e h lo hi))

-- A link depends on its entry only.
pub Link-entry :
    {l : Limine} {m m' : Mem} {t i u : ℕ}
    → read_entry m' (entry_at t i) ≡ read_entry m (entry_at t i)
    → Link l m t i u
    → Link l m' t i u
Link-entry {l} e link = record {
  index = link.index;
  present = ap (λ (x : PageTableEntry). x.present) e ∙ link.present;
  points = ap (table_of l) e ∙ link.points;
}

-- A path leads to one table only.
pub TableAt-unique :
    (l : Limine) (m : Mem) (root : ℕ) (p : List ℕ) (t u : ℕ)
    → TableAt l m root p t
    → TableAt l m root p u
    → t ≡ u
TableAt-unique l m root [] t u h h' = h ∙ sym h'
TableAt-unique l m root (i ∷ p) t u (x, at, link) (y, at', link') =
    let e = TableAt-unique l m root p x y at at' in
    sym link.points ∙ ap (λ z. table_of l (read_entry m (entry_at z i))) e ∙ link'.points

-- The tables are where they were, if the entries that lead to them are as they were.
pub TableAt-same :
    (l : Limine) (m m' : Mem) (root : ℕ) (p : List ℕ) (t n : ℕ)
    → length p ≤ n
    → ((q : List ℕ) (u i : ℕ)
        → length q < n
        → TableAt l m root q u
        → i < 512
        → read_entry m' (entry_at u i) ≡ read_entry m (entry_at u i))
    → TableAt l m root p t
    → TableAt l m' root p t
TableAt-same l m m' root [] t n h same at = at
TableAt-same l m m' root (i ∷ p) t n h same (u, at, link) = (
  u,
  TableAt-same l m m' root p u n (omega (arith, h)) same at,
  Link-entry (same p u i (omega (arith, h)) at link.index) link,
)

-- And there are no others.
pub TableAt-back :
    (l : Limine) (m m' : Mem) (root : ℕ) (p : List ℕ) (t n : ℕ)
    → length p ≤ n
    → ((q : List ℕ) (u i : ℕ)
        → length q < n
        → TableAt l m root q u
        → i < 512
        → read_entry m' (entry_at u i) ≡ read_entry m (entry_at u i))
    → TableAt l m' root p t
    → TableAt l m root p t
TableAt-back l m m' root [] t n h same at = at
TableAt-back l m m' root (i ∷ p) t n h same (u, at, link) =
    let at' = TableAt-back l m m' root p u n (omega (arith, h)) same at in
    (u, at', Link-entry (sym (same p u i (omega (arith, h)) at' link.index)) link)

pub pages_apart :
    (t u k j hhdm a : ℕ)
    → t ≡ k * page_size + hhdm
    → u ≡ j * page_size + hhdm
    → t ≢ u
    → within t page_size a ≡ true
    → within u page_size a ≡ false
pages_apart t u k j hhdm a e e' ne h = ground (arith, e, e', ne, h)

-- Two tables do not meet.
pub IsTable-apart :
    {l : Limine} {s : Pmm} {t u : ℕ} (a : ℕ)
    → IsTable l s t
    → IsTable l s u
    → t ≢ u
    → within t page_size a ≡ true
    → within u page_size a ≡ false
IsTable-apart {l} {s} {t} {u} a is is' ne h =
    pages_apart t u is.page is'.page l.hhdm_offset a is.address is'.address ne h
